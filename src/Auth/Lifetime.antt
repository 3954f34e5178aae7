-- ===== src/Auth/Lifetime.antt =====
-- internal/auth/session.go: how long a token works, and what ends it.
use ghost_vault.Prelude.{
  ℕ, ◌+◌, ◌≤◌, ◌≡◌, refl, sym, ap, ◌∙◌, true, false, Option, none, some, List, lookup, insert,
  remove, arith, Assoc, Bool-cases, lookup-remove, beq_refl, All, inl, inr,
}
use ghost_vault.Text.{Text, is_empty, text_eq}
use ghost_vault.Auth.{Session}
use ghost_vault.Auth.Manager.{
  unauthorized, vault_locked, done, refused, SessionRow, Manager, Faults, create_session,
  delete_row, forget, session_of_row, refresh, touch_cold, touch_found, find_row_of_token, touch,
  invalidate, Call, after_all, is_stale,
}
use ghost_vault.Auth.Limits.{
  AllO, AllO-some, IsLimited, IsOther, SessionLimit, RowLimit, create-IsLimited,
  after_all-IsLimited,
}

done-inj : {A : Type 0} {a b : A} → done a ≡ done b → a ≡ b
done-inj h = cc h

module _ {U : Type 0} (hash : Text → List ℕ) (f : Faults) (token : Text) (now : ℕ) where
  refresh-done :
      (s : Session U) (m : Manager U) {s' : Session U}
      → (refresh hash f token now s m).0 ≡ done s'
      → (now ≤ s.max_until)
        × (now ≤ s.last_seen + s.idle)
        × (s' ≡ record s { last_seen = now; expires_at = now + s.idle })
  unfolding refresh
  refresh-done s m h = elim (Bool-cases (is_stale now s.max_until s.last_seen s.idle)) [
    | inl e ↦ absurd (ground (arith, e, h))
    | inr e ↦ (ground (arith, e), ground (arith, e), ground (arith, e, h))
  ]

  cold-done :
      (r : Option (SessionRow U)) (m : Manager U) {s' : Session U}
      → (touch_cold hash f token now r m).0 ≡ done s'
      → (row : SessionRow U) × (r ≡ some row)
        × (now ≤ row.max_until)
        × (s' ≡ record (session_of_row hash f token m row) {
          last_seen = now;
          expires_at = now + m.idle;
        })
  unfolding touch_cold session_of_row
  cold-done none m h = absurd (cc h)
  cold-done (some row) m h = elim (Bool-cases (is_stale now row.max_until row.last_seen m.idle)) [
    | inl e ↦ absurd (ground (arith, e, h))
    | inr e ↦
        let s : Session U = session_of_row hash f token m row in
        let (late, idle, same) =
          refresh-done s (record m { sessions = insert token s m.sessions })
            (ground (arith, e, h)) in
        (row, refl, late, same)
  ]

  find_row_of_token-eq_some :
      (m : Manager U) (row : SessionRow U)
      → find_row_of_token hash f token m ≡ some row
      → lookup (hash token) m.rows ≡ some row
  unfolding find_row_of_token
  find_row_of_token-eq_some m row e = ground (arith, e)

  pub touch-found :
      (m : Manager U)
      → is_empty token ≡ false
      → touch hash f token now m ≡ touch_found hash f token now (lookup token m.sessions) m
  unfolding touch
  touch-found m e = rw (e, touch) refl

  -- A touch that succeeds comes within a limit that holds of the token in the map and in the table,
  -- and gives the session with its idle time started again.
  touch-done :
      (Within : ℕ → Type 0) (m : Manager U) {s : Session U}
      → IsLimited hash token Within m
      → (touch hash f token now m).0 ≡ done s
      → Within s.max_until
        × (now ≤ s.max_until)
        × (s.last_seen ≡ now)
        × (s.expires_at ≡ now + s.idle)
  unfolding touch session_of_row
  touch-done Within m {s} limited h = elim (Bool-cases (is_empty token)) [
    | inl e ↦ absurd (ground (arith, e, h))
    | inr e ↦ found (lookup token m.sessions) refl (ap (λ r. r.0) (sym (touch-found m e)) ∙ h)
  ]
    where
      found :
          (o : Option (Session U))
          → lookup token m.sessions ≡ o
          → (touch_found hash f token now o m).0 ≡ done s
          → Within s.max_until
            × (now ≤ s.max_until)
            × (s.last_seen ≡ now)
            × (s.expires_at ≡ now + s.idle)
      found (some s₀) e h =
          let (late, idle, same) = refresh-done s₀ m h in
          rw same (AllO-some (SessionLimit hash token Within) e limited.in_map, late, refl, refl)
      found none e h =
          let (row, r, late, same) = cold-done (find_row_of_token hash f token m) m h in
          rw same (
            AllO-some (RowLimit hash token Within) (find_row_of_token-eq_some m row r)
                limited.in_table,
            late,
            refl,
            refl,
          )

  sessions-forget : (m : Manager U) → (forget hash f token m).sessions ≡ remove token m.sessions
  unfolding forget delete_row
  sessions-forget m = ground arith

  lookup-forget : (m : Manager U) → lookup token (forget hash f token m).sessions ≡ none
  lookup-forget m =
      ap (lookup token) (sessions-forget m)
      ∙ lookup-remove token token m.sessions
      ∙ rw (beq_refl token) refl

  -- A token that is in the map, and is used after its idle time or its last moment, is refused, and
  -- the map has it no longer.
  touch_expired :
      (m : Manager U) (s : Session U)
      → is_empty token ≡ false
      → lookup token m.sessions ≡ some s
      → is_stale now s.max_until s.last_seen s.idle ≡ true
      → ((touch hash f token now m).0 ≡ refused vault_locked)
        × (lookup token (touch hash f token now m).1.sessions ≡ none)
  unfolding refresh
  touch_expired m s named found stale =
      rw (touch-found m named, found, stale, refresh) (refl, lookup-forget m)

  -- A token that is in the map, within its idle time and its last moment, works whatever rows the
  -- table has.
  touch_cached :
      (m : Manager U) (s : Session U) (rows : Assoc (List ℕ) (SessionRow U))
      → is_empty token ≡ false
      → lookup token m.sessions ≡ some s
      → is_stale now s.max_until s.last_seen s.idle ≡ false
      → (touch hash f token now (record m { rows = rows })).0
        ≡ done (record s { last_seen = now; expires_at = now + s.idle })
  unfolding refresh
  touch_cached m s rows named found fresh =
      rw (touch-found (record m { rows = rows }) named, found, fresh) refl

abbrev Never : ℕ → Type 0
Never n = ⊥

none_of_Never : {A : Type 0} (P : A → ℕ) (o : Option A) → AllO (λ a. Never (P a)) o → o ≡ none
none_of_Never P none h = refl
none_of_Never P (some a) h = absurd h

module _ {U : Type 0} (hash : Text → List ℕ) (token : Text) where
  module _ (no_collision : (t : Text) → hash t ≡ hash token → t ≡ token) (f g : Faults)
      (calls : List (Call U)) where
    -- A session never outlives its creation by more than the manager's `max`: if the token is new, and
    -- no later call creates it again, then whatever calls follow, one that finds the token good comes
    -- no later than its creation plus `max`. The hash has no collision at the token.
    pub touch_within_max :
        (vault : U) (dek : List ℕ) (start now : ℕ) (m : Manager U) {s : Session U}
        → All (IsOther token) calls
        → lookup token m.sessions ≡ none
        → lookup (hash token) m.rows ≡ none
        → (touch hash g token now
            (after_all hash calls (create_session hash f vault dek start token m).1)).0
          ≡ done s
        → now ≤ start + m.max
    touch_within_max vault dek start now m others new_token new_row h =
        let Within : ℕ → Type 0 = λ n. n ≤ start + m.max in
        let before : IsLimited hash token Within m = record {
          in_map = rw new_token tt;
          in_table = rw new_row tt;
        } in
        let created =
          create-IsLimited hash token Within f vault dek start token m (no_collision token)
            (λ _. omega arith) before in
        let later = after_all-IsLimited hash token Within no_collision calls _ others created in
        let (limit, late, _, _) = touch-done hash g token now Within _ later h in
        omega (arith, limit, late)

    forget-Never :
        (m : Manager U)
        → m.has_store ≡ true
        → f.delete_fails ≡ false
        → IsLimited hash token Never (forget hash f token m)
    unfolding forget delete_row
    forget-Never m store deleted = record {
      in_map = rw (lookup-forget hash f token 0 m) tt;
      in_table =
          rw (store, deleted, lookup-remove (hash token) (hash token) m.rows, beq_refl (hash token))
            tt;
    }

    touch-Never :
        (now : ℕ) (m : Manager U)
        → IsLimited hash token Never m
        → (touch hash g token now m).0 ≡ refused unauthorized
    unfolding touch find_row_of_token touch_cold
    touch-Never now m c =
        let e₁ = none_of_Never (λ (s : Session U). s.max_until) _ c.in_map in
        let e₂ = none_of_Never (λ (r : SessionRow U). r.max_until) _ c.in_table in
        ground (arith, e₁, e₂)

    -- A token that was invalidated, with its row deleted, is refused as unknown from then on, whatever
    -- calls follow, if none of them creates it again. The hash has no collision at the token.
    pub touch-invalidate :
        (now : ℕ) (m : Manager U)
        → m.has_store ≡ true
        → f.delete_fails ≡ false
        → All (IsOther token) calls
        → (touch hash g token now (after_all hash calls (invalidate hash f token m))).0
          ≡ refused unauthorized
    unfolding invalidate
    touch-invalidate now m store deleted others = touch-Never now _ (
        after_all-IsLimited hash token Never no_collision calls _ others
          (forget-Never m store deleted))

  module _ (f g : Faults) where
    forget_fault :
        (m : Manager U)
        → f.delete_fails ≡ true
        → forget hash f token m ≡ record m { sessions = remove token m.sessions }
    unfolding forget delete_row
    forget_fault m e = ground (arith, e)

    -- A token whose row is fresh still works after it was invalidated, if deleting the row failed:
    -- Invalidate drops that error, and the next touch takes the session from the row.
    invalidate_fault :
        (now : ℕ) (m : Manager U) (row : SessionRow U)
        → is_empty token ≡ false
        → m.has_store ≡ true
        → f.delete_fails ≡ true
        → g.get_fails ≡ false
        → lookup (hash token) m.rows ≡ some row
        → is_stale now row.max_until row.last_seen m.idle ≡ false
        → (s : Session U) × ((touch hash g token now (invalidate hash f token m)).0 ≡ done s)
          × (s.vault_id ≡ row.vault_id)
    unfolding invalidate touch_cold find_row_of_token refresh session_of_row
    invalidate_fault now m row named store failed got found fresh =
        let gone : lookup token (remove token m.sessions) ≡ none =
          lookup-remove token token m.sessions ∙ rw (beq_refl token) refl in
        (
          record (session_of_row hash g token m row) { last_seen = now; expires_at = now + m.idle },
          rw
              (
                forget_fault m failed,
                touch-found hash g token now (record m { sessions = remove token m.sessions })
                    named,
                gone,
                store,
                got,
                found,
                fresh,
              )
              refl,
          refl,
        )
