-- ===== src/Auth/Limits.antt =====
-- internal/auth/session.go: the last moment of a token is kept by all calls that do not create it.
use mathlib.Core.Path.{subst}
use ghost_vault.Prelude.{
  ℕ, ◌+◌, ◌≡◌, ◌≢◌, inl, inr, refl, sym, ap, ◌∙◌, Bool, true, false, not, ◌&&◌, Option, none, some,
  List, [], ◌∷◌, if◌then◌else◌, Assoc, lookup, insert, remove, Eq, arith, Bool-cases, lookup-insert,
  lookup-remove, All,
}
use ghost_vault.Text.{Text, is_empty, text_eq}
use ghost_vault.Auth.{Session}
use ghost_vault.Auth.Manager.{
  SessionRow, Manager, Faults, create_session, insert_row, delete_row, forget, session_of_row,
  touch_row, refresh, touch_cold, touch_found, renew_row, find_row_of_token, touch, invalidate,
  Call, creating, touching, invalidating, invalidating_all, setting_state, after, after_all,
  is_stale,
}

abbrev pub AllO : {A : Type 0} → (A → Type 0) → Option A → Type 0
AllO P none = Unit
AllO P (some a) = P a

pub AllO-some : {A : Type 0} (P : A → Type 0) {o : Option A} {a : A} → o ≡ some a → AllO P o → P a
AllO-some P e h = subst (AllO P) e h

module _ {K V : Type 0} ⦃e : Eq K⦄ (P : V → Type 0) (k j : K) where
  AllO-insert :
      (v : V) (m : Assoc K V)
      → (k ≡ j → P v)
      → AllO P (lookup j m)
      → AllO P (lookup j (insert k v m))
  AllO-insert v m new old = rw (lookup-insert k j v m) (go (e.beq k j) refl)
    where
      go : (b : Bool) → e.beq k j ≡ b → AllO P (if b then some v else lookup j m)
      go true h = new ((e.beq_iff k j).0 h)
      go false h = old

  AllO-remove : (m : Assoc K V) → AllO P (lookup j m) → AllO P (lookup j (remove k m))
  AllO-remove m old = rw (lookup-remove k j m) (go (e.beq k j))
    where
      go : (b : Bool) → AllO P (if b then none else lookup j m)
      go true = tt
      go false = old

module _ {U : Type 0} (token : Text) where
  -- The call creates no session of the token.
  abbrev pub IsOther : Call U → Type 0
  IsOther (creating f vault dek now t) = t ≢ token
  IsOther _ = Unit

module _ {U : Type 0} (hash : Text → List ℕ) (token : Text) (Within : ℕ → Type 0) where
  abbrev pub SessionLimit : Session U → Type 0
  SessionLimit s = Within s.max_until

  abbrev pub RowLimit : SessionRow U → Type 0
  RowLimit r = Within r.max_until

  -- Where the map or the table has the token, its last moment satisfies the predicate.
  pub record IsLimited (m : Manager U) : Type 0 where
    pub in_map : AllO SessionLimit (lookup token m.sessions)
    pub in_table : AllO RowLimit (lookup (hash token) m.rows)

  module _ (f : Faults) where
    delete_row-IsLimited :
        (t : Text) (m : Manager U) → IsLimited m → IsLimited (delete_row hash f t m)
    unfolding delete_row
    delete_row-IsLimited t m c = elim (Bool-cases (m.has_store && not f.delete_fails)) [
      | inl e ↦
          rw (e, delete_row)
            (record {
              in_map = c.in_map;
              in_table = AllO-remove RowLimit (hash t) (hash token) m.rows c.in_table;
            })
      | inr e ↦ rw (e, delete_row) c
    ]

    pub forget-IsLimited : (t : Text) (m : Manager U) → IsLimited m → IsLimited (forget hash f t m)
    unfolding forget
    forget-IsLimited t m c = delete_row-IsLimited t _ (record {
      in_map = AllO-remove SessionLimit t token m.sessions c.in_map;
      in_table = c.in_table;
    })

    renew_row-IsLimited :
        (t : Text) (s : Session U) (r : Option (SessionRow U)) (m : Manager U)
        → lookup (hash t) m.rows ≡ r
        → IsLimited m
        → IsLimited (renew_row hash f t s r m)
    renew_row-IsLimited t s none m e c = c
    renew_row-IsLimited t s (some row) m e c = record {
      in_map = c.in_map;
      in_table =
          AllO-insert RowLimit (hash t) (hash token) _ m.rows
            (λ k. AllO-some RowLimit (ap (λ h. lookup h m.rows) (sym k) ∙ e) c.in_table) c.in_table;
    }

    touch_row-IsLimited :
        (t : Text) (s : Session U) (m : Manager U)
        → IsLimited m
        → IsLimited (touch_row hash f t s m)
    unfolding touch_row
    touch_row-IsLimited t s m c = elim (Bool-cases (m.has_store && not f.touch_fails)) [
      | inl e ↦ rw (e, touch_row) (renew_row-IsLimited t s (lookup (hash t) m.rows) m refl c)
      | inr e ↦ rw (e, touch_row) c
    ]

    put-IsLimited :
        (t : Text) (s : Session U) (m : Manager U)
        → (t ≡ token → Within s.max_until)
        → IsLimited m
        → IsLimited (record m { sessions = insert t s m.sessions })
    put-IsLimited t s m h c = record {
      in_map = AllO-insert SessionLimit t token s m.sessions h c.in_map;
      in_table = c.in_table;
    }

    refresh-IsLimited :
        (t : Text) (now : ℕ) (s : Session U) (m : Manager U)
        → (t ≡ token → Within s.max_until)
        → IsLimited m
        → IsLimited (refresh hash f t now s m).1
    unfolding refresh
    refresh-IsLimited t now s m h c =
        elim (Bool-cases (is_stale now s.max_until s.last_seen s.idle)) [
          | inl e ↦ rw (e, refresh) (forget-IsLimited t m c)
          | inr e ↦
              let s' : Session U = record s { last_seen = now; expires_at = now + s.idle } in
              rw (e, refresh) (touch_row-IsLimited t s' _ (put-IsLimited t s' m h c))
        ]

    cold-IsLimited :
        (t : Text) (now : ℕ) (r : Option (SessionRow U)) (m : Manager U)
        → ((row : SessionRow U) → r ≡ some row → t ≡ token → Within row.max_until)
        → IsLimited m
        → IsLimited (touch_cold hash f t now r m).1
    unfolding touch_cold session_of_row
    cold-IsLimited t now none m h c = c
    cold-IsLimited t now (some row) m h c =
        elim (Bool-cases (is_stale now row.max_until row.last_seen m.idle)) [
          | inl e ↦ rw (e, touch_cold) (delete_row-IsLimited t m c)
          | inr e ↦
              rw (e, touch_cold)
                (refresh-IsLimited t now (session_of_row hash f t m row) _ (h row refl)
                  (put-IsLimited t _ m (h row refl) c))
        ]

    find_row_of_token-eq_some :
        (t : Text) (m : Manager U) (row : SessionRow U)
        → find_row_of_token hash f t m ≡ some row
        → lookup (hash t) m.rows ≡ some row
    unfolding find_row_of_token
    find_row_of_token-eq_some t m row e = ground (arith, e)

    found-IsLimited :
        (t : Text) (now : ℕ) (s : Option (Session U)) (m : Manager U)
        → lookup t m.sessions ≡ s
        → IsLimited m
        → IsLimited (touch_found hash f t now s m).1
    found-IsLimited t now (some s) m e c =
        refresh-IsLimited t now s m
          (λ k. AllO-some SessionLimit (ap (λ x. lookup x m.sessions) (sym k) ∙ e) c.in_map) c
    found-IsLimited t now none m e c =
        cold-IsLimited t now (find_row_of_token hash f t m) m
          (λ row r k.
            AllO-some RowLimit
              (ap (λ x. lookup (hash x) m.rows) (sym k) ∙ find_row_of_token-eq_some t m row r)
              c.in_table)
          c

    touch-IsLimited :
        (t : Text) (now : ℕ) (m : Manager U) → IsLimited m → IsLimited (touch hash f t now m).1
    unfolding touch
    touch-IsLimited t now m c = elim (Bool-cases (is_empty t)) [
      | inl e ↦ rw (e, touch) c
      | inr e ↦ rw (e, touch) (found-IsLimited t now (lookup t m.sessions) m refl c)
    ]

    pub create-IsLimited :
        (vault : U) (dek : List ℕ) (now : ℕ) (t : Text) (m : Manager U)
        → (hash t ≡ hash token → t ≡ token)
        → (t ≡ token → Within (now + m.max))
        → IsLimited m
        → IsLimited (create_session hash f vault dek now t m).1
    unfolding create_session
    create-IsLimited vault dek now t m no_collision h c =
        elim (Bool-cases (m.has_store && f.insert_fails)) [
          | inl e ↦ rw (e, create_session) c
          | inr e ↦
              rw (e, create_session)
                (record {
                  in_map = AllO-insert SessionLimit t token _ m.sessions h c.in_map;
                  in_table = row_in_table m.has_store;
                })
        ]
      where
        new_row : SessionRow U
        new_row = record {
          token_hash = hash t;
          vault_id = vault;
          created_at = now;
          last_seen = now;
          expires_at = now + m.idle;
          max_until = now + m.max;
        }

        row_in_table :
            (b : Bool) → AllO RowLimit (lookup (hash token) (insert_row b new_row m.rows))
        row_in_table false = c.in_table
        row_in_table true =
            AllO-insert RowLimit (hash t) (hash token) new_row m.rows (λ k. h (no_collision k))
              c.in_table

  module _ (no_collision : (t : Text) → hash t ≡ hash token → t ≡ token) where
    pub after-IsLimited :
        (call : Call U) (m : Manager U)
        → IsOther token call
        → IsLimited m
        → IsLimited (after hash call m)
    unfolding lookup
    after-IsLimited (creating f vault dek now t) m other c =
        create-IsLimited f vault dek now t m (no_collision t) (λ k. absurd (other k)) c
    after-IsLimited (touching f t now) m other c = touch-IsLimited f t now m c
    after-IsLimited (invalidating f t) m other c = unfold invalidate in forget-IsLimited f t m c
    after-IsLimited invalidating_all m other c = record { in_map = tt; in_table = c.in_table }
    after-IsLimited (setting_state s) m other c = record {
      in_map = c.in_map;
      in_table = c.in_table;
    }

    pub after_all-IsLimited :
        (calls : List (Call U)) (m : Manager U)
        → All (IsOther token) calls
        → IsLimited m
        → IsLimited (after_all hash calls m)
    unfolding after_all
    after_all-IsLimited [] m others c = c
    after_all-IsLimited (call ∷ calls) m (other, others) c =
        after_all-IsLimited calls (after hash call m) others (after-IsLimited call m other c)
