-- ===== src/Auth/Leases/Answers.antt =====
-- internal/auth/session.go: the answers of the manager, and those of a store of leases.
use mathlib.Core.Path.{subst}
use ghost_vault.Prelude.{
  ℕ, ◌+◌, ◌≡◌, refl, sym, ap, ◌∙◌, true, Option, none, some, List, [], ◌∷◌, if◌then◌else◌, lookup,
  insert, remove, lookup-insert, lookup-remove, Bool-cases, inl, inr,
}
use ghost_vault.Text.{Text, text_eq, is_empty}
use ghost_vault.Auth.{Session}
use ghost_vault.Auth.Manager.{
  SessionRow, VaultState, Manager, is_stale, new_manager, create_session, fill_state, delete_row,
  session_of_row, touch_cold, touch_found, find_row_of_token, touch, invalidate,
}
use ghost_vault.Auth.Leases.{
  Leases, Use, opens, uses, closes, restarts, put, use_found, use_lease, lease_answers, faultless,
  answers, lease_of, leased,
}
use ghost_vault.Auth.Leases.Held.{
  Cached, Refines, put-Refines, delete_row-eq, forget-Refines, Simulates, refresh-Simulates,
}

module _ {U : Type 0} (hash : Text → List ℕ) (injective : (t t' : Text) → hash t ≡ hash t' → t ≡ t')
    (idle max : ℕ) where
  delete-Refines :
      (token : Text) (m : Manager U) (s : Leases U)
      → Refines hash injective idle max m s
      → lookup token m.sessions ≡ none
      → Refines hash injective idle max (delete_row hash faultless token m) (put token none s)
  delete-Refines token m s c unknown =
      subst (λ m'. Refines hash injective idle max m' (put token none s))
        (sym (delete_row-eq hash injective idle max token m c.store))
        (put-Refines hash injective idle max m (record m { rows = remove (hash token) m.rows }) s
          token none none c refl refl refl (λ t. lookup-remove (hash token) (hash t) m.rows) same
          tt)
    where
      same :
          (t : Text)
          → lookup t m.sessions ≡ (if text_eq.beq token t then none else lookup t m.sessions)
      same t = elim (Bool-cases (text_eq.beq token t)) [
        | inl e ↦
            rw e (ap (λ k. lookup k m.sessions) (sym ((text_eq.beq_iff token t).0 e)) ∙ unknown)
        | inr e ↦ rw e refl
      ]

  -- Putting the session of a row into the map changes no lease.
  cache-Refines :
      (token : Text) (m : Manager U) (s : Leases U) (x : Session U)
      → Refines hash injective idle max m s
      → s token ≡ some (lease_of x)
      → x.idle ≡ idle
      → Refines hash injective idle max (record m { sessions = insert token x m.sessions }) s
  cache-Refines token m s x c held same_idle = record {
    store = c.store;
    idle_time = c.idle_time;
    max_time = c.max_time;
    table = c.table;
    cached = λ t. elim (Bool-cases (text_eq.beq token t)) [
      | inl e ↦
          let now_there : lookup t (insert token x m.sessions) ≡ some x =
            lookup-insert token t x m.sessions ∙ rw e refl in
          subst (λ o. Cached hash injective idle max o (s t)) (sym now_there)
            (ap s (sym ((text_eq.beq_iff token t).0 e)) ∙ held, same_idle)
      | inr e ↦
          let as_before : lookup t (insert token x m.sessions) ≡ lookup t m.sessions =
            lookup-insert token t x m.sessions ∙ rw e refl in
          subst (λ o. Cached hash injective idle max o (s t)) (sym as_before) (c.cached t)
    ];
  }

  cold-Simulates :
      (token : Text) (now : ℕ) (r : Option (SessionRow U)) (m : Manager U) (s : Leases U)
      → Refines hash injective idle max m s
      → lookup token m.sessions ≡ none
      → leased r ≡ s token
      → Simulates hash injective idle max
          (touch_cold hash faultless token now r m)
          (use_found idle max token now (leased r) s)
  unfolding touch_cold session_of_row
  cold-Simulates token now none m s c unknown held = (refl, c)
  cold-Simulates token now (some row) m s c unknown held =
      let x : Session U = session_of_row hash faultless token m row in
      let warm : Refines hash injective idle max (record m { sessions = insert token x m.sessions })
          s =
        cache-Refines token m s x c (sym held) c.idle_time in
      let same = ap (is_stale now row.max_until row.last_seen) c.idle_time in
      elim (Bool-cases (is_stale now row.max_until row.last_seen m.idle)) [
        | inl e ↦ rw (e, sym same ∙ e) (refl, delete-Refines token m s c unknown)
        | inr e ↦
            rw e (
              refresh-Simulates hash injective idle max token now x _ s warm (sym held) c.idle_time)
      ]

  find_row-eq :
      (token : Text) (m : Manager U)
      → m.has_store ≡ true
      → find_row_of_token hash faultless token m ≡ lookup (hash token) m.rows
  unfolding find_row_of_token
  find_row-eq token m store = rw store refl

  found-Simulates :
      (token : Text) (now : ℕ) (x : Option (Session U)) (m : Manager U) (s : Leases U)
      → Refines hash injective idle max m s
      → lookup token m.sessions ≡ x
      → Simulates hash injective idle max
          (touch_found hash faultless token now x m)
          (use_found idle max token now (s token) s)
  found-Simulates token now (some x) m s c e =
      let (held, same_idle) =
        subst (λ o. Cached hash injective idle max o (s token)) e (c.cached token) in
      subst
        (λ o.
          Simulates hash injective idle max (touch_found hash faultless token now (some x) m)
            (use_found idle max token now o s))
        (sym held) (refresh-Simulates hash injective idle max token now x m s c held same_idle)
  found-Simulates token now none m s c e =
      let row = lookup (hash token) m.rows in
      let cold : Simulates hash injective idle max (touch_cold hash faultless token now row m)
          (use_found idle max token now (s token) s) =
        subst
          (λ o.
            Simulates hash injective idle max (touch_cold hash faultless token now row m)
              (use_found idle max token now o s))
          (c.table token) (cold-Simulates token now row m s c e (c.table token)) in
      subst
        (λ o.
          Simulates hash injective idle max (touch_cold hash faultless token now o m)
            (use_found idle max token now (s token) s))
        (sym (find_row-eq token m c.store)) cold

  touch-Simulates :
      (token : Text) (now : ℕ) (m : Manager U) (s : Leases U)
      → Refines hash injective idle max m s
      → Simulates hash injective idle max
          (touch hash faultless token now m)
          (use_lease idle max token now s)
  unfolding touch use_lease
  touch-Simulates token now m s c = elim (Bool-cases (is_empty token)) [
    | inl e ↦ rw e (refl, c)
    | inr e ↦ rw e (found-Simulates token now (lookup token m.sessions) m s c refl)
  ]

  -- What CreateSession leaves.
  abbrev with_session : U → List ℕ → ℕ → Text → Manager U → Manager U
  with_session vault dek now token m = record m {
    sessions =
        insert token
          (record {
            vault_id = vault;
            dek = dek;
            expires_at = now + m.idle;
            max_until = now + m.max;
            last_seen = now;
            idle = m.idle;
            token_hash = hash token;
          })
          m.sessions;
    rows =
        insert (hash token)
          (record {
            token_hash = hash token;
            vault_id = vault;
            created_at = now;
            last_seen = now;
            expires_at = now + m.idle;
            max_until = now + m.max;
          })
          m.rows;
    state = fill_state vault dek m.state;
  }

  create_session-eq :
      (vault : U) (dek : List ℕ) (now : ℕ) (token : Text) (m : Manager U)
      → m.has_store ≡ true
      → (create_session hash faultless vault dek now token m).1 ≡ with_session vault dek now token m
  unfolding create_session
  create_session-eq vault dek now token m store = rw store refl

  create-Refines :
      (vault : U) (dek : List ℕ) (now : ℕ) (token : Text) (m : Manager U) (s : Leases U)
      → Refines hash injective idle max m s
      → Refines hash injective idle max
          (create_session hash faultless vault dek now token m).1
          (put token (some (record { vault_id = vault; last_seen = now; max_until = now + max })) s)
  create-Refines vault dek now token m s c =
      let opened : ℕ → Leases U = λ n.
        put token (some (record { vault_id = vault; last_seen = now; max_until = now + n })) s in
      subst (λ m'. Refines hash injective idle max m' (opened max))
        (sym (create_session-eq vault dek now token m c.store))
        (subst
          (λ n. Refines hash injective idle max (with_session vault dek now token m) (opened n))
          c.max_time
          (put-Refines hash injective idle max m (with_session vault dek now token m) s token
            (some _) (some _) c refl refl refl (λ t. lookup-insert (hash token) (hash t) _ m.rows)
            (λ t. lookup-insert token t _ m.sessions) (refl, c.idle_time)))

  answers-Refines :
      (us : List (Use U)) (m : Manager U) (s : Leases U)
      → Refines hash injective idle max m s
      → answers hash us m ≡ lease_answers idle max us s
  unfolding answers lease_answers invalidate lookup
  answers-Refines [] m s c = refl
  answers-Refines (opens vault dek now token ∷ us) m s c =
      answers-Refines us _ _ (create-Refines vault dek now token m s c)
  answers-Refines (uses token now ∷ us) m s c =
      let (same, c') = touch-Simulates token now m s c in
      ap (λ o. o ∷ answers hash us (touch hash faultless token now m).1) same
      ∙ ap (λ os. (use_lease idle max token now s).0 ∷ os) (answers-Refines us _ _ c')
  answers-Refines (closes token ∷ us) m s c =
      answers-Refines us _ _ (forget-Refines hash injective idle max token m s c)
  answers-Refines (restarts state ∷ us) m s c = answers-Refines us _ s (record {
    store = c.store;
    idle_time = c.idle_time;
    max_time = c.max_time;
    table = c.table;
    cached = λ t. tt;
  })

  -- A manager with a table answers as a store of leases does, where no statement fails and the hash
  -- has no collision: from a new manager, for any sequence of sessions opened, tokens used, sessions
  -- closed and restarts, each use is refused, or let in to a vault, just as the lease of its token
  -- says. So no restart is seen, and no answer depends on what the map holds.
  pub answers-lease_answers :
      (state : Option (VaultState U)) (us : List (Use U))
      → answers hash us (new_manager idle max true state) ≡ lease_answers idle max us (λ t. none)
  unfolding lookup
  answers-lease_answers state us = answers-Refines us _ _ (record {
    store = refl;
    idle_time = refl;
    max_time = refl;
    table = λ t. refl;
    cached = λ t. tt;
  })
