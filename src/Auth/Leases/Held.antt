-- ===== src/Auth/Leases/Held.antt =====
-- internal/auth/session.go: the leases that the map and the table hold, and their renewal.
use mathlib.Core.Path.{subst}
use ghost_vault.Prelude.{
  ℕ, ◌+◌, ◌≡◌, refl, sym, ap, ◌∙◌, true, Option, none, some, List, if◌then◌else◌, lookup, insert,
  remove, lookup-insert, lookup-remove, Bool-cases, inl, inr,
}
use ghost_vault.Text.{Text, text_eq}
use ghost_vault.Auth.{Session}
use ghost_vault.Auth.Manager.{
  Outcome, SessionRow, Manager, is_stale, delete_row, forget, touch_row, refresh,
}
use ghost_vault.Auth.Leases.{Lease, Leases, put, use_found, faultless, vault_of, lease_of, leased}

module _ (hash : Text → List ℕ) (injective : (t t' : Text) → hash t ≡ hash t' → t ≡ t') where
  hash-beq : (t t' : Text) → text_eq.beq (hash t) (hash t') ≡ text_eq.beq t t'
  hash-beq t t' = elim (Bool-cases (text_eq.beq t t')) [
    | inl e ↦ (text_eq.beq_iff _ _).1 (ap hash ((text_eq.beq_iff t t').0 e)) ∙ sym e
    | inr e ↦ elim (Bool-cases (text_eq.beq (hash t) (hash t'))) [
      | inl e' ↦ e' ∙ sym ((text_eq.beq_iff t t').1 (injective t t' ((text_eq.beq_iff _ _).0 e')))
      | inr e' ↦ e' ∙ sym e
    ]
  ]

module _ {U : Type 0} (hash : Text → List ℕ) (injective : (t t' : Text) → hash t ≡ hash t' → t ≡ t')
    (idle max : ℕ) where
  -- A session in the map is the lease, where it is there at all.
  abbrev pub Cached : Option (Session U) → Option (Lease U) → Type 0
  Cached none o = Unit {0}
  Cached (some x) o = (o ≡ some (lease_of x)) × (x.idle ≡ idle)

  -- The table holds the leases, and the map some of them.
  pub record Refines (m : Manager U) (s : Leases U) : Type 0 where
    pub store : m.has_store ≡ true
    pub idle_time : m.idle ≡ idle
    pub max_time : m.max ≡ max
    pub table : (t : Text) → leased (lookup (hash t) m.rows) ≡ s t
    pub cached : (t : Text) → Cached (lookup t m.sessions) (s t)

  pub put-Refines :
      (m m' : Manager U) (s : Leases U) (token : Text) (r : Option (SessionRow U))
      (x : Option (Session U))
      → Refines m s
      → m'.has_store ≡ m.has_store
      → m'.idle ≡ m.idle
      → m'.max ≡ m.max
      → ((t : Text)
          → lookup (hash t) m'.rows
            ≡ (if text_eq.beq (hash token) (hash t) then r else lookup (hash t) m.rows))
      → ((t : Text)
          → lookup t m'.sessions ≡ (if text_eq.beq token t then x else lookup t m.sessions))
      → Cached x (leased r)
      → Refines m' (put token (leased r) s)
  put-Refines m m' s token r x c store idle_time max_time rows sessions agrees = record {
    store = store ∙ c.store;
    idle_time = idle_time ∙ c.idle_time;
    max_time = max_time ∙ c.max_time;
    table = λ t. elim (Bool-cases (text_eq.beq token t)) [
      | inl e ↦ ap leased (rows t) ∙ rw (hash-beq hash injective token t, e) refl
      | inr e ↦ ap leased (rows t) ∙ rw (hash-beq hash injective token t, e) (c.table t)
    ];
    cached = λ t. elim (Bool-cases (text_eq.beq token t)) [
      | inl e ↦ subst (λ o. Cached o (put token (leased r) s t)) (sym (sessions t)) (rw e agrees)
      | inr e ↦
          subst (λ o. Cached o (put token (leased r) s t)) (sym (sessions t)) (rw e (c.cached t))
    ];
  }

  touch_row-eq :
      (token : Text) (x : Session U) (m : Manager U) (row : SessionRow U)
      → m.has_store ≡ true
      → lookup (hash token) m.rows ≡ some row
      → touch_row hash faultless token x m ≡ record m {
        rows =
            insert
              (hash token)
              (record row { last_seen = x.last_seen; expires_at = x.expires_at })
              m.rows;
      }
  unfolding touch_row
  touch_row-eq token x m row store found = rw (store, found) refl

  pub delete_row-eq :
      (token : Text) (m : Manager U)
      → m.has_store ≡ true
      → delete_row hash faultless token m ≡ record m { rows = remove (hash token) m.rows }
  unfolding delete_row
  delete_row-eq token m store = rw store refl

  pub forget-Refines :
      (token : Text) (m : Manager U) (s : Leases U)
      → Refines m s
      → Refines (forget hash faultless token m) (put token none s)
  unfolding forget
  forget-Refines token m s c =
      subst (λ m'. Refines m' (put token none s))
        (sym (delete_row-eq token (record m { sessions = remove token m.sessions }) c.store))
        (put-Refines m _ s token none none c refl refl refl
          (λ t. lookup-remove (hash token) (hash t) m.rows) (λ t. lookup-remove token t m.sessions)
          tt)

  leased-some :
      (r : Option (SessionRow U)) {l : Lease U}
      → leased r ≡ some l
      → (row : SessionRow U) × (r ≡ some row)
        × (row.vault_id ≡ l.vault_id)
        × (row.max_until ≡ l.max_until)
  leased-some none h = absurd (cc h)
  leased-some (some row) h = (row, refl, ap (λ o. vault_or row o) h, ap (λ o. max_or row o) h)
    where
      vault_or : SessionRow U → Option (Lease U) → U
      vault_or row none = row.vault_id
      vault_or row (some l) = l.vault_id

      max_or : SessionRow U → Option (Lease U) → ℕ
      max_or row none = row.max_until
      max_or row (some l) = l.max_until

  -- The same answer, and leases that are still held.
  abbrev pub Simulates : Outcome (Session U) × Manager U → Outcome U × Leases U → Type 0
  Simulates p q = (vault_of p.0 ≡ q.0) × Refines p.1 q.1

  refreshed : Text → ℕ → Session U → Session U
  refreshed token now x = record x { last_seen = now; expires_at = now + x.idle }

  renew-Refines :
      (token : Text) (now : ℕ) (x : Session U) (m : Manager U) (s : Leases U)
      → Refines m s
      → s token ≡ some (lease_of x)
      → x.idle ≡ idle
      → Refines
          (touch_row hash faultless token
            (refreshed token now x)
            (record m { sessions = insert token (refreshed token now x) m.sessions }))
          (put token (some (record (lease_of x) { last_seen = now })) s)
  unfolding refreshed
  renew-Refines token now x m s c held same_idle =
      let (row, found, vault, limit) = leased-some _ (c.table token ∙ held) in
      let row' : SessionRow U = record row { last_seen = now; expires_at = now + x.idle } in
      let leased-row' : leased (some row') ≡ some (record (lease_of x) { last_seen = now }) =
        rw (vault, limit) refl in
      let m' : Manager U = record m {
        sessions = insert token (refreshed token now x) m.sessions;
      } in
      subst (λ n. Refines n (put token (some (record (lease_of x) { last_seen = now })) s))
        (sym (touch_row-eq token (refreshed token now x) m' row c.store found))
        (subst (λ l. Refines (record m' { rows = insert (hash token) row' m.rows }) (put token l s))
          leased-row'
          (put-Refines m (record m' { rows = insert (hash token) row' m.rows }) s token (some row')
            (some (refreshed token now x)) c refl refl refl
            (λ t. lookup-insert (hash token) (hash t) row' m.rows)
            (λ t. lookup-insert token t (refreshed token now x) m.sessions)
            (leased-row', same_idle)))

  pub refresh-Simulates :
      (token : Text) (now : ℕ) (x : Session U) (m : Manager U) (s : Leases U)
      → Refines m s
      → s token ≡ some (lease_of x)
      → x.idle ≡ idle
      → Simulates
          (refresh hash faultless token now x m)
          (use_found idle max token now (some (lease_of x)) s)
  unfolding refresh refreshed
  refresh-Simulates token now x m s c held same_idle =
      let same = ap (is_stale now x.max_until x.last_seen) same_idle in
      elim (Bool-cases (is_stale now x.max_until x.last_seen x.idle)) [
        | inl e ↦ rw (e, sym same ∙ e) (refl, forget-Refines token m s c)
        | inr e ↦ rw (e, sym same ∙ e) (refl, renew-Refines token now x m s c held same_idle)
      ]
