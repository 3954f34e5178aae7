-- ===== src/Auth/Leases.antt =====
-- internal/auth/session.go: the manager as a store of leases. One lease belongs to a token, and there
-- is no map in memory, no row and no restart in this view: the map only caches the table.
pub mod Held
pub mod Answers
use ghost_vault.Prelude.{ℕ, ◌+◌, false, Option, none, some, List, [], ◌∷◌, if◌then◌else◌}
use ghost_vault.Text.{Text, text_eq, is_empty}
use ghost_vault.Auth.{Session}
use ghost_vault.Auth.Manager.{
  Outcome, done, refused, unauthorized, vault_locked, SessionRow, VaultState, Manager, Faults,
  is_stale, touch, creating, touching, invalidating, invalidating_all, setting_state, after,
}

pub record Lease (U : Type 0) : Type 0 where
  pub vault_id : U
  pub last_seen : ℕ
  pub max_until : ℕ

abbrev pub Leases : Type 0 → Type 0
Leases U = Text → Option (Lease U)

-- What a server is used for. A restart is one that keeps the table, as those of a vault in the mode
-- auto_unlock do; it empties the map, and the new process may have the key or not.
pub data Use (U : Type 0) : Type 0 where
  opens : U → List ℕ → ℕ → Text → Use U
  uses : Text → ℕ → Use U
  closes : Text → Use U
  restarts : Option (VaultState U) → Use U

-- No statement fails.
abbrev pub faultless : Faults
faultless = record {
  insert_fails = false;
  get_fails = false;
  touch_fails = false;
  delete_fails = false;
}

module _ {U : Type 0} where
  abbrev pub put : Text → Option (Lease U) → Leases U → Leases U
  put token o s t = if text_eq.beq token t then o else s t

  module _ (idle max : ℕ) where
    abbrev pub use_found : Text → ℕ → Option (Lease U) → Leases U → Outcome U × Leases U
    use_found token now none s = (refused unauthorized, s)
    use_found token now (some l) s =
        if◌then◌else◌ {A = Outcome U × Leases U} (is_stale now l.max_until l.last_seen idle)
          (refused vault_locked, put token none s)
          (done l.vault_id, put token (some (record l { last_seen = now })) s)

    -- Using a lease within its idle time and its last moment starts its idle time again.
    unfoldable pub use_lease : Text → ℕ → Leases U → Outcome U × Leases U
    use_lease token now s =
        if is_empty token then (refused unauthorized, s) else use_found token now (s token) s

    -- The answers to a sequence of uses, from the leases that are open.
    unfoldable pub lease_answers : List (Use U) → Leases U → List (Outcome U)
    lease_answers [] s = []
    lease_answers (opens vault dek now token ∷ us) s =
        lease_answers us
          (put token (some (record { vault_id = vault; last_seen = now; max_until = now + max })) s)
    lease_answers (uses token now ∷ us) s =
        (use_lease token now s).0 ∷ lease_answers us (use_lease token now s).1
    lease_answers (closes token ∷ us) s = lease_answers us (put token none s)
    lease_answers (restarts state ∷ us) s = lease_answers us s

  abbrev pub vault_of : Outcome (Session U) → Outcome U
  vault_of (done x) = done x.vault_id
  vault_of (refused e) = refused e

  module _ (hash : Text → List ℕ) where
    -- The answers of the manager.
    unfoldable pub answers : List (Use U) → Manager U → List (Outcome U)
    answers [] m = []
    answers (opens vault dek now token ∷ us) m =
        answers us (after hash (creating faultless vault dek now token) m)
    answers (uses token now ∷ us) m =
        vault_of (touch hash faultless token now m).0
        ∷ answers us (after hash (touching faultless token now) m)
    answers (closes token ∷ us) m = answers us (after hash (invalidating faultless token) m)
    answers (restarts state ∷ us) m =
        answers us (after hash (setting_state state) (after hash invalidating_all m))

  abbrev lease_of : Session U → Lease U
  lease_of x = record { vault_id = x.vault_id; last_seen = x.last_seen; max_until = x.max_until }

  abbrev leased : Option (SessionRow U) → Option (Lease U)
  leased none = none
  leased (some r) =
      some (record { vault_id = r.vault_id; last_seen = r.last_seen; max_until = r.max_until })
