-- ===== src/Boot.antt =====
-- cmd/gvsvd/main.go: what a server does with the vault and the session rows before it serves:
-- assertEncryptionMode, initAuthMode and readAutoUnlockPassword, and `run` up to its session manager.
pub mod Purging
pub mod Checked
pub mod Restart
use ghost_vault.Prelude.{
  ℕ, ◌==◌, Bool, true, false, ◌||◌, if◌then◌else◌, Option, none, some, List, [], ◌∷◌, ◌&&◌, Assoc,
}
use ghost_vault.Text.{Text, codes, is_empty, text_beq, trim_space}
use ghost_vault.Extern.{Uuids, eq_of_uuids}
use ghost_vault.Config.{Config}
use ghost_vault.Auth.Manager.{SessionRow, VaultState, Manager, new_manager}
use ghost_vault.Crypto.{Attempt, returned, failed, panicked, Primitives, WrappedDek, unwrap_dek}
use ghost_vault.Api.{VaultRow}
use ghost_vault.Api.Vaults.{get_any_vault, is_api_keys, kdf_of}

-- The environment, the file system, and the statements that fail.
pub record Machine : Type 0 where
  pub getenv : Text → Text
  pub read_file : Text → Option Text
  pub assert_fails : Bool
  pub vault_fails : Bool
  pub purge_fails : Bool

-- Why a server does not start; `crashed` is a panic.
pub data BootError : Type 0 where
  store_failed encryption_mismatch no_password no_kdf wrong_password : BootError
  mode_not_implemented unknown_mode crashed : BootError

pub data Booted (A : Type 0) : Type 0 where
  booted : A → Booted A
  stopped : BootError → Booted A

infixl 20 ◌>>=◌
unfoldable pub ◌>>=◌ : {A B : Type 0} → Booted A → (A → Booted B) → Booted B
booted a >>= k = k a
stopped e >>= k = stopped e

-- `strings.TrimRight(s, "\r\n")`
unfoldable pub trim_newlines : Text → Text
trim_newlines [] = []
trim_newlines (c ∷ s) =
    let rest = trim_newlines s in
    if (c == b'\n' || c == b'\r') && is_empty rest then [] else c ∷ rest

abbrev pub not_empty : Text → Option Text
not_empty s = if is_empty s then none else some s

abbrev pub password_of_file : Option Text → Option Text
password_of_file none = none
password_of_file (some content) = not_empty (trim_newlines content)

module _ (machine : Machine) where
  unfoldable pub read_auto_unlock_password : Option Text
  read_auto_unlock_password =
      let path = trim_space (machine.getenv (codes "GHOSTVAULT_PASSWORD_FILE")) in
      if is_empty path
      then not_empty (machine.getenv (codes "GHOSTVAULT_PASSWORD"))
      else password_of_file (machine.read_file path)

abbrev pub Rows : Type 0 → Type 0
Rows U = Assoc (List ℕ) (SessionRow U)

-- The vault state and the rows that a server starts with.
abbrev pub Initial : Type 0 → Type 0
Initial U = VaultState U × Rows U

unfoldable pub purge_sessions_for_vault : {U : Type 0} → ⦃i : Uuids U⦄ → U → Rows U → Rows U
purge_sessions_for_vault id [] = []
purge_sessions_for_vault ⦃i⦄ id ((h, r) ∷ rows) =
    let rest = purge_sessions_for_vault id rows in
    if i.id_eq.beq r.vault_id id then rest else (h, r) ∷ rest

abbrev pub matching : {U : Type 0} → Bool → Option (U × VaultRow) → Booted (Unit {0})
matching want none = booted tt
matching true (some (id, v)) =
    if v.encryption_enabled then booted tt else stopped encryption_mismatch
matching false (some (id, v)) =
    if v.encryption_enabled then stopped encryption_mismatch else booted tt

abbrev pub with_key : {U : Type 0} → U → Rows U → Attempt (List ℕ) → Booted (Initial U)
with_key id rows (returned dek) = booted (record { id = id; dek = dek }, rows)
with_key id rows (failed e) = stopped wrong_password
with_key id rows panicked = stopped crashed

abbrev pub unlock_state :
    {U : Type 0} → Primitives → U → Rows U → Option Text → Option WrappedDek → Booted (Initial U)
unlock_state lib id rows none w = stopped no_password
unlock_state lib id rows (some password) none = stopped no_kdf
unlock_state lib id rows (some password) (some w) = with_key id rows (unwrap_dek lib password w)

module _ {U : Type 0} ⦃i : Uuids U⦄ (machine : Machine) where
  unfoldable pub assert_encryption_mode : Bool → Assoc U VaultRow → Booted (Unit {0})
  assert_encryption_mode want vaults =
      if machine.assert_fails then stopped store_failed else matching want (get_any_vault vaults)

  abbrev pub init_session : U → Rows U → Booted (Initial U)
  init_session id rows =
      if machine.purge_fails
      then stopped store_failed
      else booted (record { id = id; dek = [] }, purge_sessions_for_vault id rows)

  module _ (lib : Primitives) where
    abbrev pub init_auto_unlock : U → VaultRow → Rows U → Booted (Initial U)
    init_auto_unlock id v rows =
        if v.encryption_enabled
        then unlock_state lib id rows (read_auto_unlock_password machine)
            (kdf_of v v.argon_time v.argon_memory_kb v.argon_parallelism)
        else booted (record { id = id; dek = [] }, rows)

    module _ (zero_id : U) where
      unfoldable pub init_vault : Option (U × VaultRow) → Rows U → Booted (Initial U)
      init_vault none rows = booted (record { id = zero_id; dek = [] }, rows)
      init_vault (some (id, v)) rows =
          if text_beq v.auth_mode (codes "session") || is_empty v.auth_mode
          then init_session id rows
          else if text_beq v.auth_mode (codes "auto_unlock")
          then init_auto_unlock id v rows
          else if is_api_keys v.auth_mode
          then stopped mode_not_implemented
          else stopped unknown_mode

      unfoldable pub init_auth_mode : Assoc U VaultRow → Rows U → Booted (Initial U)
      init_auth_mode vaults rows =
          if machine.vault_fails
          then stopped store_failed
          else init_vault (get_any_vault vaults) rows

      abbrev pub manager_of : Config → Initial U → Manager U
      manager_of cfg (state, rows) =
          record (new_manager cfg.session_idle cfg.session_max true (some state)) { rows = rows }

      -- `run` from the check of the encryption mode to the session manager.
      unfoldable pub boot : Config → Assoc U VaultRow → Rows U → Booted (Manager U)
      boot cfg vaults rows = assert_encryption_mode cfg.encryption_on vaults >>= λ _.
          init_auth_mode vaults rows >>= λ initial. booted (manager_of cfg initial)
