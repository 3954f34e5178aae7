-- ===== src/Api.antt =====
-- internal/api/handlers.go: how a request is authenticated, and what it is told when it is not.
pub mod Accepted
pub mod Access
pub mod Refusals
pub mod Scopes
pub mod Vaults
pub mod Memories
use ghost_vault.Prelude.{
  ℕ, ltb, ◌==◌, Bool, true, false, ◌&&◌, if◌then◌else◌, Option, none, some, List, [], ◌∷◌, Assoc,
  lookup, drop,
}
use ghost_vault.Text.{Text, text_eq, Casing, codes, is_empty, to_lower, trim_space}
use ghost_vault.Extern.{Uuids, eq_of_uuids}
use ghost_vault.Auth.{Session}
use ghost_vault.Auth.Manager.{
  AuthError, unauthorized, vault_locked, backend, Outcome, done, refused, Manager, Faults, touch,
}

-- The two headers; an absent one is empty.
pub record Request : Type 0 where
  pub authorization : Text
  pub ghost_session : Text

-- A row of action_tokens, which are found by their hash.
pub record ActionToken (U : Type 0) : Type 0 where
  pub vault_id : U
  pub scopes : List Text
  pub expires_at : ℕ

-- A row of vaults behind its id; `none` is NULL. The int32 columns are not negative.
pub record VaultRow : Type 0 where
  pub encryption_enabled : Bool
  pub auth_mode : Text
  pub argon_time : Option ℕ
  pub argon_memory_kb : Option ℕ
  pub argon_parallelism : Option ℕ
  pub argon_salt : List ℕ
  pub wrapped_dek : List ℕ

-- The manager of sessions, and the two tables, vaults with the oldest first; which reads of them
-- fail.
pub record Server (U : Type 0) : Type 0 where
  pub sess : Manager U
  pub action_tokens : Assoc (List ℕ) (ActionToken U)
  pub vaults : Assoc U VaultRow
  pub token_fails : Bool
  pub vault_fails : Bool

-- `strings.HasPrefix`
abbrev pub has_prefix : Text → Text → Bool
has_prefix s [] = true
has_prefix [] (c ∷ p) = false
has_prefix (d ∷ s) (c ∷ p) = c == d && has_prefix s p

module _ ⦃u : Casing⦄ where
  unfoldable pub is_bearer : Text → Bool
  is_bearer authz = has_prefix (to_lower authz) (codes "bearer ")

  -- `strings.TrimSpace(authz[7:])`: no rune beyond ASCII has one of these letters as its lower case,
  -- so that the prefix is seven bytes.
  unfoldable pub raw_token : Text → Text
  raw_token authz = trim_space (drop 7 authz)

  unfoldable pub session_from_request : Request → Text
  session_from_request r =
      if is_empty r.ghost_session
      then if is_bearer r.authorization then raw_token r.authorization else []
      else r.ghost_session

-- The status of the response, its detail and its code.
unfoldable pub write_auth_problem : AuthError → ℕ × Text × Text
write_auth_problem backend = (500, codes "authentication backend unavailable", codes "auth_backend")
write_auth_problem vault_locked = (401, codes "vault is locked or session expired", codes "auth")
write_auth_problem unauthorized = (401, codes "invalid or missing credentials", codes "auth")

module _ {U : Type 0} where
  -- `Session{VaultID: vid}`
  unfoldable pub keyless : U → Session U
  keyless vid = record {
    vault_id = vid;
    dek = [];
    expires_at = 0;
    max_until = 0;
    last_seen = 0;
    idle = 0;
    token_hash = [];
  }

  abbrev pub with_vault : Outcome (Session U) → Outcome (Session U × U)
  with_vault (done s) = done (s, s.vault_id)
  with_vault (refused e) = refused e

  abbrev pub unexpired : ℕ → Option (ActionToken U) → Option U
  unexpired now none = none
  unexpired now (some t) = if ltb now t.expires_at then some t.vault_id else none

  abbrev pub accept_plain : U → Option VaultRow → Outcome (Session U × U)
  accept_plain vid none = refused unauthorized
  accept_plain vid (some row) =
      if row.encryption_enabled then refused unauthorized else done (keyless vid, vid)

module _ {U : Type 0} ⦃i : Uuids U⦄ where
  abbrev pub accept_vault : Server U → Outcome (Option U) → Outcome (Session U × U)
  accept_vault s (refused e) = refused e
  accept_vault s (done none) = refused unauthorized
  accept_vault s (done (some vid)) =
      if s.vault_fails then refused backend else accept_plain vid (lookup vid s.vaults)

module _ {U : Type 0} ⦃i : Uuids U⦄ ⦃u : Casing⦄ (hash : Text → List ℕ) (faults : Faults) where
  -- `ValidActionToken` at the hash: an error, no vault, or the vault of a token that has not expired.
  unfoldable pub action_token_vault : Text → ℕ → Server U → Outcome (Option U)
  action_token_vault raw now s =
      if s.token_fails
      then refused backend
      else done (unexpired now (lookup (hash raw) s.action_tokens))

  -- A bearer that is no good session is tried as an action token.
  abbrev pub or_action_token : Text → ℕ → Server U → Outcome (Session U) → Outcome (Session U × U)
  or_action_token raw now s (done sess) = done (sess, sess.vault_id)
  or_action_token raw now s (refused e) = accept_vault s (action_token_vault raw now s)

  unfoldable pub require_session : Request → ℕ → Server U → Outcome (Session U) × Manager U
  require_session r now s =
      let token = session_from_request r in
      if is_empty token then (refused unauthorized, s.sess) else touch hash faults token now s.sess

  unfoldable pub require_vault_auth : Request → ℕ → Server U → Outcome (Session U × U) × Server U
  require_vault_auth r now s =
      let raw = raw_token r.authorization in
      let touched = touch hash faults raw now s.sess in
      let found = require_session r now s in
      if is_bearer r.authorization
      then (or_action_token raw now s touched.0, record s { sess = touched.1 })
      else (with_vault found.0, record s { sess = found.1 })
