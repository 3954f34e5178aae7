-- ===== src/Api/Refusals.antt =====
-- internal/api/handlers.go: the status of a refused request.
use mathlib.Core.Path.{subst}
use ghost_vault.Prelude.{
  ℕ, ◌≡◌, refl, Bool, true, false, if◌then◌else◌, Option, none, some, List, lookup,
}
use ghost_vault.Text.{Text, text_eq, Casing, is_empty}
use ghost_vault.Extern.{Uuids, eq_of_uuids}
use ghost_vault.Auth.{Session}
use ghost_vault.Auth.Manager.{
  AuthError, unauthorized, Outcome, done, refused, SessionRow, Manager, Faults, is_stale, refresh,
  touch_cold, touch_found, touch,
}
use ghost_vault.Api.{
  Request, VaultRow, Server, is_bearer, raw_token, session_from_request, write_auth_problem,
  keyless, with_vault, unexpired, action_token_vault, accept_plain, accept_vault, or_action_token,
  require_session, require_vault_auth,
}

-- A refusal has the status 401.
abbrev Is401 : {A : Type 0} → Outcome A → Type 0
Is401 (done a) = Unit
Is401 (refused e) = (write_auth_problem e).0 ≡ 401

if-Is401 :
    {A M : Type 0} (b : Bool) (x y : Outcome A × M)
    → Is401 x.0
    → Is401 y.0
    → Is401 (if b then x else y).0
if-Is401 true x y h h' = h
if-Is401 false x y h h' = h'

module _ {U : Type 0} (hash : Text → List ℕ) (faults : Faults) (token : Text) (now : ℕ) where
  refresh-Is401 : (s : Session U) (m : Manager U) → Is401 (refresh hash faults token now s m).0
  unfolding refresh write_auth_problem
  refresh-Is401 s m = if-Is401 (is_stale now s.max_until s.last_seen s.idle) _ _ refl tt

  touch_cold-Is401 :
      (o : Option (SessionRow U)) (m : Manager U) → Is401 (touch_cold hash faults token now o m).0
  unfolding touch_cold write_auth_problem
  touch_cold-Is401 none m = refl
  touch_cold-Is401 (some row) m =
      if-Is401 (is_stale now row.max_until row.last_seen m.idle) _ _ refl (refresh-Is401 _ _)

  touch_found-Is401 :
      (o : Option (Session U)) (m : Manager U) → Is401 (touch_found hash faults token now o m).0
  touch_found-Is401 (some s) m = refresh-Is401 s m
  touch_found-Is401 none m = touch_cold-Is401 _ m

  touch-Is401 : (m : Manager U) → Is401 (touch hash faults token now m).0
  unfolding touch write_auth_problem
  touch-Is401 m = if-Is401 (is_empty token) _ _ refl (touch_found-Is401 _ m)

module _ {U : Type 0} where
  accept_plain-Is401 : (vid : U) (o : Option VaultRow) → Is401 (accept_plain vid o)
  unfolding write_auth_problem
  accept_plain-Is401 vid none = refl
  accept_plain-Is401 vid (some row) = go row.encryption_enabled
    where
      go :
          (b : Bool)
          → Is401 {A = Session U × U} (if b then refused unauthorized else done (keyless vid, vid))
      go true = refl
      go false = tt

  with_vault-Is401 : (o : Outcome (Session U)) → Is401 o → Is401 (with_vault o)
  with_vault-Is401 (done t) h = tt
  with_vault-Is401 (refused e) h = h

module _ {U : Type 0} ⦃i : Uuids U⦄ (s : Server U) (vaults_read : s.vault_fails ≡ false) where
  accept_vault-Is401 : (o : Option U) → Is401 (accept_vault s (done o))
  unfolding write_auth_problem
  accept_vault-Is401 none = refl
  accept_vault-Is401 (some vid) = rw vaults_read (accept_plain-Is401 vid (lookup vid s.vaults))

module _ {U : Type 0} ⦃i : Uuids U⦄ ⦃u : Casing⦄ (hash : Text → List ℕ) (faults : Faults)
    (r : Request) (now : ℕ) (s : Server U) where
  require_session-Is401 : Is401 (require_session hash faults r now s).0
  unfolding require_session write_auth_problem
  require_session-Is401 =
      if-Is401 (is_empty (session_from_request r)) _ _ refl
        (touch-Is401 hash faults (session_from_request r) now s.sess)

  module _ (tokens_read : s.token_fails ≡ false) (vaults_read : s.vault_fails ≡ false) where
    or_action_token-Is401 :
        (raw : Text) (o : Outcome (Session U)) → Is401 (or_action_token hash faults raw now s o)
    unfolding action_token_vault
    or_action_token-Is401 raw (done t) = tt
    or_action_token-Is401 raw (refused e) =
        rw tokens_read
          (accept_vault-Is401 s vaults_read (unexpired now (lookup (hash raw) s.action_tokens)))

    -- While the tables of action tokens and of vaults can be read, a refused request is answered with
    -- 401, whichever statements on the sessions table fail, the read of a session's row included: 500
    -- is left to faults of the other two reads.
    pub require_vault_auth_refused :
        {e : AuthError}
        → (require_vault_auth hash faults r now s).0 ≡ refused e
        → (write_auth_problem e).0 ≡ 401
    unfolding require_vault_auth
    require_vault_auth_refused h = subst Is401 h (
        if-Is401 (is_bearer r.authorization) _ _
          (or_action_token-Is401 (raw_token r.authorization) _)
          (with_vault-Is401 _ require_session-Is401))
