-- ===== src/Api/Scopes.antt =====
-- internal/api/handlers.go and internal/store/store.go: the scopes of an action token.
use ghost_vault.Prelude.{
  ℕ, ◌≡◌, refl, ap, Bool, true, false, if◌then◌else◌, Option, some, List, [], ◌∷◌, Assoc, lookup,
}
use ghost_vault.Text.{Text, text_eq, Casing}
use ghost_vault.Extern.{Uuids}
use ghost_vault.Auth.Manager.{Outcome, done, refused, backend, Faults, touch}
use ghost_vault.Auth.{Session}
use ghost_vault.Api.{
  Request, ActionToken, Server, is_bearer, raw_token, unexpired, action_token_vault, accept_vault,
  or_action_token, require_session, require_vault_auth,
}

module _ {U : Type 0} (scopes : List Text) where
  -- The tokens with their scopes replaced.
  abbrev pub rescoped : Assoc (List ℕ) (ActionToken U) → Assoc (List ℕ) (ActionToken U)
  rescoped [] = []
  rescoped ((h, t) ∷ m) = (h, record t { scopes = scopes }) ∷ rescoped m

  unexpired-rescoped :
      (now : ℕ) (h : List ℕ) (m : Assoc (List ℕ) (ActionToken U))
      → unexpired now (lookup h (rescoped m)) ≡ unexpired now (lookup h m)
  unfolding lookup
  unexpired-rescoped now h [] = refl
  unexpired-rescoped now h ((k, t) ∷ m) = go (text_eq.beq k h) _ _ (unexpired-rescoped now h m)
    where
      go :
          (b : Bool) (o o' : Option (ActionToken U))
          → unexpired now o ≡ unexpired now o'
          → unexpired now (if b then some (record t { scopes = scopes }) else o)
            ≡ unexpired now (if b then some t else o')
      go true o o' e = refl
      go false o o' e = e

if-first :
    {A M : Type 0} (b : Bool) (x y x' y' : A × M)
    → x.0 ≡ x'.0
    → y.0 ≡ y'.0
    → (if b then x else y).0 ≡ (if b then x' else y').0
if-first true x y x' y' h h' = h
if-first false x y x' y' h h' = h'

module _ {U : Type 0} ⦃i : Uuids U⦄ ⦃u : Casing⦄ (hash : Text → List ℕ) (faults : Faults)
    (scopes : List Text) (r : Request) (now : ℕ) (s : Server U) where
  abbrev pub rescoped_server : Server U
  rescoped_server = record s { action_tokens = rescoped scopes s.action_tokens }

  action_token_vault-rescoped :
      (raw : Text)
      → action_token_vault hash faults raw now rescoped_server
        ≡ action_token_vault hash faults raw now s
  unfolding action_token_vault
  action_token_vault-rescoped raw =
      ap (λ o. if s.token_fails then refused backend else done o)
        (unexpired-rescoped scopes now (hash raw) s.action_tokens)

  or_action_token-rescoped :
      (raw : Text) (o : Outcome (Session U))
      → or_action_token hash faults raw now rescoped_server o
        ≡ or_action_token hash faults raw now s o
  or_action_token-rescoped raw (done sess) = refl
  or_action_token-rescoped raw (refused e) = ap (accept_vault s) (action_token_vault-rescoped raw)

  -- Whom `require_vault_auth` lets in does not depend on the scopes of the stored action tokens: with
  -- any other scopes in their place every request is answered the same way.
  pub scopes_irrelevant :
      (require_vault_auth hash faults r now rescoped_server).0
      ≡ (require_vault_auth hash faults r now s).0
  unfolding require_vault_auth require_session
  scopes_irrelevant =
      if-first (is_bearer r.authorization) _ _ _ _
        (or_action_token-rescoped (raw_token r.authorization)
          (touch hash faults (raw_token r.authorization) now s.sess).0)
        refl
