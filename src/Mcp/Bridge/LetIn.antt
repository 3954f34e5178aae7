-- ===== src/Mcp/Bridge/LetIn.antt =====
-- internal/mcpbridge/bridge.go and internal/api/handlers.go: the bridge's requests at the API.
use ghost_vault.Prelude.{ℕ, ◌≡◌, false, List, []}
use ghost_vault.Text.{Text, Casing, is_empty, trim_space}
use ghost_vault.Extern.{Uuids}
use ghost_vault.Auth.{Session}
use ghost_vault.Auth.Manager.{done, Faults}
use ghost_vault.Api.{Request, Server, require_vault_auth}
use ghost_vault.Mcp.Bearer.{Host}
use ghost_vault.Mcp.Bridge.{BridgeConfig, ApiRequest}

-- The request as the API reads it.
abbrev pub received : ApiRequest → Request
received r = record { authorization = r.authorization; ghost_session = [] }

module _ (host : Host) (c : BridgeConfig) where
  -- The token has no space around it, and is not empty if the configured one is not.
  abbrev IsToken : Text → Type 0
  IsToken t =
      (trim_space t ≡ t) × (is_empty (trim_space c.bearer_token) ≡ false → is_empty t ≡ false)

  module _ {U : Type 0} ⦃i : Uuids U⦄ ⦃u : Casing⦄ (hash : Text → List ℕ) (f : Faults) (now : ℕ)
      (s : Server U) where
    -- What the API makes of a request with the bridge's token.
    abbrev pub LetIn : Session U → ApiRequest → Type 0
    LetIn sess r = (require_vault_auth hash f (received r) now s).0 ≡ done (sess, sess.vault_id)
