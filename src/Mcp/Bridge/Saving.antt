-- ===== src/Mcp/Bridge/Saving.antt =====
-- internal/mcpbridge/bridge.go: the tool memory_save, and PostIngest. Its items, source document and
-- messages have the fields that the API reads from them.
use ghost_vault.Prelude.{ℕ, Bool, false, Option, none, some, List, [], ◌++◌, if◌then◌else◌, Assoc}
use ghost_vault.Text.{Text, codes, is_empty}
use ghost_vault.Core.Ingest.{IngestItem, SourceDocumentIn}
use ghost_vault.Api.Memories.{IngestMessage}
use ghost_vault.Mcp.Bearer.{Host}
use ghost_vault.Mcp.Bridge.{
  BridgeConfig, ApiRequest, ToolResult, base, with_default_vault, with_default_user, post,
  tool_result,
}

-- The input of `memory_save`.
pub record MemorySaveIn (V : Type 0) : Type 0 where
  pub vault_id : Text
  pub user_id : Text
  pub session_key : Text
  pub text : Text
  pub abstract : Text
  pub kind : Text
  pub metadata : Option (Assoc Text V)
  pub items : List (IngestItem V)
  pub source_document : Option SourceDocumentIn
  pub infer : Bool
  pub infer_target : Text
  pub messages : List IngestMessage
  pub idempotency_key : Text

abbrev pub text_only : {V : Type 0} → Text → Text → Text → MemorySaveIn V
text_only vault user text = record {
  vault_id = vault;
  user_id = user;
  session_key = [];
  text = text;
  abstract = [];
  kind = [];
  metadata = none;
  items = [];
  source_document = none;
  infer = false;
  infer_target = [];
  messages = [];
  idempotency_key = [];
}

module _ {V J : Type 0} (decode : Text → Option J) (cut : ℕ → Text → Text) (host : Host)
    (call : ApiRequest → Option (ℕ × Text)) (c : BridgeConfig)
    (encode : MemorySaveIn V → Option Text) where
  abbrev ingested : Option Text → Option (ℕ × Text)
  ingested none = none
  ingested (some body) = post decode cut host call c (base c ++ codes "/v1/ingest") body

  -- The tool `memory_save`.
  unfoldable pub memory_save : MemorySaveIn V → ToolResult J
  memory_save q = tool_result decode cut host call c (
      ingested (
        encode (record q {
          vault_id = with_default_vault c q.vault_id;
          user_id = with_default_user c q.user_id;
        })))

  unfoldable pub post_ingest : Text → Text → Text → Option (ℕ × Text)
  post_ingest vault user text =
      if is_empty (base c) then none else ingested (encode (text_only vault user text))
