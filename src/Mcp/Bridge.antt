-- ===== src/Mcp/Bridge.antt =====
-- internal/mcpbridge/bridge.go: the requests that the bridge's tools make of the API, and what they give
-- back. The texts of tools and of logs are not modelled.
pub mod LetIn
pub mod Defaults
pub mod Saving
use ghost_vault.Prelude.{
  ℕ, ltb, leb, Bool, true, false, ◌&&◌, ◌||◌, if◌then◌else◌, Option, none, some, [], ◌++◌,
}
use ghost_vault.Prelude.Int.{ℤ}
use ghost_vault.Text.{Text, Casing, codes, is_empty, text_beq, trim_space, normalise}
use ghost_vault.Mcp.Bearer.{Host}
use ghost_vault.Mcp.OAuth.{trim_slashes}
use ghost_vault.Mcp.Facade.{fold_beq}

pub record BridgeConfig : Type 0 where
  pub base_url : Text
  pub bearer_token : Text
  pub token_reload_path : Text
  pub default_vault_id : Text
  pub default_user_id : Text

-- A request of the bridge: POST with a body, or GET without one.
pub record ApiRequest : Type 0 where
  pub url : Text
  pub authorization : Text
  pub body : Option Text

-- The input of `memory_search`.
pub record MemorySearchIn : Type 0 where
  pub vault_id : Text
  pub user_id : Text
  pub query : Text
  pub max_chunks : ℤ
  pub max_tokens : ℤ
  pub session_key : Text
  pub session_mode : Text
  pub content_mode : Text

-- What a tool gives: a JSON value, or an error with the status and the start of the body.
pub data ToolResult (J : Type 0) : Type 0 where
  value : J → ToolResult J
  invalid_json : ToolResult J
  http_error : ℕ → Text → ToolResult J
  not_sent not_configured : ToolResult J

unfoldable pub base : BridgeConfig → Text
base c = trim_slashes (trim_space c.base_url)

abbrev pub or_token : Text → Text → Text
or_token t tok = if is_empty t then tok else t

abbrev pub reloaded : Option Text → Text → Text
reloaded none tok = tok
reloaded (some content) tok = or_token (trim_space content) tok

-- The token, read again from its file where there is one.
unfoldable pub bearer_for_gv : Host → BridgeConfig → Text
bearer_for_gv host c =
    let path = trim_space c.token_reload_path in
    if is_empty path
    then trim_space c.bearer_token
    else reloaded (host.read_file path) (trim_space c.bearer_token)

-- `default` is no name of a vault.
abbrev pub is_placeholder : Text → Bool
is_placeholder v = is_empty v || fold_beq v (codes "default")

abbrev pub filled : Text → Text → Text
filled default given = if is_empty default then given else default

unfoldable pub with_default_vault : BridgeConfig → Text → Text
with_default_vault c vault =
    if is_placeholder (trim_space vault)
    then filled (trim_space c.default_vault_id) vault
    else vault

unfoldable pub with_default_user : BridgeConfig → Text → Text
with_default_user c user =
    if is_empty (trim_space user) then filled (trim_space c.default_user_id) user else user

-- `applyVaultUserDefaults`
abbrev pub apply_vault_user_defaults : BridgeConfig → Text × Text → Text × Text
apply_vault_user_defaults c (vault, user) = (with_default_vault c vault, with_default_user c user)

unfoldable pub env_truthy : ⦃u : Casing⦄ → Host → Text → Bool
env_truthy host k =
    let v = normalise (host.getenv k) in
    text_beq v (codes "1")
    || text_beq v (codes "t")
    || text_beq v (codes "true")
    || text_beq v (codes "yes")
    || text_beq v (codes "y")
    || text_beq v (codes "on")

-- `cut n` is the text cut after n bytes, with an ellipsis then.
module _ {J : Type 0} (decode : Text → Option J) (cut : ℕ → Text → Text) where
  abbrev pub decoded_value : Option J → ToolResult J
  decoded_value none = invalid_json
  decoded_value (some j) = value j

  unfoldable pub tool_result_from_http : ℕ → Text → ToolResult J
  tool_result_from_http code raw =
      if leb 200 code && ltb code 300
      then decoded_value (decode raw)
      else http_error code (cut 4000 (trim_space raw))

  module _ (host : Host) (call : ApiRequest → Option (ℕ × Text)) (c : BridgeConfig) where
    unfoldable pub post : Text → Text → Option (ℕ × Text)
    post url body = call (record {
      url = url;
      authorization = codes "Bearer " ++ bearer_for_gv host c;
      body = some body;
    })

    unfoldable pub get : Text → Option (ℕ × Text)
    get url =
        call (record {
          url = url;
          authorization = codes "Bearer " ++ bearer_for_gv host c;
          body = none;
        })

    abbrev pub tool_result : Option (ℕ × Text) → ToolResult J
    tool_result none = not_sent
    tool_result (some (code, raw)) = tool_result_from_http code raw

    -- RegisterTools refuses a bridge without a base or a token.
    unfoldable pub is_configured : Bool
    is_configured =
        if is_empty (base c) || is_empty (trim_space c.bearer_token) then false else true

    module _ (encode : MemorySearchIn → Option Text) where
      abbrev pub search_body : Option Text → ToolResult J
      search_body none = not_sent
      search_body (some body) = tool_result (post (base c ++ codes "/v1/retrieve") body)

      -- The tool `memory_search`.
      unfoldable pub memory_search : MemorySearchIn → ToolResult J
      memory_search q = search_body (
          encode (record q {
            vault_id = with_default_vault c q.vault_id;
            user_id = with_default_user c q.user_id;
          }))

      abbrev pub posted : Option Text → Option (ℕ × Text)
      posted none = none
      posted (some body) = post (base c ++ codes "/v1/retrieve") body

      unfoldable pub post_retrieve : Text → Text → Text → ℤ → ℤ → Option (ℕ × Text)
      post_retrieve vault user query max_chunks max_tokens =
          if is_empty (base c)
          then none
          else posted (
              encode (record {
                vault_id = vault;
                user_id = user;
                query = query;
                max_chunks = max_chunks;
                max_tokens = max_tokens;
                session_key = [];
                session_mode = [];
                content_mode = [];
              }))

    -- The tool `memory_stats`.
    unfoldable pub memory_stats : ToolResult J
    memory_stats = tool_result (get (base c ++ codes "/v1/stats"))
