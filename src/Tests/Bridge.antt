-- ===== src/Tests/Bridge.antt =====
-- The bridge at concrete inputs: settings, a token file, an introspected token and a redirection.
use ghost_vault.Prelude.{Option, ℕ, ◌≡◌, refl, true, none, some, [], ◌∷◌, lookup, insert}
use ghost_vault.Prelude.Int.{pos}
use ghost_vault.Text.{Text, codes, text_beq, is_space, trim_left, trim_right, trim_space}
use ghost_vault.Mcp.Bearer.{Host, token, token_path, bearer_from_env_and_file}
use ghost_vault.Mcp.OAuth.{
  OAuthHttp, UpstreamOverrides, on, bool, number, text, response, Introspection, TokenInfo,
  verified, verify_token, new_oauth_http, trim_slashes, fields, fields_from,
  oauth_exp_from_introspection_map,
}
use ghost_vault.Mcp.OAuth.Settings.{IsPresent}
use ghost_vault.Mcp.OAuth.Tokens.{IsIntrospected, verify_token_sound}
use ghost_vault.Mcp.Facade.{
  Values, HttpRequest, Net, redirect, add, add_each, add_query, with_audience, is_audience,
  authorize,
}
use ghost_vault.Mcp.Facade.Audience.{IsForwarded, authorize-IsForwarded}
use ghost_vault.Auth.{Session}
use ghost_vault.Auth.Manager.{new_manager}
use ghost_vault.Api.{Server}
use ghost_vault.Mcp.Bridge.{BridgeConfig, post}
use ghost_vault.Mcp.Bridge.LetIn.{LetIn}
use ghost_vault.Tests.Data.{nat_uuids, ascii_casing}
use ghost_vault.Tests.Requests.{server}

abbrev tok_session : Session ℕ
tok_session = record {
  vault_id = 7;
  dek = [];
  expires_at = 50;
  max_until = 110;
  last_seen = 10;
  idle = 40;
  token_hash = codes "tok";
}

abbrev session_server : Server ℕ
session_server = record server {
  sess = record (new_manager 40 100 true none) { sessions = (codes "tok", tok_session) ∷ [] };
}

abbrev host : Host
host = record {
  getenv = λ name. [];
  is_file = λ path. true;
  read_file = λ path. some (codes " tok\n");
}

from_file : bearer_from_env_and_file host [] [] ≡ token (codes "tok")
unfolding bearer_from_env_and_file token_path trim_space trim_left trim_right is_space
from_file = refl

abbrev no_overrides : UpstreamOverrides
no_overrides = record { authorize_url = []; token_url = []; register_url = []; audience = [] }

abbrev settings : OAuthHttp
settings = record {
  auth_server_issuer = codes "i/";
  resource_url = codes "r";
  metadata_url = codes "m";
  introspection_url = codes "q";
  introspection_client_id = [];
  introspection_client_secret = [];
  required_scopes = [];
  scopes_supported = [];
  upstream_authorize_url = codes "i/authorize";
  upstream_token_url = codes "i/oauth/token";
  upstream_register_url = codes "i/oidc/register";
  audience_url = codes "r";
}

settings_made :
    new_oauth_http (codes "i/") (codes "r") (codes "m") (codes "q") [] [] [] [] no_overrides
    ≡ on settings
unfolding new_oauth_http trim_slashes trim_space trim_left trim_right is_space
settings_made = refl

-- An active token of ann with two scopes, until the time 50.
abbrev introspection : Introspection
introspection = record {
  post = λ r. response 200 (codes "{}");
  decode_object = λ t. some (
      (codes "active", bool true)
      ∷ (codes "exp", number (codes "50"))
      ∷ (codes "scope", text (codes "a b"))
      ∷ (codes "sub", text (codes "ann"))
      ∷ []);
  number_seconds = λ n. some (pos 50);
  raw_url_decode = λ t. none;
  url_decode = λ t. none;
  exp_claim = λ p. none;
}

abbrev info : TokenInfo
info = record { scopes = codes "a" ∷ codes "b" ∷ []; expiration = pos 50; user_id = codes "ann" }

introspected : verify_token introspection settings (codes "t") ≡ verified info
unfolding verify_token oauth_exp_from_introspection_map lookup text_beq fields fields_from
    trim_space trim_left trim_right is_space
introspected = refl

verify_token_sound_example : IsIntrospected introspection settings (codes "t") info
verify_token_sound_example = verify_token_sound introspection settings (codes "t") introspected

abbrev net : Net
net = record {
  parse_url = λ url. some (url, []);
  origin = λ url. none;
  parse_query = λ t. some [];
  encode = λ q. [];
  canonical = λ k. k;
  limited = λ n t. t;
  builds = λ url. true;
  call = λ r. none;
}

-- The caller asks for an audience of its own, with a capital letter.
abbrev asking : HttpRequest
asking = record {
  method = codes "GET";
  query = (codes "Audience", codes "other" ∷ []) ∷ (codes "state", codes "1" ∷ codes "2" ∷ []) ∷ [];
  content_type = [];
  authorization = [];
  body = none;
}

abbrev sent : Values
sent = (codes "state", codes "1" ∷ codes "2" ∷ []) ∷ (codes "audience", codes "r" ∷ []) ∷ []

redirected : authorize net settings asking ≡ redirect (codes "i/authorize") sent
unfolding authorize with_audience add_query add_each add is_audience lookup insert text_beq
    trim_space trim_left trim_right is_space
redirected = refl

audience_set : IsPresent (codes "r")
unfolding trim_space trim_left trim_right is_space
audience_set = refl

authorize-IsForwarded_example :
    (configured : Values) × (net.parse_url (codes "i/authorize")
      ≡ some (codes "i/authorize", configured))
    × IsForwarded settings configured asking.query sent
authorize-IsForwarded_example = authorize-IsForwarded net settings asking audience_set redirected

abbrev bridge : BridgeConfig
bridge = record {
  base_url = codes "http://gv/";
  bearer_token = codes "old";
  token_reload_path = codes "f";
  default_vault_id = [];
  default_user_id = [];
}

abbrev no_json : Text → Option (Unit {0})
no_json t = none
