-- ===== src/Mcp/OAuth.antt =====
-- internal/mcpbridge/oauth.go: the settings of the bridge as an OAuth resource server, and the check of
-- a token by introspection.
pub mod Settings
pub mod Tokens
use ghost_vault.Prelude.{
  ℕ, ◌==◌, Bool, true, false, not, ◌&&◌, ◌||◌, Option, none, some, List, [], ◌∷◌, ◌++◌,
  if◌then◌else◌, Assoc, lookup,
}
use ghost_vault.Prelude.Int.{ℤ}
use ghost_vault.Text.{Text, text_eq, codes, is_empty, is_space, trim_space}

pub record OAuthHttp : Type 0 where
  pub auth_server_issuer : Text
  pub resource_url : Text
  pub metadata_url : Text
  pub introspection_url : Text
  pub introspection_client_id : Text
  pub introspection_client_secret : Text
  pub required_scopes : List Text
  pub scopes_supported : List Text
  pub upstream_authorize_url : Text
  pub upstream_token_url : Text
  pub upstream_register_url : Text
  pub audience_url : Text

pub record ProtectedResourceMetadata : Type 0 where
  pub resource : Text
  pub authorization_servers : List Text
  pub scopes_supported : List Text
  pub bearer_methods_supported : List Text
  pub resource_name : Text

abbrev pub or_list : List Text → List Text → List Text
or_list [] default = default
or_list (c ∷ cs) default = c ∷ cs

unfoldable pub protected_resource_metadata : OAuthHttp → ProtectedResourceMetadata
protected_resource_metadata o = record {
  resource = o.resource_url;
  authorization_servers = o.auth_server_issuer ∷ [];
  scopes_supported = or_list o.scopes_supported o.required_scopes;
  bearer_methods_supported = codes "header" ∷ [];
  resource_name = codes "Ghost Vault MCP";
}

-- A decoded JSON value; `other` is an array or an object.
pub data JsonValue : Type 0 where
  null other : JsonValue
  bool : Bool → JsonValue
  number text : Text → JsonValue

pub record IntrospectionRequest : Type 0 where
  pub url : Text
  pub token : Text
  pub basic_auth : Option (Text × Text)

pub data HttpResult : Type 0 where
  http_failed : HttpResult
  response : ℕ → Text → HttpResult

-- What the check takes from outside: the HTTP call with the reading of the body, `json.Decoder`,
-- `int64` of `Number.Float64`, both base64 decoders, and the claim `exp` of a JWT's payload, where
-- `some none` is a claim that is 0 or not there.
pub record Introspection : Type 0 where
  pub post : IntrospectionRequest → HttpResult
  pub decode_object : Text → Option (Assoc Text JsonValue)
  pub number_seconds : Text → Option ℤ
  pub raw_url_decode : Text → Option (List ℕ)
  pub url_decode : Text → Option (List ℕ)
  pub exp_claim : List ℕ → Option (Option ℤ)

-- `expiration` is in seconds.
pub record TokenInfo : Type 0 where
  pub scopes : List Text
  pub expiration : ℤ
  pub user_id : Text

pub data TokenError : Type 0 where
  invalid_token call_failed bad_json : TokenError

pub data Verified : Type 0 where
  verified : TokenInfo → Verified
  rejected : TokenError → Verified

-- `strings.Split` at one character.
abbrev pub add_first : ℕ → List Text → List Text
add_first c [] = (c ∷ []) ∷ []
add_first c (w ∷ ws) = (c ∷ w) ∷ ws

unfoldable pub split : ℕ → Text → List Text
split sep [] = [] ∷ []
split sep (c ∷ s) = let rest = split sep s in if c == sep then [] ∷ rest else add_first c rest

-- `strings.Fields`: `pending` is the word that is being read.
abbrev pub add_word : Text → List Text → List Text
add_word [] ws = ws
add_word (c ∷ w) ws = (c ∷ w) ∷ ws

unfoldable pub fields_from : Text → Text → List Text
fields_from word [] = add_word word []
fields_from word (c ∷ s) = elim (is_space c) [
  | true ↦ add_word word (fields_from [] s)
  | false ↦ fields_from (word ++ c ∷ []) s
]

unfoldable pub fields : Text → List Text
unfolding fields_from
fields s = fields_from [] s

abbrev pub is_active : Option JsonValue → Bool
is_active (some (bool b)) = b
is_active _ = false

abbrev pub text_or_empty : Option JsonValue → Text
text_or_empty (some (text t)) = t
text_or_empty _ = []

-- `form.Set(...)` and `SetBasicAuth`
abbrev pub introspection_request : OAuthHttp → Text → IntrospectionRequest
introspection_request o token = record {
  url = o.introspection_url;
  token = token;
  basic_auth =
      if not (is_empty o.introspection_client_id) || not (is_empty o.introspection_client_secret)
      then some (o.introspection_client_id, o.introspection_client_secret)
      else none;
}

module _ (io : Introspection) where
  -- The decoder gives a number as json.Number only.
  abbrev pub seconds_of : Option JsonValue → Option ℤ
  seconds_of (some (number n)) = io.number_seconds n
  seconds_of _ = none

  unfoldable pub oauth_exp_from_introspection_map : Assoc Text JsonValue → Option ℤ
  oauth_exp_from_introspection_map tr = seconds_of (lookup (codes "exp") tr)

  abbrev pub claim_of : Option (List ℕ) → Option ℤ
  claim_of none = none
  claim_of (some payload) = elim (io.exp_claim payload) [ some (some n) ↦ some n | _ ↦ none ]

  abbrev pub decode_part : Option (List ℕ) → Text → Option (List ℕ)
  decode_part (some b) part = some b
  decode_part none part = io.url_decode part

  abbrev pub exp_of_parts : List Text → Option ℤ
  exp_of_parts (header ∷ payload ∷ signature ∷ []) =
      claim_of (decode_part (io.raw_url_decode payload) payload)
  exp_of_parts _ = none

  unfoldable pub exp_from_jwt_unverified : Text → Option ℤ
  exp_from_jwt_unverified token = exp_of_parts (split b'.' (trim_space token))

  abbrev pub exp_or_jwt : Option ℤ → Text → Option ℤ
  exp_or_jwt (some n) token = some n
  exp_or_jwt none token = exp_from_jwt_unverified token

  abbrev pub info_of : Assoc Text JsonValue → Option ℤ → Verified
  info_of tr none = rejected invalid_token
  info_of tr (some exp) = verified (record {
    scopes = fields (text_or_empty (lookup (codes "scope") tr));
    expiration = exp;
    user_id = text_or_empty (lookup (codes "sub") tr);
  })

  abbrev pub verify_object : Text → Option (Assoc Text JsonValue) → Verified
  verify_object token none = rejected bad_json
  verify_object token (some tr) =
      if is_active (lookup (codes "active") tr)
      then info_of tr (exp_or_jwt (oauth_exp_from_introspection_map tr) token)
      else rejected invalid_token

  abbrev pub verify_response : Text → HttpResult → Verified
  verify_response token http_failed = rejected call_failed
  verify_response token (response status body) =
      if status == 200 then verify_object token (io.decode_object body) else rejected invalid_token

  -- `VerifyToken`
  unfoldable pub verify_token : OAuthHttp → Text → Verified
  verify_token o token =
      if is_empty (trim_space o.introspection_url)
      then rejected invalid_token
      else verify_response token (io.post (introspection_request o token))

pub record UpstreamOverrides : Type 0 where
  pub authorize_url : Text
  pub token_url : Text
  pub register_url : Text
  pub audience : Text

-- `strings.TrimRight(s, "/")`
unfoldable pub trim_slashes : Text → Text
trim_slashes [] = []
trim_slashes (c ∷ s) =
    let rest = trim_slashes s in if c == b'/' && is_empty rest then [] else c ∷ rest

abbrev pub or_text : Text → Text → Text
or_text s default = if is_empty s then default else s

-- No settings, settings, or an error.
pub data Configured : Type 0 where
  off incomplete : Configured
  on : OAuthHttp → Configured

unfoldable pub new_oauth_http :
    Text → Text → Text → Text → Text → Text → List Text → List Text → UpstreamOverrides → Configured
new_oauth_http issuer resource metadata introspection client secret required supported up =
    let issuer' = trim_space issuer in
    let resource' = trim_space resource in
    let metadata' = trim_space metadata in
    let introspection' = trim_space introspection in
    let issuer_slash = trim_slashes issuer' ++ codes "/" in
    if is_empty introspection'
    then off
    else if is_empty issuer' || is_empty resource' || is_empty metadata'
    then incomplete
    else on (record {
      auth_server_issuer = issuer';
      resource_url = resource';
      metadata_url = metadata';
      introspection_url = introspection';
      introspection_client_id = trim_space client;
      introspection_client_secret = trim_space secret;
      required_scopes = required;
      scopes_supported = supported;
      upstream_authorize_url =
          or_text (trim_space up.authorize_url) (issuer_slash ++ codes "authorize");
      upstream_token_url = or_text (trim_space up.token_url) (issuer_slash ++ codes "oauth/token");
      upstream_register_url =
          or_text (trim_space up.register_url) (issuer_slash ++ codes "oidc/register");
      audience_url = or_text (trim_space up.audience) resource';
    })

-- The entries of a list with commas that are not blank.
unfoldable pub comma_list : List Text → List Text
comma_list [] = []
comma_list (p ∷ ps) =
    let rest = comma_list ps in let t = trim_space p in if is_empty t then rest else t ∷ rest

unfoldable pub scopes_of : Text → List Text
unfolding comma_list split
scopes_of s = if is_empty s then [] else comma_list (split b',' s)

module _ (getenv : Text → Text) where
  abbrev pub get : Text → Text
  get k = trim_space (getenv k)

  unfoldable pub parse_oauth_http_from_env : Configured
  unfolding new_oauth_http scopes_of
  parse_oauth_http_from_env =
      new_oauth_http (get (codes "GHOSTVAULT_OAUTH_AUTH_SERVER_ISSUER"))
        (get (codes "GHOSTVAULT_OAUTH_RESOURCE")) (get (codes "GHOSTVAULT_OAUTH_METADATA_URL"))
        (get (codes "GHOSTVAULT_OAUTH_INTROSPECTION_URL"))
        (get (codes "GHOSTVAULT_OAUTH_INTROSPECTION_CLIENT_ID"))
        (get (codes "GHOSTVAULT_OAUTH_INTROSPECTION_CLIENT_SECRET"))
        (scopes_of (get (codes "GHOSTVAULT_OAUTH_SCOPES")))
        (scopes_of (get (codes "GHOSTVAULT_OAUTH_SCOPES_SUPPORTED")))
        (record {
          authorize_url = get (codes "GHOSTVAULT_OAUTH_UPSTREAM_AUTHORIZE_URL");
          token_url = get (codes "GHOSTVAULT_OAUTH_TOKEN_URL");
          register_url = get (codes "GHOSTVAULT_OAUTH_REGISTRATION_URL");
          audience = get (codes "GHOSTVAULT_OAUTH_AUDIENCE");
        })
