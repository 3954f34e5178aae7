-- ===== src/Mcp/Facade.antt =====
-- internal/mcpbridge/oauth_facade.go: the endpoints of the bridge in front of the authorization server.
-- A Go map is a list of its entries in the order of a range loop; the error texts are not modelled.
pub mod Audience
pub mod Relay
use ghost_vault.Prelude.{
  ℕ, ◌+◌, ◌^◌, ◌==◌, leb, Bool, true, false, not, ◌&&◌, ◌||◌, Option, none, some, List, [], ◌∷◌,
  ◌++◌, if◌then◌else◌, Assoc, lookup, insert, remove,
}
use ghost_vault.Text.{Text, text_eq, Casing, codes, is_empty, text_beq, trim_space, normalise}
use ghost_vault.Mcp.OAuth.{OAuthHttp, split, or_list, trim_slashes}

-- `url.Values`
abbrev pub Values : Type 0
Values = Assoc Text (List Text)

abbrev pub found_or_empty : Option (List Text) → List Text
found_or_empty none = []
found_or_empty (some vs) = vs

-- `Add` and `Set`
unfoldable pub add : Text → Text → Values → Values
add k v q = insert k (found_or_empty (lookup k q) ++ v ∷ []) q

abbrev pub set_value : Text → Text → Values → Values
set_value k v q = insert k (v ∷ []) q

abbrev pub audience : Text
audience = codes "audience"

-- The letters of `audience` have no case folding outside ASCII.
abbrev pub fold_ascii : ℕ → ℕ
fold_ascii c = if leb b'A' c && leb c b'Z' then c + 32 else c

-- `strings.EqualFold(k, "audience")`
abbrev pub fold_beq : Text → Text → Bool
fold_beq [] [] = true
fold_beq (c ∷ s) (d ∷ t) = fold_ascii c == fold_ascii d && fold_beq s t
fold_beq _ _ = false

unfoldable pub is_audience : Text → Bool
is_audience k = fold_beq k audience

pub record HttpRequest : Type 0 where
  pub method : Text
  pub query : Values
  pub content_type : Text
  pub authorization : Text
  pub body : Option Text

-- `url` stands for a parsed URL without its query.
pub record UpstreamRequest : Type 0 where
  pub url : Text
  pub content_type : Text
  pub authorization : Option Text
  pub body : Text

pub record UpstreamResponse : Type 0 where
  pub status : ℕ
  pub headers : Assoc Text (List Text)
  pub body : Text

pub record AuthorizationServerMetadata : Type 0 where
  pub issuer : Text
  pub authorization_endpoint : Text
  pub token_endpoint : Text
  pub registration_endpoint : Text
  pub scopes_supported : List Text

-- A refusal with its status, a redirection to a URL with a query, metadata, or a relayed response with
-- its headers.
pub data Reply : Type 0 where
  refusal : ℕ → Reply
  redirect : Text → Values → Reply
  metadata : AuthorizationServerMetadata → Reply
  relayed : ℕ → List (Text × Text) → Text → Reply

-- `url.Parse` with the query apart, the scheme and host of a URL that has both, `url.ParseQuery`,
-- `Values.Encode`, `http.CanonicalHeaderKey`, reading at most n bytes of a text, whether a request
-- can be built for a URL, and the call of the authorization server.
pub record Net : Type 0 where
  pub parse_url : Text → Option (Text × Values)
  pub origin : Text → Option (Text × Text)
  pub parse_query : Text → Option Values
  pub encode : Values → Text
  pub canonical : Text → Text
  pub limited : ℕ → Text → Text
  pub builds : Text → Bool
  pub call : UpstreamRequest → Option UpstreamResponse

abbrev pub is_get : Text → Bool
is_get method = text_beq method (codes "GET") || text_beq method (codes "HEAD")

abbrev pub facade_max_body : ℕ
facade_max_body = 2 ^ 20

abbrev pub hop_by_hop_headers : List Text
hop_by_hop_headers =
    codes "Connection"
    ∷ codes "Keep-Alive"
    ∷ codes "Proxy-Authenticate"
    ∷ codes "Proxy-Authorization"
    ∷ codes "Te"
    ∷ codes "Trailers"
    ∷ codes "Transfer-Encoding"
    ∷ codes "Upgrade"
    ∷ []

abbrev pub is_one_of : Text → List Text → Bool
is_one_of k [] = false
is_one_of k (h ∷ hs) = text_beq h k || is_one_of k hs

unfoldable pub is_hop_by_hop : Text → Bool
is_hop_by_hop k = is_one_of k hop_by_hop_headers

-- The loops over the caller's query, without its audience.
unfoldable pub add_each : Text → List Text → Values → Values
unfolding add
add_each k [] q = q
add_each k (v ∷ vs) q = add_each k vs (add k v q)

unfoldable pub add_query : Values → Values → Values
unfolding add_each
add_query [] q = q
add_query ((k, vs) ∷ r) q = if is_audience k then add_query r q else add_query r (add_each k vs q)

unfoldable pub with_audience : Text → Values → Values
with_audience configured q =
    let aud = trim_space configured in if is_empty aud then q else set_value audience aud q

-- `form.Del` and `form.Set`
unfoldable pub with_form_audience : Text → Values → Values
with_form_audience configured q =
    let aud = trim_space configured in
    if is_empty aud then q else set_value audience aud (remove audience q)

-- The media type of a Content-Type header.
abbrev pub first_or_empty : List Text → Text
first_or_empty [] = []
first_or_empty (p ∷ ps) = p

unfoldable pub media_type : ⦃u : Casing⦄ → Text → Text
unfolding split
media_type s = normalise (first_or_empty (split b';' s))

abbrev pub some_text : Text → Option Text
some_text s = if is_empty s then none else some s

module _ (net : Net) (o : OAuthHttp) where
  abbrev pub origin_or : Option (Text × Text) → Text
  origin_or none = trim_slashes o.resource_url
  origin_or (some (scheme, host)) = scheme ++ codes "://" ++ host

  unfoldable pub issuer_from_resource : Text
  issuer_from_resource = origin_or (net.origin (trim_space o.resource_url))

  unfoldable pub authorization_server_metadata : HttpRequest → Reply
  unfolding issuer_from_resource
  authorization_server_metadata r =
      if is_get r.method
      then metadata (record {
        issuer = issuer_from_resource;
        authorization_endpoint = issuer_from_resource ++ codes "/authorize";
        token_endpoint = issuer_from_resource ++ codes "/token";
        registration_endpoint = issuer_from_resource ++ codes "/register";
        scopes_supported = or_list o.scopes_supported o.required_scopes;
      })
      else refusal 405

  abbrev pub redirect_to : HttpRequest → Option (Text × Values) → Reply
  redirect_to r none = refusal 500
  redirect_to r (some (url, q)) = redirect url (with_audience o.audience_url (add_query r.query q))

  unfoldable pub authorize : HttpRequest → Reply
  authorize r =
      if not (is_get r.method)
      then refusal 405
      else if is_empty (trim_space o.upstream_authorize_url)
      then refusal 500
      else redirect_to r (net.parse_url o.upstream_authorize_url)

  -- The headers of a response that are passed on.
  abbrev pub header_lines : Text → List Text → List (Text × Text) → List (Text × Text)
  header_lines k [] rest = rest
  header_lines k (v ∷ vs) rest = (k, v) ∷ header_lines k vs rest

  unfoldable pub relayed_headers : Assoc Text (List Text) → List (Text × Text)
  relayed_headers [] = []
  relayed_headers ((k, vs) ∷ hs) =
      let rest = relayed_headers hs in
      if is_hop_by_hop (net.canonical k) then rest else header_lines (net.canonical k) vs rest

  abbrev pub relay : Option UpstreamResponse → Reply
  relay none = refusal 502
  relay (some r) = relayed r.status (relayed_headers r.headers) (net.limited facade_max_body r.body)

  unfoldable pub relay_upstream : UpstreamRequest → Reply
  relay_upstream r = if net.builds r.url then relay (net.call r) else refusal 500

  unfoldable pub token_request : HttpRequest → Values → UpstreamRequest
  token_request r form = record {
    url = o.upstream_token_url;
    content_type = codes "application/x-www-form-urlencoded";
    authorization = some_text r.authorization;
    body = net.encode (with_form_audience o.audience_url form);
  }

  abbrev pub token_form : HttpRequest → Option Values → Reply
  token_form r none = refusal 400
  token_form r (some form) = relay_upstream (token_request r form)

  abbrev pub token_body : HttpRequest → Option Text → Reply
  token_body r none = refusal 400
  token_body r (some raw) = token_form r (net.parse_query (net.limited facade_max_body raw))

  abbrev pub register_body : HttpRequest → Option Text → Reply
  register_body r none = refusal 400
  register_body r (some raw) = relay_upstream (record {
    url = o.upstream_register_url;
    content_type = codes "application/json";
    authorization = some_text r.authorization;
    body = net.limited facade_max_body raw;
  })

  module _ ⦃u : Casing⦄ where
    unfoldable pub token : HttpRequest → Reply
    token r =
        if not (text_beq r.method (codes "POST"))
        then refusal 405
        else if is_empty (trim_space o.upstream_token_url)
        then refusal 500
        else if not
            (text_beq (media_type r.content_type) (codes "application/x-www-form-urlencoded"))
        then refusal 415
        else token_body r r.body

    unfoldable pub register : HttpRequest → Reply
    register r =
        if not (text_beq r.method (codes "POST"))
        then refusal 405
        else if is_empty (trim_space o.upstream_register_url)
        then refusal 500
        else if not (text_beq (media_type r.content_type) (codes "application/json"))
        then refusal 415
        else register_body r r.body
