-- ===== src/Mcp/OAuth/Settings.antt =====
-- internal/mcpbridge/oauth.go: settings that NewOAuthHTTP made are complete.
use mathlib.Core.Path.{subst}
use ghost_vault.Prelude.{
  ◌≡◌, refl, ap, ◌∙◌, Bool, true, false, if◌then◌else◌, List, ◌++◌, arith, Bool-cases, inl, inr,
}
use ghost_vault.Text.{Text, codes, is_empty, is_space, trim_space}
use ghost_vault.Text.Laws.{has_ink, ink-trim_space, ink-append, trim_space_idem}
use ghost_vault.Mcp.OAuth.{
  OAuthHttp, UpstreamOverrides, off, incomplete, on, trim_slashes, or_text, new_oauth_http,
}

-- `strings.TrimSpace(s) != ""`
abbrev pub IsPresent : Text → Type 0
IsPresent s = is_empty (trim_space s) ≡ false

pub record IsConfigured (o : OAuthHttp) : Type 0 where
  pub issuer : IsPresent o.auth_server_issuer
  pub resource : IsPresent o.resource_url
  pub metadata : IsPresent o.metadata_url
  pub introspection : IsPresent o.introspection_url
  pub authorize : IsPresent o.upstream_authorize_url
  pub token : IsPresent o.upstream_token_url
  pub register : IsPresent o.upstream_register_url
  pub audience : IsPresent o.audience_url

trimmed-IsPresent : (s : Text) → is_empty (trim_space s) ≡ false → IsPresent (trim_space s)
trimmed-IsPresent s h = ap is_empty (trim_space_idem s) ∙ h

or_text-IsPresent : (s d : Text) → IsPresent d → IsPresent (or_text (trim_space s) d)
or_text-IsPresent s d h = elim (Bool-cases (is_empty (trim_space s))) [
  | inl e ↦ rw e h
  | inr e ↦ rw e (trimmed-IsPresent s e)
]

append-IsPresent : (s t : Text) → has_ink t ≡ true → IsPresent (s ++ t)
append-IsPresent s t h = ink-trim_space (s ++ t) ∙ ground (arith, ink-append s t, h)

branches :
    (b b' : Bool) (made : OAuthHttp) {o : OAuthHttp}
    → (if b then off else if b' then incomplete else on made) ≡ on o
    → (b ≡ false) × (b' ≡ false) × (made ≡ o)
branches true b' made h = absurd (cc h)
branches false true made h = absurd (cc h)
branches false false made h = (refl, refl, cc h)

-- Settings that NewOAuthHTTP returns have every URL: that of the authorization server, of the
-- resource, of its metadata and of the introspection, and the three upstream endpoints and the
-- audience, which have defaults.
new_oauth_http-IsConfigured :
    (issuer resource metadata introspection client secret : Text) (required supported : List Text)
    (up : UpstreamOverrides) {o : OAuthHttp}
    → new_oauth_http issuer resource metadata introspection client secret required supported up
      ≡ on o
    → IsConfigured o
unfolding new_oauth_http has_ink is_space
new_oauth_http-IsConfigured issuer resource metadata introspection client secret required supported
      up {o} h =
    let (used, complete, same) = branches _ _ _ h in
    let res : is_empty (trim_space resource) ≡ false = ground (arith, complete) in
    let slash : Text = trim_slashes (trim_space issuer) ++ codes "/" in
    subst IsConfigured same (record {
      issuer = trimmed-IsPresent issuer (ground (arith, complete));
      resource = trimmed-IsPresent resource res;
      metadata = trimmed-IsPresent metadata (ground (arith, complete));
      introspection = trimmed-IsPresent introspection used;
      authorize =
          or_text-IsPresent up.authorize_url _ (append-IsPresent slash (codes "authorize") refl);
      token = or_text-IsPresent up.token_url _ (append-IsPresent slash (codes "oauth/token") refl);
      register =
          or_text-IsPresent up.register_url _ (append-IsPresent slash (codes "oidc/register") refl);
      audience = or_text-IsPresent up.audience _ (trimmed-IsPresent resource res);
    })
