-- ===== src/Mcp/OAuth/Tokens.antt =====
-- internal/mcpbridge/oauth.go: what a token that VerifyToken accepts was found to be.
use ghost_vault.Prelude.{
  ℕ, ◌≡◌, ◌⊎◌, inl, inr, refl, sym, ap, ◌∙◌, Bool, true, false, ◌||◌, ◌==◌, ==_iff, if◌then◌else◌,
  Option, none, some, List, [], ◌∷◌, ◌++◌, Assoc, lookup, All, Bool-cases, arith,
}
use ghost_vault.Prelude.Int.{ℤ}
use ghost_vault.Text.{Text, text_eq, codes, is_empty, is_space, trim_space}
use ghost_vault.Mcp.OAuth.{
  OAuthHttp, JsonValue, bool, number, HttpResult, http_failed, response, Introspection,
  introspection_request, TokenInfo, verified, rejected, invalid_token, add_word, fields_from,
  fields, is_active, text_or_empty, oauth_exp_from_introspection_map, exp_from_jwt_unverified,
  exp_or_jwt, info_of, verify_object, verify_response, verify_token,
}

-- A word of a scope: not empty, and without white space.
abbrev pub has_space : Text → Bool
has_space [] = false
has_space (c ∷ s) = is_space c || has_space s

abbrev pub IsWord : Text → Type 0
IsWord w = (is_empty w ≡ false) × (has_space w ≡ false)

has_space-append : (s : Text) (c : ℕ) → has_space (s ++ c ∷ []) ≡ (has_space s || is_space c)
has_space-append [] c = ground arith
has_space-append (d ∷ s) c = ground (arith, has_space-append s c)

add_word-IsWord :
    (w : Text) (ws : List Text) → has_space w ≡ false → All IsWord ws → All IsWord (add_word w ws)
add_word-IsWord [] ws h all = all
add_word-IsWord (c ∷ w) ws h all = ((refl, h), all)

fields_from-IsWord : (word s : Text) → has_space word ≡ false → All IsWord (fields_from word s)
unfolding fields_from
fields_from-IsWord word [] h = add_word-IsWord word [] h tt
fields_from-IsWord word (c ∷ s) h = elim (Bool-cases (is_space c)) [
  | inl e ↦ rw (e, fields_from) (add_word-IsWord word _ h (fields_from-IsWord [] s refl))
  | inr e ↦
      rw (e, fields_from)
        (fields_from-IsWord (word ++ c ∷ []) s (ground (arith, has_space-append word c, h, e)))
]

fields-IsWord : (s : Text) → All IsWord (fields s)
unfolding fields
fields-IsWord s = fields_from-IsWord [] s refl

module _ (io : Introspection) (o : OAuthHttp) (token : Text) where
  -- The server answered that the token is active, and what is said of the token is from that answer;
  -- its expiration too, or else from the token, read as a JWT.
  pub record IsIntrospected (info : TokenInfo) : Type 0 where
    pub enabled : is_empty (trim_space o.introspection_url) ≡ false
    pub body : Text
    pub members : Assoc Text JsonValue
    pub answered : io.post (introspection_request o token) ≡ response 200 body
    pub read : io.decode_object body ≡ some members
    pub active : lookup (codes "active") members ≡ some (bool true)
    pub expires :
        (oauth_exp_from_introspection_map io members ≡ some info.expiration)
        ⊎ ((oauth_exp_from_introspection_map io members ≡ none)
            × (exp_from_jwt_unverified io token ≡ some info.expiration))
    pub scopes : info.scopes ≡ fields (text_or_empty (lookup (codes "scope") members))
    pub words : All IsWord info.scopes
    pub user : info.user_id ≡ text_or_empty (lookup (codes "sub") members)

  active-eq : (v : Option JsonValue) → is_active v ≡ true → v ≡ some (bool true)
  active-eq (some (bool b)) h = ap (λ x. some (bool x)) h
  active-eq (some JsonValue.null) h = absurd (cc h)
  active-eq (some JsonValue.other) h = absurd (cc h)
  active-eq (some (number n)) h = absurd (cc h)
  active-eq (some (JsonValue.text t)) h = absurd (cc h)
  active-eq none h = absurd (cc h)

  exp-cases :
      (e : Option ℤ) {n : ℤ}
      → exp_or_jwt io e token ≡ some n
      → (e ≡ some n) ⊎ ((e ≡ none) × (exp_from_jwt_unverified io token ≡ some n))
  exp-cases none h = inr (refl, h)
  exp-cases (some m) h = inl h

  info-cases :
      (tr : Assoc Text JsonValue) (e : Option ℤ) {info : TokenInfo}
      → info_of io tr e ≡ verified info
      → (e ≡ some info.expiration)
        × (info.scopes ≡ fields (text_or_empty (lookup (codes "scope") tr)))
        × (info.user_id ≡ text_or_empty (lookup (codes "sub") tr))
  info-cases tr none h = absurd (cc h)
  info-cases tr (some n) {info} h =
      let e : (let made : TokenInfo = record {
        scopes = fields (text_or_empty (lookup (codes "scope") tr));
        expiration = n;
        user_id = text_or_empty (lookup (codes "sub") tr);
      } in
          made ≡ info) =
        cc h in
      (ap (λ x. some x.expiration) e, ap (λ x. x.scopes) (sym e), ap (λ x. x.user_id) (sym e))

  object-IsIntrospected :
      (body : Text) (d : Option (Assoc Text JsonValue)) {info : TokenInfo}
      → is_empty (trim_space o.introspection_url) ≡ false
      → io.post (introspection_request o token) ≡ response 200 body
      → io.decode_object body ≡ d
      → verify_object io token d ≡ verified info
      → IsIntrospected info
  object-IsIntrospected body none enabled answered read h = absurd (cc h)
  object-IsIntrospected body (some tr) {info} enabled answered read h =
      go (is_active (lookup (codes "active") tr)) refl h
    where
      go :
          (b : Bool)
          → is_active (lookup (codes "active") tr) ≡ b
          → (if b
              then info_of io tr (exp_or_jwt io (oauth_exp_from_introspection_map io tr) token)
              else rejected invalid_token)
            ≡ verified info
          → IsIntrospected info
      go false e h' = absurd (cc h')
      go true e h' =
          let (expires, scopes, user) = info-cases tr _ h' in
          record {
            enabled = enabled;
            body = body;
            members = tr;
            answered = answered;
            read = read;
            active = active-eq _ e;
            expires = exp-cases _ expires;
            scopes = scopes;
            words = rw scopes (fields-IsWord _);
            user = user;
          }

  response-IsIntrospected :
      (r : HttpResult) {info : TokenInfo}
      → is_empty (trim_space o.introspection_url) ≡ false
      → io.post (introspection_request o token) ≡ r
      → verify_response io token r ≡ verified info
      → IsIntrospected info
  response-IsIntrospected http_failed enabled e h = absurd (cc h)
  response-IsIntrospected (response status body) {info} enabled e h =
      elim (Bool-cases (status == 200)) [
        | inl e₁ ↦
            object-IsIntrospected body _ enabled
              (e ∙ ap (λ n. response n body) ((==_iff status 200).0 e₁)) refl
              (ground (arith, e₁, h))
        | inr e₁ ↦ absurd (ground (arith, e₁, h))
      ]

  -- A token is accepted only if introspection is set up and answered 200 with an object that calls the
  -- token active. Its scopes are the words of that object's `scope`, none of them empty, its user is
  -- `sub`, and its expiration is `exp` there, or, only where that gives none, the claim of the token.
  pub verify_token_sound :
      {info : TokenInfo} → verify_token io o token ≡ verified info → IsIntrospected info
  unfolding verify_token
  verify_token_sound {info} h = elim (Bool-cases (is_empty (trim_space o.introspection_url))) [
    | inl e ↦ absurd (ground (arith, e, h))
    | inr e ↦ response-IsIntrospected _ e refl (ground (arith, e, h))
  ]
