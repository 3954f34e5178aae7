-- ===== src/Mcp/Facade/Audience.antt =====
-- internal/mcpbridge/oauth_facade.go: the query that the authorization server gets.
use mathlib.Core.Path.{subst}
use ghost_vault.Prelude.{
  ◌≡◌, refl, sym, ap, ◌∙◌, Bool, true, false, if◌then◌else◌, Option, none, some, List, [], ◌∷◌,
  ◌++◌, lookup, lookup-insert, beq_refl, append-nil, append_assoc, Bool-cases, inl, inr,
}
use ghost_vault.Text.{Text, text_eq, text_beq, text_beq_iff, trim_space}
use ghost_vault.Mcp.OAuth.{OAuthHttp}
use ghost_vault.Mcp.OAuth.Settings.{IsPresent}
use ghost_vault.Mcp.Facade.{
  Values, found_or_empty, add, set_value, audience, is_audience, HttpRequest, Reply, refusal,
  redirect, Net, add_each, add_query, with_audience, redirect_to, authorize,
}

abbrev values : Text → Values → List Text
values k q = found_or_empty (lookup k q)

-- All the values that a query gives under a key.
abbrev pub all_values : Text → Values → List Text
all_values j [] = []
all_values j ((k, vs) ∷ q) = (if text_beq k j then vs else []) ++ all_values j q

lookup-add :
    (k j v : Text) (q : Values)
    → lookup j (add k v q) ≡ (if text_beq k j then some (values k q ++ v ∷ []) else lookup j q)
unfolding add
lookup-add k j v q = lookup-insert k j _ q

values-add :
    (k j v : Text) (q : Values)
    → values j (add k v q) ≡ values j q ++ (if text_beq k j then v ∷ [] else [])
values-add k j v q = elim (Bool-cases (text_beq k j)) [
  | inl e ↦
      ap found_or_empty (lookup-add k j v q)
      ∙ rw e (ap (λ i. values i q ++ v ∷ []) ((text_beq_iff k j).0 e))
  | inr e ↦ ap found_or_empty (lookup-add k j v q) ∙ rw e (sym (append-nil (values j q)))
]

lookup-add_other :
    (k j v : Text) (q : Values) → text_beq k j ≡ false → lookup j (add k v q) ≡ lookup j q
lookup-add_other k j v q e = lookup-add k j v q ∙ rw e refl

values-add_each :
    (k j : Text) (vs : List Text) (q : Values)
    → values j (add_each k vs q) ≡ values j q ++ (if text_beq k j then vs else [])
unfolding add_each
values-add_each k j [] q = elim (Bool-cases (text_beq k j)) [
  | inl e ↦ rw e (sym (append-nil (values j q)))
  | inr e ↦ rw e (sym (append-nil (values j q)))
]
values-add_each k j (v ∷ vs) q =
    values-add_each k j vs (add k v q)
    ∙ ap (λ xs. xs ++ (if text_beq k j then vs else [])) (values-add k j v q)
    ∙ append_assoc (values j q) (if text_beq k j then v ∷ [] else [])
        (if text_beq k j then vs else [])
    ∙ ap (λ xs. values j q ++ xs) (joined (text_beq k j))
  where
    joined :
        (b : Bool)
        → (if b then v ∷ [] else []) ++ (if b then vs else []) ≡ (if b then v ∷ vs else [])
    joined true = refl
    joined false = refl

lookup-add_each :
    (k j : Text) (vs : List Text) (q : Values)
    → text_beq k j ≡ false
    → lookup j (add_each k vs q) ≡ lookup j q
unfolding add_each
lookup-add_each k j [] q e = refl
lookup-add_each k j (v ∷ vs) q e = lookup-add_each k j vs (add k v q) e ∙ lookup-add_other k j v q e

-- Keys that differ in whether they are an audience are not the same.
apart : (k j : Text) → is_audience k ≡ false → is_audience j ≡ true → text_beq k j ≡ false
apart k j h h' = elim (Bool-cases (text_beq k j)) [
  | inl e ↦ absurd (cc (ap is_audience ((text_beq_iff k j).0 e)))
  | inr e ↦ e
]

lookup-add_query :
    (r q : Values) (j : Text) → is_audience j ≡ true → lookup j (add_query r q) ≡ lookup j q
unfolding add_query
lookup-add_query [] q j h = refl
lookup-add_query ((k, vs) ∷ r) q j h = elim (Bool-cases (is_audience k)) [
  | inl e ↦ rw (e, add_query) (lookup-add_query r q j h)
  | inr e ↦
      rw (e, add_query)
        (lookup-add_query r (add_each k vs q) j h ∙ lookup-add_each k j vs q (apart k j e h))
]

apart' : (k j : Text) → is_audience k ≡ true → is_audience j ≡ false → text_beq k j ≡ false
apart' k j h h' = elim (Bool-cases (text_beq k j)) [
  | inl e ↦ absurd (cc (ap is_audience ((text_beq_iff k j).0 e)))
  | inr e ↦ e
]

values-add_query :
    (r q : Values) (j : Text)
    → is_audience j ≡ false
    → values j (add_query r q) ≡ values j q ++ all_values j r
unfolding add_query
values-add_query [] q j h = sym (append-nil (values j q))
values-add_query ((k, vs) ∷ r) q j h = elim (Bool-cases (is_audience k)) [
  | inl e ↦ rw (e, add_query, apart' k j e h) (values-add_query r q j h)
  | inr e ↦
      rw (e, add_query)
        (values-add_query r (add_each k vs q) j h
          ∙ ap (λ xs. xs ++ all_values j r) (values-add_each k j vs q)
          ∙ append_assoc (values j q) (if text_beq k j then vs else []) (all_values j r))
]

-- The query of a redirection, from the one of the configured URL and the caller's.
pub record IsForwarded (o : OAuthHttp) (configured caller q : Values) : Type 0 where
  pub exact : lookup audience q ≡ some (trim_space o.audience_url ∷ [])
  pub no_other :
      (k : Text)
      → is_audience k ≡ true
      → text_beq audience k ≡ false
      → lookup k q ≡ lookup k configured
  pub kept :
      (k : Text)
      → is_audience k ≡ false
      → found_or_empty (lookup k q) ≡ found_or_empty (lookup k configured) ++ all_values k caller

module _ (net : Net) (o : OAuthHttp) (r : HttpRequest) where
  with_audience-IsForwarded :
      (configured : Values)
      → IsPresent o.audience_url
      → IsForwarded o configured r.query
          (with_audience o.audience_url (add_query r.query configured))
  unfolding with_audience is_audience
  with_audience-IsForwarded configured aud =
      let base = add_query r.query configured in
      let result : (with_audience o.audience_url base
          ≡ set_value audience (trim_space o.audience_url) base) =
        rw (aud, with_audience) refl in
      let found = λ (k : Text). ap (lookup k) result ∙ lookup-insert audience k _ base in
      record {
        exact = found audience ∙ rw (beq_refl audience) refl;
        no_other = λ k h e. found k ∙ rw e (lookup-add_query r.query configured k h);
        kept = λ k h.
            let same : lookup k (with_audience o.audience_url base) ≡ lookup k base =
              found k ∙ rw (apart' audience k refl h) refl in
            ap found_or_empty same ∙ values-add_query r.query configured k h;
      }

  if-redirect :
      (b c : Bool) (x : Reply) {url : Text} {q : Values}
      → (if b then refusal 405 else if c then refusal 500 else x) ≡ redirect url q
      → x ≡ redirect url q
  if-redirect true c x h = absurd (cc h)
  if-redirect false true x h = absurd (cc h)
  if-redirect false false x h = h

  redirect_to-IsForwarded :
      (parsed : Option (Text × Values)) {url : Text} {q : Values}
      → IsPresent o.audience_url
      → redirect_to net o r parsed ≡ redirect url q
      → (configured : Values) × (parsed ≡ some (url, configured))
        × IsForwarded o configured r.query q
  redirect_to-IsForwarded none aud h = absurd (cc h)
  redirect_to-IsForwarded (some (url', configured)) {url} {q} aud h =
      let same : url' ≡ url = cc h in
      let sent : with_audience o.audience_url (add_query r.query configured) ≡ q = cc h in
      (
        configured,
        ap (λ t. some (t, configured)) same,
        subst (IsForwarded o configured r.query) sent (with_audience-IsForwarded configured aud),
      )

  -- With an audience configured, a redirection to the authorization server carries that audience and
  -- no other one of the caller's, in whatever case the caller writes the name; all else that the
  -- caller asks for is passed on, behind what the configured URL has.
  pub authorize-IsForwarded :
      {url : Text} {q : Values}
      → IsPresent o.audience_url
      → authorize net o r ≡ redirect url q
      → (configured : Values) × (net.parse_url o.upstream_authorize_url ≡ some (url, configured))
        × IsForwarded o configured r.query q
  unfolding authorize
  authorize-IsForwarded aud h = redirect_to-IsForwarded _ aud (if-redirect _ _ _ h)
