-- ===== src/Api/Access.antt =====
-- internal/api/handlers.go: whom requireVaultAuth lets in, and what a refusal says.
use ghost_vault.Prelude.{
  ℕ, ◌<◌, ◌≡◌, ◌⊎◌, inl, inr, refl, sym, ap, ◌∙◌, Bool, true, false, if◌then◌else◌, some, List, [],
  ◌∷◌, lookup, drop, Bool-cases,
}
use ghost_vault.Text.{Text, text_eq, Casing, codes, is_empty, to_lower, trim_space}
use ghost_vault.Extern.{Uuids, eq_of_uuids}
use ghost_vault.Auth.{Session}
use ghost_vault.Auth.Manager.{unauthorized, backend, Outcome, done, refused, Manager, Faults, touch}
use ghost_vault.Api.Accepted.{accept_plain-done, with_vault-done, unexpired-some, accept_vault-done}
use ghost_vault.Api.{
  Request, ActionToken, VaultRow, Server, is_bearer, has_prefix, raw_token, session_from_request,
  keyless, with_vault, unexpired, action_token_vault, accept_vault, or_action_token,
  require_session, require_vault_auth,
}

no_bearer-session_from_request :
    ⦃u : Casing⦄ (r : Request)
    → is_bearer r.authorization ≡ false
    → session_from_request r ≡ r.ghost_session
unfolding session_from_request
no_bearer-session_from_request r no_bearer = elim (Bool-cases (is_empty r.ghost_session)) [
  | inl e ↦ rw (e, no_bearer) (sym (empty_text r.ghost_session e))
  | inr e ↦ rw e refl
]
  where
    empty_text : (t : Text) → is_empty t ≡ true → t ≡ []
    empty_text [] h = refl
    empty_text (c ∷ t) h = absurd (cc h)

module _ ⦃u : Casing⦄ (r : Request) where
  abbrev pub HasBearer : Type 0
  HasBearer = has_prefix (to_lower r.authorization) (codes "bearer ") ≡ true

  -- The request's own token: behind the word of a bearer header, or else in the header of its own.
  abbrev pub IsShown : Text → Type 0
  IsShown token =
      (HasBearer × (token ≡ trim_space (drop 7 r.authorization)))
      ⊎ ((has_prefix (to_lower r.authorization) (codes "bearer ") ≡ false)
          × (token ≡ r.ghost_session))

module _ {U : Type 0} ⦃i : Uuids U⦄ ⦃u : Casing⦄ (hash : Text → List ℕ) (faults : Faults)
    (r : Request) (now : ℕ) (s : Server U) (sess : Session U) (vid : U) where
  -- A session token of the manager: what was touched is what the request gets.
  pub record HasSession : Type 0 where
    pub token : Text
    pub shown : IsShown r token
    pub touched : (touch hash faults token now s.sess).0 ≡ done sess
    pub of_session : sess.vault_id ≡ vid

  -- An action token in time, of a vault without encryption; the request gets no data key.
  pub record HasActionToken : Type 0 where
    pub token : ActionToken U
    pub row : VaultRow
    pub bearer : HasBearer r
    pub known : lookup (hash (trim_space (drop 7 r.authorization))) s.action_tokens ≡ some token
    pub in_time : now < token.expires_at
    pub has_vault : lookup vid s.vaults ≡ some row
    pub of_vault : token.vault_id ≡ vid
    pub plain : row.encryption_enabled ≡ false
    pub no_key : sess ≡ keyless vid

module _ {U : Type 0} ⦃i : Uuids U⦄ ⦃u : Casing⦄ (hash : Text → List ℕ) (faults : Faults)
    (r : Request) (now : ℕ) (s : Server U) {sess : Session U} where
  require_session-done :
      (require_session hash faults r now s).0 ≡ done sess
      → (touch hash faults (session_from_request r) now s.sess).0 ≡ done sess
  unfolding require_session
  require_session-done h = go (is_empty (session_from_request r)) h
    where
      go :
          (b : Bool)
          → (if◌then◌else◌ {A = Outcome (Session U) × Manager U} b
              (refused unauthorized, s.sess)
              (touch hash faults (session_from_request r) now s.sess)).0
            ≡ done sess
          → (touch hash faults (session_from_request r) now s.sess).0 ≡ done sess
      go true h' = absurd (cc h')
      go false h' = h'

module _ {U : Type 0} ⦃i : Uuids U⦄ ⦃u : Casing⦄ (hash : Text → List ℕ) (faults : Faults)
    (r : Request) (now : ℕ) (s : Server U) {sess : Session U} {v : U} where
  action_token-done :
      HasBearer r
      → accept_vault s (action_token_vault hash faults (raw_token r.authorization) now s)
        ≡ done (sess, v)
      → HasActionToken hash faults r now s sess v
  unfolding action_token_vault raw_token
  action_token-done bearer h = go s.token_fails h
    where
      go :
          (b : Bool)
          → accept_vault s (
              if b
              then refused backend
              else done (unexpired now (lookup (hash (raw_token r.authorization)) s.action_tokens)))
            ≡ done (sess, v)
          → HasActionToken hash faults r now s sess v
      go true h' = absurd (cc h')
      go false h' =
          let (vid, e₁, h₁) = accept_vault-done s _ h' in
          let (token, e₂, in_time, e₃) = unexpired-some now _ e₁ in
          let (row, e₄, plain, same, no_key) = accept_plain-done vid _ h₁ in
          record {
            token = token;
            row = row;
            bearer = bearer;
            known = e₂;
            in_time = in_time;
            has_vault = ap (λ w. lookup w s.vaults) (sym same) ∙ e₄;
            of_vault = e₃ ∙ same;
            plain = plain;
            no_key = no_key;
          }

  or_action_token-done :
      (o : Outcome (Session U))
      → (touch hash faults (raw_token r.authorization) now s.sess).0 ≡ o
      → HasBearer r
      → or_action_token hash faults (raw_token r.authorization) now s o ≡ done (sess, v)
      → HasSession hash faults r now s sess v ⊎ HasActionToken hash faults r now s sess v
  unfolding raw_token
  or_action_token-done (done t) e bearer h =
      let (same, of_session) = with_vault-done (done t) h in
      inl (record {
        token = raw_token r.authorization;
        shown = inl (bearer, refl);
        touched = e ∙ same;
        of_session = of_session;
      })
  or_action_token-done (refused x) e bearer h = inr (action_token-done bearer h)

  -- A request is let in only with the token that it shows: behind the word of a bearer header, where
  -- there is one, else in the header of its own. This is a session token that the manager finds good,
  -- or, under a bearer header, an action token that has not expired, of a vault without encryption;
  -- then the request has no data key. It is let in to the vault of that token.
  pub require_vault_auth_sound :
      (require_vault_auth hash faults r now s).0 ≡ done (sess, v)
      → HasSession hash faults r now s sess v ⊎ HasActionToken hash faults r now s sess v
  unfolding require_vault_auth is_bearer
  require_vault_auth_sound h = go (is_bearer r.authorization) refl h
    where
      go :
          (b : Bool)
          → is_bearer r.authorization ≡ b
          → (if◌then◌else◌ {A = Outcome (Session U × U) × Server U} b
              (
                or_action_token hash faults
                    (raw_token r.authorization)
                    now
                    s
                    (touch hash faults (raw_token r.authorization) now s.sess).0,
                record s { sess = (touch hash faults (raw_token r.authorization) now s.sess).1 },
              )
              (
                with_vault (require_session hash faults r now s).0,
                record s { sess = (require_session hash faults r now s).1 },
              )).0
            ≡ done (sess, v)
          → HasSession hash faults r now s sess v ⊎ HasActionToken hash faults r now s sess v
      go true bearer h' = or_action_token-done _ refl bearer h'
      go false bearer h' =
          let (e, of_session) = with_vault-done _ h' in
          inl (record {
            token = session_from_request r;
            shown = inr (bearer, no_bearer-session_from_request r bearer);
            touched = require_session-done hash faults r now s e;
            of_session = of_session;
          })
