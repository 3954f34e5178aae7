-- ===== src/Api/Vaults/Minting.antt =====
-- internal/api/handlers.go: what a minted action token is good for.
use ghost_vault.Prelude.{
  ℕ, ◌+◌, ◌<◌, ◌≡◌, refl, sym, ap, ◌∙◌, Bool, true, false, if◌then◌else◌, ltb, lt→ltb, Option, none,
  some, List, [], ◌++◌, lookup, insert, lookup-insert, beq_refl, arith,
}
use ghost_vault.Text.{Text, text_eq, codes, Casing, trim_space}
use ghost_vault.Extern.{Uuids, eq_of_uuids}
use ghost_vault.Auth.{Session}
use ghost_vault.Auth.Manager.{AuthError, Outcome, done, refused, Faults, touch}
use ghost_vault.Api.{
  Request, ActionToken, VaultRow, Server, is_bearer, raw_token, keyless, action_token_vault,
  accept_vault, require_session, require_vault_auth,
}
use ghost_vault.Api.Vaults.{
  Response, answer, problem, decoded, Io, MintBody, Minted, in_nanoseconds, ttl_or_hour,
  scopes_or_default, insert_action_token, mint_token, mint_for, mint_action_token,
  is_known_encrypted,
}

module _ ⦃u : Casing⦄ where
  abbrev pub bearer_header : Text → Request
  bearer_header token = record { authorization = codes "Bearer " ++ token; ghost_session = [] }

  pub is_bearer-header : (token : Text) → is_bearer (codes "Bearer " ++ token) ≡ true
  unfolding is_bearer
  is_bearer-header token =
      rw
        (
          u.lower_ascii b'B' (omega arith),
          u.lower_ascii b'e' (omega arith),
          u.lower_ascii b'a' (omega arith),
          u.lower_ascii b'r' (omega arith),
          u.lower_ascii b' ' (omega arith),
        )
        refl

  pub raw_token-header : (token : Text) → raw_token (codes "Bearer " ++ token) ≡ trim_space token
  unfolding raw_token
  raw_token-header token = refl

module _ {U : Type 0} ⦃i : Uuids U⦄ ⦃u : Casing⦄ (hash : Text → List ℕ) (f g : Faults) (io : Io U)
    (now : ℕ) where
  -- The action token that is stored.
  abbrev pub stored_token : U → MintBody → ActionToken U
  stored_token vault b = record {
    vault_id = vault;
    scopes = scopes_or_default b.scopes;
    expires_at = now + ttl_or_hour (in_nanoseconds b.ttl_sec);
  }

  insert-minted :
      (vault : U) (b : MintBody) (raw : Text) (s : Server U) {minted : Minted}
      → (insert_action_token hash f io now vault b raw s).0 ≡ answer 201 minted
      → (raw ≡ minted.token)
        × ((insert_action_token hash f io now vault b raw s).1
            ≡ record s { action_tokens = insert (hash raw) (stored_token vault b) s.action_tokens })
  unfolding insert_action_token
  insert-minted vault b raw s h = ground (arith, h)

  mint_for-minted :
      (sess : Session U) (b : MintBody) (s : Server U) {minted : Minted}
      → (mint_for hash f io now (done sess) (decoded b) s).0 ≡ answer 201 minted
      → (mint_for hash f io now (done sess) (decoded b) s).1 ≡ record s {
        action_tokens = insert (hash minted.token) (stored_token sess.vault_id b) s.action_tokens;
      }
  mint_for-minted sess b s {minted} h =
      go (is_known_encrypted s (lookup sess.vault_id s.vaults)) io.token h
    where
      after : Server U
      after = record s {
        action_tokens = insert (hash minted.token) (stored_token sess.vault_id b) s.action_tokens;
      }

      go :
          (known : Bool) (o : Option Text)
          → (if◌then◌else◌ {A = Response Minted × Server U} known
              (problem 400 (codes "token"), s)
              (mint_token hash f io now sess.vault_id b o s)).0
            ≡ answer 201 minted
          → (if◌then◌else◌ {A = Response Minted × Server U} known
              (problem 400 (codes "token"), s)
              (mint_token hash f io now sess.vault_id b o s)).1
            ≡ after
      go true o h' = absurd (cc h')
      go false none h' = absurd (cc h')
      go false (some raw) h' =
          let (same, e) = insert-minted sess.vault_id b raw s h' in
          e
          ∙ ap
              (λ t. record s {
                action_tokens = insert (hash t) (stored_token sess.vault_id b) s.action_tokens;
              })
              same

  accept_vault-known :
      (s : Server U) (vid : U) (row : VaultRow)
      → s.vault_fails ≡ false
      → lookup vid s.vaults ≡ some row
      → row.encryption_enabled ≡ false
      → accept_vault s (done (some vid)) ≡ done (keyless vid, vid)
  accept_vault-known s vid row read found plain = rw (read, found, plain) refl

  action_token_vault-known :
      (s : Server U) (raw : Text) (t : ActionToken U) (later : ℕ)
      → s.token_fails ≡ false
      → lookup (hash raw) s.action_tokens ≡ some t
      → ltb later t.expires_at ≡ true
      → action_token_vault hash g raw later s ≡ done (some t.vault_id)
  unfolding action_token_vault
  action_token_vault-known s raw t later read found fresh = rw (read, found, fresh) refl

  require_vault_auth-bearer :
      (r : Request) (later : ℕ) (s : Server U) {e : AuthError}
      → is_bearer r.authorization ≡ true
      → (touch hash g (raw_token r.authorization) later s.sess).0 ≡ refused e
      → (require_vault_auth hash g r later s).0
        ≡ accept_vault s (action_token_vault hash g (raw_token r.authorization) later s)
  unfolding require_vault_auth
  require_vault_auth-bearer r later s bearer h = rw (bearer, h) refl

  -- The table of action tokens after a token was minted.
  abbrev pub with_token : Session U → MintBody → Text → Server U → Server U
  with_token sess b token s = record s {
    action_tokens = insert (hash token) (stored_token sess.vault_id b) s.action_tokens;
  }

  accepted :
      (sess : Session U) (b : MintBody) (token : Text) (row : VaultRow) (later : ℕ) (s : Server U)
      {e : AuthError}
      → lookup sess.vault_id s.vaults ≡ some row
      → row.encryption_enabled ≡ false
      → s.token_fails ≡ false
      → s.vault_fails ≡ false
      → trim_space token ≡ token
      → (touch hash g token later s.sess).0 ≡ refused e
      → later < now + ttl_or_hour (in_nanoseconds b.ttl_sec)
      → (require_vault_auth hash g (bearer_header token) later (with_token sess b token s)).0
        ≡ done (keyless sess.vault_id, sess.vault_id)
  accepted sess b token row later s known plain reads_tokens reads_vaults trimmed not_session
        fresh =
      let s₂ = with_token sess b token s in
      let raw = raw_token-header token ∙ trimmed in
      let held : lookup (hash token) s₂.action_tokens ≡ some (stored_token sess.vault_id b) =
        lookup-insert (hash token) (hash token) _ s.action_tokens
        ∙ rw (beq_refl (hash token)) refl in
      require_vault_auth-bearer (bearer_header token) later s₂ (is_bearer-header token)
        (ap (λ t. (touch hash g t later s.sess).0) raw ∙ not_session)
      ∙ ap (λ t. accept_vault s₂ (action_token_vault hash g t later s₂)) raw
      ∙ ap (accept_vault s₂) (
          action_token_vault-known s₂ token (stored_token sess.vault_id b) later reads_tokens held
            (lt→ltb _ _ fresh))
      ∙ accept_vault-known s₂ sess.vault_id row reads_vaults known plain

  -- A token that was minted for a session of an unencrypted vault lets its bearer in to that vault,
  -- without a data key, until it expires, where it is not a session token too.
  pub require_vault_auth-mint :
      (r : Request) (b : MintBody) (s : Server U) (sess : Session U) (minted : Minted)
      (row : VaultRow) (later : ℕ) {e : AuthError}
      → (require_session hash f r now s).0 ≡ done sess
      → (mint_action_token hash f io now r (decoded b) s).0 ≡ answer 201 minted
      → lookup sess.vault_id s.vaults ≡ some row
      → row.encryption_enabled ≡ false
      → s.token_fails ≡ false
      → s.vault_fails ≡ false
      → trim_space minted.token ≡ minted.token
      → (touch hash g minted.token later (require_session hash f r now s).1).0 ≡ refused e
      → later < now + ttl_or_hour (in_nanoseconds b.ttl_sec)
      → (require_vault_auth hash g
          (bearer_header minted.token)
          later
          (mint_action_token hash f io now r (decoded b) s).1).0
        ≡ done (keyless sess.vault_id, sess.vault_id)
  unfolding mint_action_token
  require_vault_auth-mint r b s sess minted row later found h known plain reads_tokens reads_vaults
        trimmed not_session fresh =
      let s₁ : Server U = record s { sess = (require_session hash f r now s).1 } in
      let mint = λ (o : Outcome (Session U)). mint_for hash f io now o (decoded b) s₁ in
      let stored =
        ap (λ o. (mint o).1) found
        ∙ mint_for-minted sess b s₁ (sym (ap (λ o. (mint o).0) found) ∙ h) in
      ap (λ t. (require_vault_auth hash g (bearer_header minted.token) later t).0) stored
      ∙ accepted sess b minted.token row later s₁ known plain reads_tokens reads_vaults trimmed
          not_session fresh
