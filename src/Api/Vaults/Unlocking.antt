-- ===== src/Api/Vaults/Unlocking.antt =====
-- internal/api/handlers.go: from a new vault to a request that is let in.
use ghost_vault.Prelude.{
  ℕ, ◌+◌, ◌%◌, ◌^◌, ◌≤◌, ◌≡◌, refl, ap, ◌∙◌, Bool, true, false, ◌&&◌, some, List, [], ◌∷◌, Assoc,
  lookup, insert, lookup-insert, beq_refl, arith,
}
use ghost_vault.Text.{Text, text_eq, Casing, is_empty}
use ghost_vault.Extern.{Uuids, eq_of_uuids}
use ghost_vault.Auth.{Session}
use ghost_vault.Auth.Manager.{
  Outcome, done, refused, Manager, Faults, create_session, is_stale, refresh, touch,
  is_valid_auth_mode,
}
use ghost_vault.Auth.Lifetime.{touch-found}
use ghost_vault.Crypto.{returned, Primitives, WrappedDek, new_dek, wrap_dek, unwrap_dek, ◌>>=◌}
use ghost_vault.Crypto.Wrapping.{IsPrimitives, IsFull, wrapped_for_argon}
use ghost_vault.Core.Ingest.{is_blank}
use ghost_vault.Api.{
  Request, ActionToken, VaultRow, Server, is_bearer, session_from_request, with_vault,
  require_session, require_vault_auth,
}
use ghost_vault.Api.Vaults.{
  answer, decoded, session_answer, Io, InitBody, mode_or_session, is_api_keys, wrapped_row,
  insert_vault, init_with, vault_init, unlock_vault, vault_unlock,
}

fresh :
    (now later idle max : ℕ)
    → later ≤ now + max
    → later ≤ now + idle
    → is_stale later (now + max) now idle ≡ false
fresh now later idle max h h' = ground arith

done-inj : {A : Type 0} {a b : A} → done a ≡ done b → a ≡ b
done-inj h = cc h

module _ {U : Type 0} (hash : Text → List ℕ) (f g : Faults) (token : Text) where
  -- The session that CreateSession puts into the map.
  abbrev pub created : U → List ℕ → ℕ → Manager U → Session U
  created vault dek now m = record {
    vault_id = vault;
    dek = dek;
    expires_at = now + m.idle;
    max_until = now + m.max;
    last_seen = now;
    idle = m.idle;
    token_hash = hash token;
  }

  pub create_session-done :
      (vault : U) (dek : List ℕ) (now : ℕ) (m : Manager U)
      → f.insert_fails ≡ false
      → ((create_session hash f vault dek now token m).0 ≡ done token)
        × (lookup token (create_session hash f vault dek now token m).1.sessions
            ≡ some (created vault dek now m))
  unfolding create_session
  create_session-done vault dek now m h =
      let e : (m.has_store && f.insert_fails) ≡ false = ground (arith, h) in
      rw e (refl, lookup-insert token token _ m.sessions ∙ rw (beq_refl token) refl)

  -- A session works from its creation until its idle time or its last moment.
  pub touch-create_session :
      (vault : U) (dek : List ℕ) (now later : ℕ) (m : Manager U)
      → f.insert_fails ≡ false
      → is_empty token ≡ false
      → later ≤ now + m.max
      → later ≤ now + m.idle
      → (touch hash g token later (create_session hash f vault dek now token m).1).0
        ≡ done (record (created vault dek now m) { last_seen = later; expires_at = later + m.idle })
  unfolding refresh
  touch-create_session vault dek now later m inserted named within idle =
      let (_, found) = create_session-done vault dek now m inserted in
      rw
        (
          touch-found hash g token later (create_session hash f vault dek now token m).1 named,
          found,
          fresh now later m.idle m.max within idle,
          refresh,
        )
        refl

module _ {U : Type 0} ⦃i : Uuids U⦄ ⦃u : Casing⦄ (hash : Text → List ℕ) (g : Faults) (now : ℕ)
    (s : Server U) where
  session_from_request-header :
      (token : Text)
      → is_empty token ≡ false
      → session_from_request (record { authorization = []; ghost_session = token }) ≡ token
  unfolding session_from_request
  session_from_request-header token h = rw h refl

  require_session-touch :
      (r : Request) (token : Text)
      → session_from_request r ≡ token
      → is_empty token ≡ false
      → require_session hash g r now s ≡ touch hash g token now s.sess
  unfolding require_session
  require_session-touch r token e h = rw (e, h) refl

  without_bearer :
      (r : Request)
      → is_bearer r.authorization ≡ false
      → (require_vault_auth hash g r now s).0 ≡ with_vault (require_session hash g r now s).0
  unfolding require_vault_auth
  without_bearer r h = rw h refl

  -- A session token in its own header is let in to its vault.
  pub require_vault_auth-header :
      (token : Text) {sess : Session U}
      → is_empty token ≡ false
      → (touch hash g token now s.sess).0 ≡ done sess
      → (require_vault_auth hash g (record { authorization = []; ghost_session = token }) now s).0
        ≡ done (sess, sess.vault_id)
  unfolding is_bearer
  require_vault_auth-header token named h =
      without_bearer (record { authorization = []; ghost_session = token }) refl
      ∙ ap (λ r. with_vault r.0)
          (require_session-touch _ token (session_from_request-header token named) named)
      ∙ ap with_vault h

module _ {U : Type 0} ⦃i : Uuids U⦄ ⦃u : Casing⦄ (hash : Text → List ℕ) (lib : Primitives)
    (f g : Faults) (io : Io U) (token : Text) (m : Manager U)
    (tokens : Assoc (List ℕ) (ActionToken U)) (token_fails vault_fails : Bool) where
  abbrev pub no_vault : Server U
  no_vault = record {
    sess = m;
    action_tokens = tokens;
    vaults = [];
    token_fails = token_fails;
    vault_fails = vault_fails;
  }

  abbrev pub one_vault : VaultRow → Server U
  one_vault v = record no_vault { vaults = (io.new_id, v) ∷ [] }

  abbrev pub session_header : Request
  session_header = record { authorization = []; ghost_session = token }

  init-done :
      (b : InitBody) (w : WrappedDek)
      → io.any_fails ≡ false
      → io.vault_insert_fails ≡ false
      → is_blank b.password ≡ false
      → is_valid_auth_mode (mode_or_session b.auth_mode) ≡ true
      → is_api_keys (mode_or_session b.auth_mode) ≡ false
      → (new_dek lib >>= λ dek. wrap_dek lib b.password dek) ≡ returned w
      → vault_init io lib true (decoded b) no_vault ≡ (
        answer 201 (record {
          vault_id = io.new_id;
          encryption_enabled = true;
          auth_mode = mode_or_session b.auth_mode;
        }),
        one_vault (wrapped_row (mode_or_session b.auth_mode) w),
      )
  unfolding vault_init init_with insert_vault insert
  init-done b w any inserted password valid mode e =
      rw (any, password, valid, mode, e, inserted) refl

  session_answer-done :
      (id : U) (v : VaultRow) (s : Server U) (p : Outcome Text × Manager U)
      → p.0 ≡ done token
      → session_answer hash f io 0 id v s p ≡ (
        answer 200 (record {
          session_token = token;
          vault_id = id;
          encryption_enabled = v.encryption_enabled;
          auth_mode = v.auth_mode;
        }),
        record s { sess = p.1 },
      )
  session_answer-done id v s (done t, m') h = rw (done-inj h) refl
  session_answer-done id v s (refused e, m') h = absurd (cc h)

  unlock-done :
      (mode password : Text) (w : WrappedDek) (dek : List ℕ) (now : ℕ)
      → io.any_fails ≡ false
      → io.token ≡ some token
      → is_blank password ≡ false
      → is_api_keys mode ≡ false
      → w.parallelism ≡ 4
      → unwrap_dek lib password w ≡ returned dek
      → vault_unlock hash f io now lib (decoded password) (one_vault (wrapped_row mode w))
        ≡ session_answer hash f io now io.new_id
            (wrapped_row mode w)
            (one_vault (wrapped_row mode w))
            (create_session hash f io.new_id dek now token m)
  unfolding vault_unlock unlock_vault
  unlock-done mode password w dek now any drawn blank kind threads e =
      let eight : w.parallelism % 2 ^ 8 ≡ w.parallelism = omega (arith, threads) in
      rw (any, kind, blank, eight, e, drawn) refl

  -- From a password, an initialised vault and its unlocking to a request that is let in: on a server
  -- without a vault, with encryption on, where no statement and no random read fails, `vault_init`
  -- makes a vault under the password, which is not blank; `vault_unlock` with the same password gives
  -- the token that was drawn; and a request that shows the token within the idle time and the last
  -- moment is let in to this vault, with the data key that was made for it.
  pub require_vault_auth-unlock :
      IsPrimitives lib
      → IsFull lib
      → (b : InitBody) (opened later : ℕ) → io.any_fails ≡ false
      → io.vault_insert_fails ≡ false
      → io.token ≡ some token
      → f.insert_fails ≡ false
      → is_empty token ≡ false
      → is_blank b.password ≡ false
      → is_valid_auth_mode (mode_or_session b.auth_mode) ≡ true
      → is_api_keys (mode_or_session b.auth_mode) ≡ false
      → later ≤ opened + m.max
      → later ≤ opened + m.idle
      → (dek : List ℕ) × (sess : Session U) × (new_dek lib ≡ returned dek)
        × ((vault_init io lib true (decoded b) no_vault).0
            ≡ answer 201 (record {
              vault_id = io.new_id;
              encryption_enabled = true;
              auth_mode = mode_or_session b.auth_mode;
            }))
        × ((vault_unlock hash f io opened lib
              (decoded b.password)
              (vault_init io lib true (decoded b) no_vault).1).0
            ≡ answer 200 (record {
              session_token = token;
              vault_id = io.new_id;
              encryption_enabled = true;
              auth_mode = mode_or_session b.auth_mode;
            }))
        × ((require_vault_auth hash g session_header later
              (vault_unlock hash f io opened lib
                (decoded b.password)
                (vault_init io lib true (decoded b) no_vault).1).1).0
            ≡ done (sess, io.new_id))
        × (sess.dek ≡ dek)
  unfolding new_dek
  require_vault_auth-unlock laws full b opened later any inserted drawn saved named password valid
        mode within idle =
      let (dek, read, _) = full.reads 0 32 in
      let (w, wrapped, unwrapped, threads) = wrapped_for_argon lib laws full b.password dek in
      let new : new_dek lib ≡ returned dek = rw read refl in
      let chain : (new_dek lib >>= λ dek. wrap_dek lib b.password dek) ≡ returned w =
        rw new wrapped in
      let made = init-done b w any inserted password valid mode chain in
      let (token_drawn, _) = create_session-done hash f g token io.new_id dek opened m saved in
      let row = wrapped_row (mode_or_session b.auth_mode) w in
      let unlocked =
        unlock-done (mode_or_session b.auth_mode) b.password w dek opened any drawn password mode
          threads unwrapped
        ∙ session_answer-done io.new_id row (one_vault row) _ token_drawn in
      let unlock = vault_unlock hash f io opened lib (decoded b.password) in
      let same = ap (λ r. r.1) made in
      (
        dek,
        record (created hash f g token io.new_id dek opened m) {
          last_seen = later;
          expires_at = later + m.idle;
        },
        new,
        ap (λ r. r.0) made,
        ap (λ s. (unlock s).0) same ∙ ap (λ r. r.0) unlocked,
        ap (λ s. (require_vault_auth hash g session_header later s).0)
              (ap (λ s. (unlock s).1) same ∙ ap (λ r. r.1) unlocked)
            ∙ require_vault_auth-header hash g later _ token named (
                touch-create_session hash f g token io.new_id dek opened later m saved named within
                  idle),
        refl,
      )
