-- ===== src/Api/Vaults.antt =====
-- internal/api/handlers.go: vaultInit, vaultUnlock, vaultLock and mintActionToken, on the table of
-- vaults, the session manager and the table of action tokens. A problem is its status and its code;
-- its other texts are not modelled.
pub mod Unlocking
pub mod Minting
pub mod Racing
use ghost_vault.Prelude.{
  ℕ, ◌+◌, ◌-◌, ◌*◌, ◌/◌, ◌%◌, ◌^◌, ltb, Bool, true, false, not, ◌&&◌, if◌then◌else◌, Option, none,
  some, List, [], ◌∷◌, Assoc, lookup, insert,
}
use ghost_vault.Prelude.Int.{ℤ, pos, negsuc, pos_part, wrap64}
use ghost_vault.Text.{Text, text_eq, Casing, codes, is_empty, text_beq, trim_space}
use ghost_vault.Extern.{Uuids, eq_of_uuids}
use ghost_vault.Auth.{Session}
use ghost_vault.Auth.Manager.{
  AuthError, Outcome, done, refused, Manager, Faults, create_session, invalidate,
  is_valid_auth_mode,
}
use ghost_vault.Crypto.{
  Attempt, returned, failed, panicked, Primitives, WrappedDek, new_dek, wrap_dek, unwrap_dek, ◌>>=◌,
}
use ghost_vault.Core.Ingest.{is_blank}
use ghost_vault.Api.{
  Request, VaultRow, Server, session_from_request, write_auth_problem, require_session,
}

pub data Response (A : Type 0) : Type 0 where
  problem : ℕ → Text → Response A
  answer : ℕ → A → Response A

-- Decoding a JSON body; an empty one gives io.EOF.
pub data BodyRead (A : Type 0) : Type 0 where
  decoded : A → BodyRead A
  at_eof malformed : BodyRead A

-- What a call of a handler meets: the statements that fail, the id and the token that are drawn.
pub record Io (U : Type 0) : Type 0 where
  pub any_fails : Bool
  pub vault_insert_fails : Bool
  pub token_insert_fails : Bool
  pub new_id : U
  pub token : Option Text

pub record InitBody : Type 0 where
  pub password : Text
  pub auth_mode : Text

pub record VaultCreated (U : Type 0) : Type 0 where
  pub vault_id : U
  pub encryption_enabled : Bool
  pub auth_mode : Text

pub record Unlocked (U : Type 0) : Type 0 where
  pub session_token : Text
  pub vault_id : U
  pub encryption_enabled : Bool
  pub auth_mode : Text

pub record MintBody : Type 0 where
  pub scopes : List Text
  pub ttl_sec : ℤ

pub record Minted : Type 0 where
  pub token : Text
  pub expires_in_seconds : ℕ

-- `GetAnyVault`: the oldest row.
abbrev pub get_any_vault : {U : Type 0} → Assoc U VaultRow → Option (U × VaultRow)
get_any_vault [] = none
get_any_vault (v ∷ vs) = some v

unfoldable pub mode_or_session : Text → Text
mode_or_session s = let mode = trim_space s in if is_empty mode then codes "session" else mode

abbrev pub is_api_keys : Text → Bool
is_api_keys mode = text_beq mode (codes "api_keys")

abbrev pub plain_row : Text → VaultRow
plain_row mode = record {
  encryption_enabled = false;
  auth_mode = mode;
  argon_time = none;
  argon_memory_kb = none;
  argon_parallelism = none;
  argon_salt = [];
  wrapped_dek = [];
}

abbrev pub wrapped_row : Text → WrappedDek → VaultRow
wrapped_row mode w = record {
  encryption_enabled = true;
  auth_mode = mode;
  argon_time = some w.time_cost;
  argon_memory_kb = some w.memory_kb;
  argon_parallelism = some w.parallelism;
  argon_salt = w.salt;
  wrapped_dek = w.blob;
}

-- `uint8(*v.ArgonParallelism)` keeps eight bits.
abbrev pub kdf_of : VaultRow → Option ℕ → Option ℕ → Option ℕ → Option WrappedDek
kdf_of v (some time) (some memory) (some threads) = some (record {
  salt = v.argon_salt;
  time_cost = time;
  memory_kb = memory;
  parallelism = threads % 2 ^ 8;
  blob = v.wrapped_dek;
})
kdf_of v _ _ _ = none

-- `time.Duration(seconds) * time.Second`, which wraps.
unfoldable pub in_nanoseconds : ℤ → ℤ
in_nanoseconds (pos n) = wrap64 (n * 10 ^ 9)
in_nanoseconds (negsuc n) = wrap64 (2 ^ 64 - ((n + 1) * 10 ^ 9) % 2 ^ 64)

-- A duration that is not positive is replaced by an hour.
unfoldable pub ttl_or_hour : ℤ → ℕ
ttl_or_hour d = if ltb 0 (pos_part d) then pos_part d else 3600 * 10 ^ 9

abbrev pub scopes_or_default : List Text → List Text
scopes_or_default [] = codes "retrieve" ∷ codes "ingest" ∷ []
scopes_or_default (c ∷ cs) = c ∷ cs

module _ {U : Type 0} ⦃i : Uuids U⦄ (io : Io U) where
  -- `InsertVault`, and the answer.
  unfoldable pub insert_vault : VaultRow → Server U → Response (VaultCreated U) × Server U
  insert_vault row s = if io.vault_insert_fails then (problem 500 (codes "store"), s) else (
    answer 201 (record {
      vault_id = io.new_id;
      encryption_enabled = row.encryption_enabled;
      auth_mode = row.auth_mode;
    }),
    record s { vaults = insert io.new_id row s.vaults },
  )

  module _ (lib : Primitives) (encryption_on : Bool) where
    abbrev pub insert_wrapped :
        Text → Server U → Attempt WrappedDek → Response (VaultCreated U) × Server U
    insert_wrapped mode s (returned w) = insert_vault (wrapped_row mode w) s
    insert_wrapped mode s (failed e) = (problem 500 (codes "crypto"), s)
    insert_wrapped mode s panicked = (problem 500 (codes "internal"), s)

    abbrev pub insert_mode : Bool → Text → Text → Server U → Response (VaultCreated U) × Server U
    insert_mode true mode password s =
        insert_wrapped mode s (new_dek lib >>= λ dek. wrap_dek lib password dek)
    insert_mode false mode password s = insert_vault (plain_row mode) s

    -- vaultInit, once the body is read.
    unfoldable pub init_with : InitBody → Server U → Response (VaultCreated U) × Server U
    init_with b s =
        let mode = mode_or_session b.auth_mode in
        if encryption_on && is_blank b.password
        then (problem 400 (codes "password"), s)
        else if not (is_valid_auth_mode mode)
        then (problem 400 (codes "invalid_auth_mode"), s)
        else if is_api_keys mode
        then (problem 400 (codes "mode_not_implemented"), s)
        else insert_mode encryption_on mode b.password s

    abbrev pub init_body : BodyRead InitBody → Server U → Response (VaultCreated U) × Server U
    init_body (decoded b) s = init_with b s
    init_body at_eof s = init_with (record { password = []; auth_mode = [] }) s
    init_body malformed s = (problem 400 (codes "json"), s)

    abbrev pub init_unless :
        Option (U × VaultRow) → BodyRead InitBody → Server U → Response (VaultCreated U) × Server U
    init_unless (some v) body s = (problem 409 (codes "vault_exists"), s)
    init_unless none body s = init_body body s

    unfoldable pub vault_init : BodyRead InitBody → Server U → Response (VaultCreated U) × Server U
    vault_init body s =
        if io.any_fails
        then (problem 500 (codes "store"), s)
        else init_unless (get_any_vault s.vaults) body s

module _ {U : Type 0} (hash : Text → List ℕ) (faults : Faults) (io : Io U) (now : ℕ) where
  abbrev pub session_answer :
      U → VaultRow → Server U → Outcome Text × Manager U → Response (Unlocked U) × Server U
  session_answer id v s (done token, m) = (
    answer 200 (record {
      session_token = token;
      vault_id = id;
      encryption_enabled = v.encryption_enabled;
      auth_mode = v.auth_mode;
    }),
    record s { sess = m },
  )
  session_answer id v s (refused e, m) = (problem 500 (codes "session"), record s { sess = m })

  -- `CreateSession`, which fails at once if no token can be drawn.
  abbrev pub open_session :
      Option Text → U → VaultRow → List ℕ → Server U → Response (Unlocked U) × Server U
  open_session none id v dek s = (problem 500 (codes "session"), s)
  open_session (some token) id v dek s =
      session_answer id v s (create_session hash faults id dek now token s.sess)

  abbrev pub unlock_unwrapped :
      U → VaultRow → Server U → Attempt (List ℕ) → Response (Unlocked U) × Server U
  unlock_unwrapped id v s (returned dek) = open_session io.token id v dek s
  unlock_unwrapped id v s (failed e) = (problem 401 (codes "auth"), s)
  unlock_unwrapped id v s panicked = (problem 500 (codes "internal"), s)

  module _ (lib : Primitives) where
    abbrev pub unlock_wrapped :
        U → VaultRow → Text → Option WrappedDek → Server U → Response (Unlocked U) × Server U
    unlock_wrapped id v password none s = (problem 500 (codes "vault"), s)
    unlock_wrapped id v password (some w) s = unlock_unwrapped id v s (unwrap_dek lib password w)

    abbrev pub unlock_with :
        U → VaultRow → BodyRead Text → Server U → Response (Unlocked U) × Server U
    unlock_with id v (decoded password) s =
        if is_blank password
        then (problem 400 (codes "password"), s)
        else unlock_wrapped id v password
            (kdf_of v v.argon_time v.argon_memory_kb v.argon_parallelism) s
    unlock_with id v _ s = (problem 400 (codes "password"), s)

    unfoldable pub unlock_vault :
        Option (U × VaultRow) → BodyRead Text → Server U → Response (Unlocked U) × Server U
    unlock_vault none body s = (problem 404 (codes "no_vault"), s)
    unlock_vault (some (id, v)) body s =
        if is_api_keys v.auth_mode
        then (problem 409 (codes "mode_mismatch"), s)
        else if v.encryption_enabled
        then unlock_with id v body s
        else open_session io.token id v [] s

    -- An error of `GetAnyVault` reads as no vault.
    unfoldable pub vault_unlock : BodyRead Text → Server U → Response (Unlocked U) × Server U
    vault_unlock body s =
        if io.any_fails
        then (problem 404 (codes "no_vault"), s)
        else unlock_vault (get_any_vault s.vaults) body s

module _ {U : Type 0} ⦃u : Casing⦄ (hash : Text → List ℕ) (faults : Faults) where
  unfoldable pub vault_lock : Request → Server U → Response (Unit {0}) × Server U
  vault_lock r s =
      let token = session_from_request r in
      if is_empty token
      then (problem 401 (codes "session"), s)
      else (answer 204 tt, record s { sess = invalidate hash faults token s.sess })

abbrev pub auth_problem : {A : Type 0} → AuthError → Response A
auth_problem e = let p = write_auth_problem e in problem p.0 p.2

-- `err == nil && vrow != nil && vrow.EncryptionEnabled`
abbrev pub is_known_encrypted : {U : Type 0} → Server U → Option VaultRow → Bool
is_known_encrypted s none = false
is_known_encrypted s (some row) = not s.vault_fails && row.encryption_enabled

module _ {U : Type 0} ⦃i : Uuids U⦄ ⦃u : Casing⦄ (hash : Text → List ℕ) (faults : Faults)
    (io : Io U) (now : ℕ) where
  unfoldable pub insert_action_token : U → MintBody → Text → Server U → Response Minted × Server U
  insert_action_token vault b raw s =
      let ttl = ttl_or_hour (in_nanoseconds b.ttl_sec) in
      if io.token_insert_fails then (problem 500 (codes "store"), s) else (
        answer 201 (record { token = raw; expires_in_seconds = ttl / 10 ^ 9 }),
        record s {
          action_tokens =
              insert (hash raw)
                (record {
                  vault_id = vault;
                  scopes = scopes_or_default b.scopes;
                  expires_at = now + ttl;
                })
                s.action_tokens;
        },
      )

  abbrev pub mint_token : U → MintBody → Option Text → Server U → Response Minted × Server U
  mint_token vault b none s = (problem 500 (codes "token"), s)
  mint_token vault b (some raw) s = insert_action_token vault b raw s

  abbrev pub mint_body : U → BodyRead MintBody → Server U → Response Minted × Server U
  mint_body vault (decoded b) s = mint_token vault b io.token s
  mint_body vault at_eof s = mint_token vault (record { scopes = []; ttl_sec = pos 0 }) io.token s
  mint_body vault malformed s = (problem 400 (codes "json"), s)

  abbrev pub mint_for :
      Outcome (Session U) → BodyRead MintBody → Server U → Response Minted × Server U
  mint_for (refused e) body s = (auth_problem e, s)
  mint_for (done sess) body s =
      if is_known_encrypted s (lookup sess.vault_id s.vaults)
      then (problem 400 (codes "token"), s)
      else mint_body sess.vault_id body s

  unfoldable pub mint_action_token :
      Request → BodyRead MintBody → Server U → Response Minted × Server U
  mint_action_token r body s =
      let found = require_session hash faults r now s in
      mint_for found.0 body (record s { sess = found.1 })
