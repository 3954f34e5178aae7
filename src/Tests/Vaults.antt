-- ===== src/Tests/Vaults.antt =====
-- Vaults at concrete inputs: making, unlocking, action tokens and interleaved requests.
use ghost_vault.Prelude.{
  ℕ, ◌+◌, ◌≤◌, ◌<◌, ◌≡◌, refl, true, false, none, some, List, [], ◌∷◌, lookup, insert, arith,
}
use ghost_vault.Prelude.Int.{pos}
use ghost_vault.Text.{codes, text_beq, is_space, trim_left, trim_right, trim_space}
use ghost_vault.Auth.{Session}
use ghost_vault.Auth.Manager.{
  unauthorized, Manager, done, refused, new_manager, is_valid_auth_mode, touch, touch_cold,
  touch_row, find_row_of_token, refresh,
}
use ghost_vault.Crypto.{returned, new_dek}
use ghost_vault.Core.Ingest.{is_blank}
use ghost_vault.Api.{
  Request, Server, keyless, session_from_request, require_session, require_vault_auth, is_bearer,
}
use ghost_vault.Api.Vaults.{
  Response, answer, decoded, at_eof, malformed, BodyRead, Io, InitBody, VaultCreated, Unlocked,
  is_api_keys, mode_or_session, vault_init, vault_unlock, MintBody, Minted, mint_action_token,
  insert_action_token, ttl_or_hour, in_nanoseconds,
}
use ghost_vault.Api.Vaults.Unlocking.{session_header, require_vault_auth-unlock}
use ghost_vault.Api.Vaults.Minting.{require_vault_auth-mint}
use ghost_vault.Api.Vaults.Racing.{Racing, Reach, vaults_of, init_all, init_all_le, racing}
use ghost_vault.Api.Scopes.{rescoped_server, scopes_irrelevant}
use ghost_vault.Extern.{eq_of_uuids}
use ghost_vault.Tests.Data.{nat_uuids, ascii_casing}
use ghost_vault.Tests.Keys.{marked, marked-IsPrimitives, marked-IsFull}
use ghost_vault.Tests.Requests.{hash, no_faults, plain_vault, request, server}

abbrev io : Io ℕ
io = record {
  any_fails = false;
  vault_insert_fails = false;
  token_insert_fails = false;
  new_id = 7;
  token = some (codes "t");
}

abbrev manager : Manager ℕ
manager = new_manager 40 100 true none

abbrev empty : Server ℕ
empty = record {
  sess = manager;
  action_tokens = [];
  vaults = [];
  token_fails = false;
  vault_fails = false;
}

abbrev body : InitBody
body = record { password = codes "secret"; auth_mode = [] }

abbrev inited : Response (VaultCreated ℕ) × Server ℕ
inited = vault_init io marked true (decoded body) empty

abbrev unlocked : Response (Unlocked ℕ) × Server ℕ
unlocked = vault_unlock hash no_faults io 10 marked (decoded (codes "secret")) inited.1

session_mode : mode_or_session [] ≡ codes "session"
unfolding mode_or_session trim_space trim_left trim_right is_space
session_mode = refl

known_mode : is_valid_auth_mode (mode_or_session []) ≡ true
unfolding mode_or_session is_valid_auth_mode text_beq trim_space trim_left trim_right is_space
known_mode = refl

blank : is_blank (codes "secret") ≡ false
unfolding trim_space trim_left trim_right is_space
blank = refl

api_keys : is_api_keys (mode_or_session []) ≡ false
unfolding mode_or_session text_beq trim_space trim_left trim_right is_space
api_keys = refl

require_vault_auth-unlock_example :
    (dek : List ℕ) × (sess : Session ℕ) × (new_dek marked ≡ returned dek)
    × (inited.0
        ≡ answer 201
            (record { vault_id = 7; encryption_enabled = true; auth_mode = mode_or_session [] }))
    × (unlocked.0
        ≡ answer 200 (record {
          session_token = codes "t";
          vault_id = 7;
          encryption_enabled = true;
          auth_mode = mode_or_session [];
        }))
    × ((require_vault_auth hash no_faults
          (record { authorization = []; ghost_session = codes "t" })
          20
          unlocked.1).0
        ≡ done (sess, 7))
    × (sess.dek ≡ dek)
require_vault_auth-unlock_example =
    require_vault_auth-unlock hash marked no_faults no_faults io (codes "t") manager [] false false
      marked-IsPrimitives marked-IsFull body 10 20 refl refl refl refl refl blank known_mode
      api_keys (omega arith) (omega arith)

-- Three requests, one of them with encryption off and no body.
abbrev calls : List (Io ℕ × BodyRead InitBody)
calls = (io, malformed) ∷ (io, at_eof) ∷ (record io { new_id = 8 }, decoded body) ∷ []

init_all_le_example : vaults_of (init_all marked false calls empty) ≤ 1
init_all_le_example = init_all_le marked false calls empty (omega arith)

racing_example :
    (t : Racing ℕ) × Reach marked false (record empty { vaults = [] }) t × (vaults_of t.server ≡ 3)
racing_example = racing marked (λ n. n) (λ a b h. h) empty 3

abbrev minting : MintBody
minting = record { scopes = []; ttl_sec = pos 0 }

-- A session of the vault without encryption, opened at 10.
abbrev plain_session : Session ℕ
plain_session = record {
  vault_id = 7;
  dek = [];
  expires_at = 50;
  max_until = 110;
  last_seen = 10;
  idle = 40;
  token_hash = codes "t";
}

abbrev plain_server : Server ℕ
plain_server = record empty {
  sess = record manager { sessions = (codes "t", plain_session) ∷ [] };
  vaults = (7, plain_vault) ∷ [];
}

abbrev minting_io : Io ℕ
minting_io = record io { token = some (codes "act") }

abbrev minting_request : Request
minting_request =
    session_header hash marked no_faults no_faults io (codes "t") manager [] false false

abbrev minted : Minted
minted = record { token = codes "act"; expires_in_seconds = 3600 }

abbrev after_mint : Response Minted × Server ℕ
after_mint =
    mint_action_token hash no_faults minting_io 20 minting_request (decoded minting) plain_server

held :
    (require_session hash no_faults minting_request 20 plain_server).0
    ≡ done (record plain_session { last_seen = 20; expires_at = 60 })
unfolding require_session session_from_request touch refresh is_bearer lookup text_beq
held = refl

was_minted : after_mint.0 ≡ answer 201 minted
unfolding mint_action_token require_session session_from_request touch refresh is_bearer lookup
    text_beq insert_action_token ttl_or_hour in_nanoseconds
was_minted = refl

no_session :
    (touch hash no_faults
      (codes "act")
      30
      (require_session hash no_faults minting_request 20 plain_server).1).0
    ≡ refused unauthorized
unfolding require_session session_from_request touch refresh is_bearer lookup text_beq touch_cold
    find_row_of_token insert touch_row
no_session = refl

trimmed : trim_space (codes "act") ≡ codes "act"
unfolding trim_space trim_left trim_right is_space
trimmed = refl

in_time : 30 < 20 + ttl_or_hour (in_nanoseconds (pos 0))
unfolding ttl_or_hour in_nanoseconds
in_time = omega arith

vault_known : lookup 7 plain_server.vaults ≡ some plain_vault
unfolding lookup
vault_known = refl

require_vault_auth-mint_example :
    (require_vault_auth hash no_faults
      (record { authorization = codes "Bearer act"; ghost_session = [] })
      30
      after_mint.1).0
    ≡ done (keyless 7, 7)
require_vault_auth-mint_example =
    require_vault_auth-mint hash no_faults no_faults minting_io 20 minting_request minting
      plain_server (record plain_session { last_seen = 20; expires_at = 60 }) minted plain_vault 30
      held was_minted vault_known refl refl refl trimmed no_session in_time

scopes_irrelevant_example :
    (require_vault_auth hash no_faults request 20
      (rescoped_server hash no_faults (codes "none" ∷ []) request 20 server)).0
    ≡ (require_vault_auth hash no_faults request 20 server).0
scopes_irrelevant_example = scopes_irrelevant hash no_faults (codes "none" ∷ []) request 20 server
