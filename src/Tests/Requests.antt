-- ===== src/Tests/Requests.antt =====
-- Requests at concrete inputs: tokens are their own hashes.
use ghost_vault.Prelude.{ℕ, ◌≡◌, ◌⊎◌, refl, true, false, none, List, [], ◌∷◌, lookup}
use ghost_vault.Text.{Text, codes, text_beq, is_space, trim_left, trim_right, trim_space}
use ghost_vault.Auth.Manager.{
  Faults, new_manager, unauthorized, done, refused, touch, touch_cold, find_row_of_token,
}
use ghost_vault.Api.{
  Request, Server, VaultRow, is_bearer, raw_token, keyless, action_token_vault, require_vault_auth,
  write_auth_problem,
}
use ghost_vault.Api.Access.{HasSession, HasActionToken, require_vault_auth_sound}
use ghost_vault.Api.Refusals.{require_vault_auth_refused}
use ghost_vault.Tests.Data.{nat_uuids, ascii_casing}

abbrev pub hash : Text → List ℕ
hash t = t

abbrev pub no_faults : Faults
no_faults = record {
  insert_fails = false;
  get_fails = false;
  touch_fails = false;
  delete_fails = false;
}

abbrev pub request : Request
request = record { authorization = codes "Bearer act"; ghost_session = [] }

abbrev pub plain_vault : VaultRow
plain_vault = record {
  encryption_enabled = false;
  auth_mode = codes "session";
  argon_time = none;
  argon_memory_kb = none;
  argon_parallelism = none;
  argon_salt = [];
  wrapped_dek = [];
}

-- Vault 7 is not encrypted, and has an action token until the time 50.
abbrev pub server : Server ℕ
server = record {
  sess = new_manager 40 100 true none;
  action_tokens = (codes "act", record { vault_id = 7; scopes = []; expires_at = 50 }) ∷ [];
  vaults = (7, plain_vault) ∷ [];
  token_fails = false;
  vault_fails = false;
}

pub let_in : (require_vault_auth hash no_faults request 20 server).0 ≡ done (keyless 7, 7)
unfolding require_vault_auth is_bearer raw_token action_token_vault touch touch_cold
    find_row_of_token lookup text_beq is_space trim_left trim_right trim_space
let_in = refl

require_vault_auth_sound_example :
    HasSession hash no_faults request 20 server (keyless 7) 7
    ⊎ HasActionToken hash no_faults request 20 server (keyless 7) 7
require_vault_auth_sound_example = require_vault_auth_sound hash no_faults request 20 server let_in

-- The token has expired at 50.
turned_away : (require_vault_auth hash no_faults request 50 server).0 ≡ refused unauthorized
unfolding require_vault_auth is_bearer raw_token action_token_vault touch touch_cold
    find_row_of_token lookup text_beq is_space trim_left trim_right trim_space
turned_away = refl

require_vault_auth_refused_example : (write_auth_problem unauthorized).0 ≡ 401
require_vault_auth_refused_example =
    require_vault_auth_refused hash no_faults request 50 server refl refl turned_away
