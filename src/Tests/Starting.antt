-- ===== src/Tests/Starting.antt =====
-- Starting a server at concrete inputs: in the mode `session`, and in the mode `auto_unlock`.
use ghost_vault.Prelude.{
  ℕ, ◌≡◌, refl, Bool, true, false, some, [], ◌∷◌, ◌++◌, ◌||◌, lookup, if◌then◌else◌,
}
use ghost_vault.Text.{
  Text, text_eq, codes, is_empty, text_beq, is_space, trim_left, trim_right, trim_space, normalise,
}
use ghost_vault.Config.{Config}
use ghost_vault.Auth.{Session}
use ghost_vault.Auth.Manager.{SessionRow, Manager, done, refused, unauthorized, new_manager, touch}
use ghost_vault.Crypto.{returned, WrappedDek, wrap_dek}
use ghost_vault.Api.Vaults.{wrapped_row}
use ghost_vault.Boot.{
  Machine, booted, trim_newlines, read_auto_unlock_password, Rows, purge_sessions_for_vault,
  assert_encryption_mode, init_vault, init_auth_mode, boot, ◌>>=◌,
}
use ghost_vault.Boot.Checked.{IsStarted, boot_sound}
use ghost_vault.Boot.Restart.{touch-boot_session, touch-boot_auto_unlock}
use ghost_vault.Tests.Data.{nat_uuids, ascii_casing}
use ghost_vault.Tests.Keys.{marked, marked-IsPrimitives, marked-IsFull, fit}
use ghost_vault.Tests.Requests.{hash, no_faults, plain_vault}
use ghost_vault.Prelude.Int.{ℤ, pos}
use ghost_vault.Config.Bootstrap.{Bootstrap, load, normalize_listen_addr, parse_bool_env}
use ghost_vault.Config.Bootstrap.Durations.{IsLoaded, load-IsLoaded}

-- The password stands in a file, with a line end.
abbrev machine : Machine
machine = record {
  getenv = λ name. if text_beq name (codes "GHOSTVAULT_PASSWORD_FILE") then codes "/run/pw" else [];
  read_file = λ path. some (codes "secret\n");
  assert_fails = false;
  vault_fails = false;
  purge_fails = false;
}

abbrev cfg : Bool → Config
cfg on = record { encryption_on = on; openai_api_key = []; session_idle = 40; session_max = 100 }

abbrev row : SessionRow ℕ
row = record {
  token_hash = codes "t";
  vault_id = 7;
  created_at = 10;
  last_seen = 10;
  expires_at = 50;
  max_until = 110;
}

abbrev rows : Rows ℕ
rows = (codes "t", row) ∷ []

abbrev without_rows : Manager ℕ
without_rows = new_manager 40 100 true (some (record { id = 7; dek = [] }))

started : boot machine marked 0 (cfg false) ((7, plain_vault) ∷ []) rows ≡ booted without_rows
unfolding boot assert_encryption_mode init_auth_mode init_vault purge_sessions_for_vault text_beq
    ◌>>=◌
started = refl

boot_sound_example :
    (false ≡ false) × IsStarted machine marked 7 plain_vault rows 0 (cfg false) without_rows
boot_sound_example =
    boot_sound machine marked 7 plain_vault rows 0 (cfg false) ((7, plain_vault) ∷ []) refl started

session_mode :
    (text_beq plain_vault.auth_mode (codes "session") || is_empty plain_vault.auth_mode) ≡ true
unfolding text_beq
session_mode = refl

touch-boot_session_example :
    (touch hash no_faults (codes "t") 20 without_rows).0 ≡ refused unauthorized
touch-boot_session_example =
    touch-boot_session machine marked 0 rows 7 hash no_faults (codes "t") 20 (cfg false)
      ((7, plain_vault) ∷ []) plain_vault refl session_mode (λ e. refl, tt) started

-- The data key 5 under the password.
abbrev wrapped : WrappedDek
wrapped = record {
  salt = fit 16 (0 ∷ []);
  time_cost = 3;
  memory_kb = 65536;
  parallelism = 4;
  blob = fit 24 (1 ∷ []) ++ b's' ∷ 5 ∷ [];
}

was_wrapped : wrap_dek marked (codes "secret") (5 ∷ []) ≡ returned wrapped
unfolding wrap_dek
was_wrapped = refl

password : read_auto_unlock_password machine ≡ some (codes "secret")
unfolding read_auto_unlock_password trim_newlines trim_space trim_left trim_right is_space text_beq
password = refl

row_known : lookup (codes "t") rows ≡ some row
unfolding lookup text_beq
row_known = refl

touch-boot_auto_unlock_example :
    (m : Manager ℕ) × (s : Session ℕ) × (boot machine marked 0
        (cfg true)
        ((7, wrapped_row (codes "auto_unlock") wrapped) ∷ [])
        rows
      ≡ booted m)
    × ((touch hash no_faults (codes "t") 20 m).0 ≡ done s)
    × (s.vault_id ≡ 7)
    × (s.dek ≡ 5 ∷ [])
touch-boot_auto_unlock_example =
    touch-boot_auto_unlock machine marked 0 rows 7 hash no_faults (codes "t") 20 (cfg true)
      ((7, wrapped_row (codes "auto_unlock") wrapped) ∷ []) wrapped (codes "secret") (5 ∷ []) row
      marked-IsPrimitives marked-IsFull was_wrapped refl password refl refl refl refl refl row_known
      refl

-- An empty environment.
abbrev no_value : Text → Text
no_value k = []

abbrev atoi : Text → ℤ
atoi t = if text_beq t (codes "60") then pos 60 else pos 12

abbrev is_int : Text → Bool
is_int t = text_beq t (codes "60")

abbrev by_default : Bootstrap
by_default = record {
  http_addr = codes ":8080";
  tuning_file = codes "configs/gvsvd.yaml";
  debug_auth_log = false;
  debug_auth_full = false;
  database_url = [];
  encryption_on = true;
  openai_api_key = [];
  openai_base_url = codes "https://api.openai.com/v1";
  openai_embeddings_url = [];
  session_idle = pos 3600000000000;
  session_max = pos 43200000000000;
  embedding_dimension = 1536;
}

loaded_by_default : load atoi is_int no_value ≡ some by_default
unfolding load normalize_listen_addr parse_bool_env normalise text_beq trim_space trim_left
    trim_right is_space
loaded_by_default = refl

load-IsLoaded_example : IsLoaded atoi is_int no_value by_default
load-IsLoaded_example = load-IsLoaded atoi is_int no_value loaded_by_default
