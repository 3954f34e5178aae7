-- ===== src/Config/Bootstrap.antt =====
-- internal/config/config.go: the settings that a server reads from its environment before all else.
pub mod Durations
use ghost_vault.Prelude.{
  ℕ, zero, suc, ◌*◌, ◌==◌, Bool, true, false, ◌||◌, if◌then◌else◌, Option, none, some, [], ◌∷◌,
}
use ghost_vault.Prelude.Int.{ℤ, pos, negsuc, wrap64}
use ghost_vault.Text.{Text, Casing, codes, is_empty, text_beq, trim_space, normalise}

-- All the fields of `Config`. Durations are in nanoseconds, and may be negative.
pub record Bootstrap : Type 0 where
  pub http_addr : Text
  pub tuning_file : Text
  pub debug_auth_log : Bool
  pub debug_auth_full : Bool
  pub database_url : Text
  pub encryption_on : Bool
  pub openai_api_key : Text
  pub openai_base_url : Text
  pub openai_embeddings_url : Text
  pub session_idle : ℤ
  pub session_max : ℤ
  pub embedding_dimension : ℕ

abbrev pub encryption_of : Text → Option Bool
encryption_of raw =
    if text_beq raw (codes "off") || text_beq raw (codes "false") || text_beq raw (codes "0")
    then some false
    else if text_beq raw (codes "on") || text_beq raw (codes "true") || text_beq raw (codes "1")
    then some true
    else none

-- A number that is not positive is replaced.
abbrev pub positive_or : ℕ → ℤ → ℕ
positive_or default (pos zero) = default
positive_or default (pos (suc n)) = suc n
positive_or default (negsuc n) = default

-- `time.Duration(n) * time.Minute` and `* time.Hour`, which wrap.
abbrev pub minutes : ℕ → ℤ
minutes n = wrap64 (n * 60000000000)

abbrev pub hours : ℕ → ℤ
hours n = wrap64 (n * 3600000000000)

-- `strings.Contains(s, ":")`
abbrev pub has_colon : Text → Bool
has_colon [] = false
has_colon (c ∷ s) = c == b':' || has_colon s

abbrev pub or_value : Text → Text → Text
or_value v default = if is_empty v then default else v

abbrev pub is_true_word : Text → Bool
is_true_word v =
    text_beq v (codes "1")
    || text_beq v (codes "t")
    || text_beq v (codes "true")
    || text_beq v (codes "yes")
    || text_beq v (codes "y")
    || text_beq v (codes "on")

abbrev pub is_false_word : Text → Bool
is_false_word v =
    text_beq v (codes "0")
    || text_beq v (codes "f")
    || text_beq v (codes "false")
    || text_beq v (codes "no")
    || text_beq v (codes "n")
    || text_beq v (codes "off")

-- `atoi` is the number that `strconv.Atoi` gives, with or without an error; `is_int` says that it gives
-- no error.
module _ (atoi : Text → ℤ) (is_int : Text → Bool) (getenv : Text → Text) where
  abbrev pub get_env : Text → Text → Text
  get_env k default = or_value (getenv k) default

  unfoldable pub normalize_listen_addr : Text → Text
  normalize_listen_addr addr =
      let a = trim_space addr in
      if is_empty a
      then codes ":8080"
      else if has_colon a
      then a
      else if is_int a
      then b':' ∷ a
      else a

  module _ ⦃u : Casing⦄ where
    unfoldable pub parse_bool_env : Text → Bool → Bool
    parse_bool_env key default =
        let v = normalise (getenv key) in
        if is_empty v
        then default
        else if is_true_word v
        then true
        else if is_false_word v
        then false
        else default

    abbrev pub idle_minutes : ℕ
    idle_minutes = positive_or 60 (atoi (get_env (codes "GV_SESSION_IDLE_MINUTES") (codes "60")))

    abbrev pub max_hours : ℕ
    max_hours = positive_or 12 (atoi (get_env (codes "GV_SESSION_MAX_HOURS") (codes "12")))

    abbrev pub loaded : Option Bool → Option Bootstrap
    loaded none = none
    loaded (some on) = some (record {
      http_addr = normalize_listen_addr (get_env (codes "GV_HTTP_ADDR") (codes ":8080"));
      tuning_file = get_env (codes "GV_Tuning_FILE") (codes "configs/gvsvd.yaml");
      debug_auth_log = parse_bool_env (codes "GV_DEBUG_AUTH") false;
      debug_auth_full = parse_bool_env (codes "GV_DEBUG_AUTH_FULL") false;
      database_url = getenv (codes "DATABASE_URL");
      encryption_on = on;
      openai_api_key = getenv (codes "OPENAI_API_KEY");
      openai_base_url = get_env (codes "OPENAI_BASE_URL") (codes "https://api.openai.com/v1");
      openai_embeddings_url = trim_space (getenv (codes "OPENAI_EMBEDDINGS_URL"));
      session_idle = minutes idle_minutes;
      session_max = hours max_hours;
      embedding_dimension = 1536;
    })

    -- `Load`; `none` is the error of an unknown encryption mode.
    unfoldable pub load : Option Bootstrap
    load = loaded (encryption_of (normalise (get_env (codes "GV_ENCRYPTION") (codes "on"))))

-- `Validate`
abbrev pub is_valid : Bootstrap → Bool
is_valid c = if is_empty c.database_url then false else true
