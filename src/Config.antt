-- ===== src/Config.antt =====
-- internal/config: the bootstrap settings and the runtime tuning.
pub mod Tuning
pub mod Bootstrap
use ghost_vault.Prelude.{Bool, ℕ}
use ghost_vault.Text.{Text}

-- The fields of `Config` that the engine and the session manager read. Durations are in
-- nanoseconds.
pub record Config : Type 0 where
  pub encryption_on : Bool
  pub openai_api_key : Text
  pub session_idle : ℕ
  pub session_max : ℕ
