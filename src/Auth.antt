-- ===== src/Auth.antt =====
-- internal/auth: sessions and credentials.
pub mod Manager
pub mod Limits
pub mod Lifetime
pub mod Leases
use ghost_vault.Prelude.{ℕ, List}

-- Times and durations are in nanoseconds. A DEK of no bytes is a nil DEK: `len` is all that the
-- program asks of it.
pub record Session (U : Type 0) : Type 0 where
  pub vault_id : U
  pub dek : List ℕ
  pub expires_at : ℕ
  pub max_until : ℕ
  pub last_seen : ℕ
  pub idle : ℕ
  pub token_hash : List ℕ
