-- ===== src/Core/ChunkBody/Tokens.antt =====
-- The token estimate: both versions of it agree, and it is a quarter of the runes, at least 1.
use ghost_vault.Prelude.{◌+◌, ◌*◌, ◌≡◌, ◌≤◌, ◌<◌, refl, [], ◌∷◌, arith}
use ghost_vault.Text.{Text, rune_count}
use ghost_vault.Core.ChunkBody.{est_tok, estimate_tokens}

-- `estTok` of chunkbody.go and `estimateTokens` of engine.go are one function, and four times the
-- estimate is less than 4 below the number of runes and at most 3 above it.
est_tok-eq-estimate_tokens :
    (s : Text)
    → (est_tok s ≡ estimate_tokens s)
      × (rune_count s < 4 * est_tok s + 4)
      × (4 * est_tok s ≤ rune_count s + 3)
unfolding est_tok estimate_tokens
est_tok-eq-estimate_tokens [] = (refl, omega arith, omega arith)
est_tok-eq-estimate_tokens (c ∷ s) = (ground arith, ground arith, ground arith)
