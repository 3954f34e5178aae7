-- ===== src/Core/Chunking.antt =====
-- internal/core/engine.go: chunkText, on the runes of the text.
pub mod Laws
pub mod Rounds
use ghost_vault.Prelude.{
  ℕ, zero, suc, ◌-◌, List, [], ◌∷◌, leb, ◌==◌, if◌then◌else◌, take, drop, length,
}
use ghost_vault.Text.{Text}

-- `size - overlap`, or `size` where that is below 1; `-` stops at 0.
unfoldable pub step_of : ℕ → ℕ → ℕ
step_of size overlap = if (size - overlap) == 0 then size else size - overlap

module _ (size step : ℕ) where
  -- The loop from runes[i:]: the last chunk is the one that reaches the end of the text. The fuel is
  -- the number of rounds left.
  unfoldable pub chunk_from : ℕ → Text → List Text
  chunk_from zero rest = []
  chunk_from (suc fuel) [] = []
  chunk_from (suc fuel) (c ∷ s) =
      let more = chunk_from fuel (drop step (c ∷ s)) in
      if leb (length (c ∷ s)) size then (c ∷ s) ∷ [] else take size (c ∷ s) ∷ more

unfoldable pub chunk_text : Text → ℕ → ℕ → List Text
unfolding step_of
chunk_text [] size overlap = []
chunk_text (c ∷ s) size overlap =
    if leb (length (c ∷ s)) size
    then (c ∷ s) ∷ []
    else chunk_from size (step_of size overlap) (length (c ∷ s)) (c ∷ s)
