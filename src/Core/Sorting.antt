-- ===== src/Core/Sorting.antt =====
-- The two sorts of internal/core, over any comparison: the nested swap loop of
-- RankChunksFusionDetail (scoring.go), and `sort.Slice` as boostSessionPreference (engine.go) calls it.
pub mod Laws
use ghost_vault.Prelude.{ℕ, zero, suc, Bool, List, [], ◌∷◌, length, if◌then◌else◌}

module _ {A : Type 0} (wins : A → A → Bool) where
  -- The inner loop from a fixed i: `top` is out[i] and the list is out[j:].
  unfoldable pub sweep : A → List A → A × List A
  sweep top [] = (top, [])
  sweep top (y ∷ ys) =
      let swap = wins y top in
      let (best, rest) = sweep (if swap then y else top) ys in
      (best, (if swap then top else y) ∷ rest)

  -- The outer loop, with the number of rounds left.
  unfoldable pub rounds : ℕ → List A → List A
  unfolding sweep
  rounds zero xs = xs
  rounds (suc n) [] = []
  rounds (suc n) (x ∷ xs) = let (best, rest) = sweep x xs in best ∷ rounds n rest

  unfoldable pub exchange_sort : List A → List A
  unfolding rounds
  exchange_sort xs = rounds (length xs) xs

  unfoldable pub place : A → List A → List A
  place x [] = x ∷ []
  place x (y ∷ ys) = let later = y ∷ place x ys in if wins y x then later else x ∷ y ∷ ys

  -- `sort.Slice(s, wins)`: its result is in order, and a rearrangement.
  unfoldable pub sort_slice : List A → List A
  unfolding place
  sort_slice [] = []
  sort_slice (x ∷ xs) = place x (sort_slice xs)
