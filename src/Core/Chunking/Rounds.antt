-- ===== src/Core/Chunking/Rounds.antt =====
-- internal/core/engine.go: how many rounds the loop of chunkText takes.
use ghost_vault.Prelude.{
  ℕ, zero, suc, ◌≡◌, ◌≤◌, ◌<◌, refl, ap, [], ◌∷◌, leb, take, drop, length, length-drop, arith,
  Bool-cases, inl, inr,
}
use ghost_vault.Text.{Text}
use ghost_vault.Core.Chunking.{step_of, chunk_from}

module _ (size step : ℕ) (step_pos : 0 < step) where
  -- Two fuels that are enough give the same chunks.
  same_rounds :
      (fuel fuel' : ℕ) (s : Text)
      → length s ≤ fuel
      → length s ≤ fuel'
      → chunk_from size step fuel s ≡ chunk_from size step fuel' s
  unfolding chunk_from
  same_rounds zero zero [] h h' = refl
  same_rounds zero (suc g) [] h h' = refl
  same_rounds (suc f) zero [] h h' = refl
  same_rounds (suc f) (suc g) [] h h' = refl
  same_rounds zero g (c ∷ s) h h' = absurd (omega (arith, h))
  same_rounds (suc f) zero (c ∷ s) h h' = absurd (omega (arith, h'))
  same_rounds (suc f) (suc g) (c ∷ s) h h' =
      let shorter = length-drop step (c ∷ s) in
      let same =
        same_rounds f g (drop step (c ∷ s)) (omega (arith, shorter, h))
          (omega (arith, shorter, h')) in
      elim (Bool-cases (leb (length (c ∷ s)) size)) [
        | inl e ↦ rw e refl
        | inr e ↦ rw e (ap (λ cs. take size (c ∷ s) ∷ cs) same)
      ]

  -- Each round takes a rune at least.
  rounds_le :
      (fuel : ℕ) (s : Text) → length s ≤ fuel → length (chunk_from size step fuel s) ≤ length s
  unfolding chunk_from
  rounds_le zero s h = omega arith
  rounds_le (suc f) [] h = omega arith
  rounds_le (suc f) (c ∷ s) h =
      let shorter = length-drop step (c ∷ s) in
      let rest = rounds_le f (drop step (c ∷ s)) (omega (arith, shorter, h)) in
      elim (Bool-cases (leb (length (c ∷ s)) size)) [
        | inl e ↦ rw e (omega arith)
        | inr e ↦ rw e (omega (arith, rest, shorter))
      ]

-- For a positive size the loop of chunk_text ends, after at most as many rounds as the text has runes:
-- any fuel that is not smaller than that gives the chunks that the text's length as fuel gives.
pub chunk_from-ends :
    (s : Text) (size overlap fuel : ℕ)
    → 0 < size
    → length s ≤ fuel
    → (chunk_from size (step_of size overlap) fuel s
        ≡ chunk_from size (step_of size overlap) (length s) s)
      × (length (chunk_from size (step_of size overlap) fuel s) ≤ length s)
unfolding step_of
chunk_from-ends s size overlap fuel h enough =
    let step_pos : 0 < step_of size overlap = ground (arith, h) in
    (
      same_rounds size (step_of size overlap) step_pos fuel (length s) s enough (omega arith),
      rounds_le size (step_of size overlap) step_pos fuel s enough,
    )
