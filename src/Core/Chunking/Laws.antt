-- ===== src/Core/Chunking/Laws.antt =====
-- The chunks cover the text.
use ghost_vault.Prelude.{
  ℕ, zero, suc, ◌≡◌, ◌≤◌, ◌<◌, refl, ap, ◌∙◌, List, [], ◌∷◌, ◌++◌, leb, take, drop, length,
  length-take, length-drop, take-append-drop, All, arith, Bool-cases, inl, inr, leb→le,
}
use ghost_vault.Text.{Text}
use ghost_vault.Core.Chunking.{step_of, chunk_from, chunk_text}

-- The text without the overlaps: of every chunk but the last its first `step` runes.
abbrev pub stitch : ℕ → List Text → Text
stitch step [] = []
stitch step (c ∷ []) = c
stitch step (c ∷ d ∷ cs) = take step c ++ stitch step (d ∷ cs)

abbrev pub IsChunk : ℕ → Text → Type 0
IsChunk size c = (0 < length c) × (length c ≤ size)

take-take : (m n : ℕ) (s : Text) → m ≤ n → take m (take n s) ≡ take m s
take-take zero n s h = refl
take-take (suc m) zero s h = absurd (omega arith)
take-take (suc m) (suc n) [] h = refl
take-take (suc m) (suc n) (c ∷ s) h = ap (◌∷◌ c) (take-take m n s (omega arith))

stitch-cons :
    (step size : ℕ) (s : Text) (cs : List Text)
    → step ≤ size
    → 0 < length (drop step s)
    → stitch step cs ≡ drop step s
    → stitch step (take size s ∷ cs) ≡ s
stitch-cons step size s [] le some_left h = absurd (omega (arith, ap length h))
stitch-cons step size s (d ∷ cs) le some_left h =
    ap (λ t. t ++ stitch step (d ∷ cs)) (take-take step size s le)
    ∙ ap (λ t. take step s ++ t) h
    ∙ take-append-drop step s

module _ (size step : ℕ) (step_pos : 0 < step) (step_le : step ≤ size) where
  stitch-chunk_from :
      (fuel : ℕ) (s : Text)
      → length s ≤ fuel
      → (stitch step (chunk_from size step fuel s) ≡ s)
        × All (IsChunk size) (chunk_from size step fuel s)
  unfolding chunk_from
  stitch-chunk_from zero [] h = (refl, tt)
  stitch-chunk_from zero (c ∷ s) h = absurd (omega arith)
  stitch-chunk_from (suc fuel) [] h = (refl, tt)
  stitch-chunk_from (suc fuel) (c ∷ s) h = elim (Bool-cases (leb (length (c ∷ s)) size)) [
    | inl last ↦ rw last (refl, ((omega arith, leb→le _ _ last), tt))
    | inr more ↦
        let rest = drop step (c ∷ s) in
        let (whole, chunks) =
          stitch-chunk_from fuel rest (omega (arith, length-drop step (c ∷ s), h)) in
        rw more (
          stitch-cons step size (c ∷ s) (chunk_from size step fuel rest) step_le
              (ground (arith, length-drop step (c ∷ s))) whole,
          (
            (ground (arith, length-take size (c ∷ s)), omega (arith, length-take size (c ∷ s))),
            chunks,
          ),
        )
  ]

-- For a positive size the chunks, less their overlaps, spell the text, and each chunk has at least
-- one rune and at most `size`.
pub stitch-chunk_text :
    (s : Text) (size overlap : ℕ)
    → 0 < size
    → (stitch (step_of size overlap) (chunk_text s size overlap) ≡ s)
      × All (IsChunk size) (chunk_text s size overlap)
unfolding chunk_text step_of
stitch-chunk_text [] size overlap h = (refl, tt)
stitch-chunk_text (c ∷ s) size overlap h = elim (Bool-cases (leb (length (c ∷ s)) size)) [
  | inl short ↦ rw short (refl, ((omega arith, leb→le _ _ short), tt))
  | inr long ↦ rw long (
      stitch-chunk_from size (step_of size overlap) (ground arith) (ground arith) (length (c ∷ s))
        (c ∷ s) (omega arith))
]
