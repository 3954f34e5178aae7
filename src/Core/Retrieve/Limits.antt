-- ===== src/Core/Retrieve/Limits.antt =====
-- How many candidates a retrieval fetches.
use ghost_vault.Prelude.{ℕ, ◌*◌, ◌^◌, ◌≡◌, ◌≤◌, ◌<◌, arith, ltb, if◌then◌else◌}
use ghost_vault.Prelude.Int.{ℤ, pos, pos_part, neg_part}
use ghost_vault.Core.Retrieve.{k_dense}

-- The multiplier in use: 4 in place of one that is not positive.
abbrev pub multiplier_in_use : ℤ → ℕ
multiplier_in_use m = if ltb 0 (pos_part m) then pos_part m else 4

limit-le-product : (limit m : ℕ) → 0 < m → limit ≤ limit * m
limit-le-product limit m h = grind arith

multiplier_pos : (m : ℤ) → 0 < multiplier_in_use m
multiplier_pos m = ground arith

-- Where the product of limit and multiplier fits an int64, the number of candidates asked of each
-- search is not negative, and at least the chunks to return and the configured minimum.
k_dense_covers :
    (limit : ℕ) (multiplier minimum : ℤ)
    → limit * multiplier_in_use multiplier < 2 ^ 63
    → let k = k_dense limit multiplier minimum in
      (neg_part k ≡ 0) × (limit ≤ pos_part k) × (pos_part minimum ≤ pos_part k)
unfolding k_dense
k_dense_covers limit multiplier minimum fits =
    let p = limit-le-product limit (multiplier_in_use multiplier) (multiplier_pos multiplier) in
    ground (arith, p)

-- With the default multiplier 4, a request for 2^61 chunks or more (below 2^62) wraps to a negative
-- number, and the search is asked for the configured minimum alone.
k_dense_wraps :
    (limit : ℕ) (minimum : ℤ)
    → 2 ^ 61 ≤ limit
    → limit < 2 ^ 62
    → 0 < pos_part minimum
    → k_dense limit (pos 4) minimum ≡ minimum
unfolding k_dense
k_dense_wraps limit minimum lo hi positive = ground arith
