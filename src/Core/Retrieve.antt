-- ===== src/Core/Retrieve.antt =====
-- internal/core/engine.go: the limits of a retrieval and the session boost. The packing loop and
-- the whole call are in the children Pack and Run.
pub mod Limits
pub mod Boost
pub mod Pack
pub mod Packing
pub mod PackOrder
pub mod Run
pub mod Results
pub mod Owned
use mathlib.Core.Option
use ghost_vault.Prelude.{
  ℕ, ◌*◌, Bool, false, ◌&&◌, Option, some, List, map, ltb, if◌then◌else◌, Assoc, lookup,
}
use ghost_vault.Prelude.Int.{ℤ, pos_part, ltb_ℤ, wrap64}
use ghost_vault.Text.{Text, is_empty, text_beq}
use ghost_vault.Extern.{Float64, Uuids, eq_of_uuids}
use ghost_vault.Core.Sorting.{sort_slice}
use ghost_vault.Core.Scoring.{ScoredChunk, one_score}

-- An empty SessionMode is "all", an empty ContentMode is "auto".
pub record RetrieveOpts : Type 0 where
  pub session_key : Text
  pub session_mode : Text
  pub content_mode : Text

-- The request's limit where it is positive, else the default where that is, else 8.
unfoldable pub effective_max_chunks : ℤ → ℤ → ℕ
effective_max_chunks requested default =
    if ltb 0 (pos_part requested)
    then pos_part requested
    else if ltb 0 (pos_part default)
    then pos_part default
    else 8

-- `limit * mult` is an `int`: it wraps.
unfoldable pub k_dense : ℕ → ℤ → ℤ → ℤ
k_dense limit multiplier minimum =
    let mult = if ltb 0 (pos_part multiplier) then pos_part multiplier else 4 in
    let k = wrap64 (limit * mult) in
    if ltb 0 (pos_part minimum) && ltb_ℤ k minimum then minimum else k

-- `sk, ok := byChunk[id]; ok && sk != nil && *sk == sessionKey`
abbrev pub in_session : {U : Type 0} ⦃i : Uuids U⦄ → Text → Assoc U (Option Text) → U → Bool
in_session key keys id = elim (lookup id keys) [ some (some k) ↦ text_beq k key | _ ↦ false ]

unfoldable pub session_boost : {F : Type 0} ⦃o : Float64 F⦄ → F → F
session_boost ⦃o⦄ boost = if o.lt boost one_score then o.lit 115 2 else boost

module _ {U F : Type 0} ⦃i : Uuids U⦄ ⦃o : Float64 F⦄ where
  -- The comparison of `sort.Slice` in boostSessionPreference.
  unfoldable pub scores_above : ScoredChunk U F → ScoredChunk U F → Bool
  scores_above a b = if o.eq a.score b.score then i.before a.id b.id else o.lt b.score a.score

  unfoldable pub boosted : F → Text → Assoc U (Option Text) → ScoredChunk U F → ScoredChunk U F
  boosted boost key keys c =
      if in_session key keys c.id then record c { score = o.mul c.score boost } else c

  unfoldable pub boost_session_preference :
      F → Text → Assoc U (Option Text) → List (ScoredChunk U F) → List (ScoredChunk U F)
  unfolding session_boost boosted sort_slice scores_above
  boost_session_preference boost key keys ranked =
      if is_empty key
      then ranked
      else sort_slice scores_above (map (boosted (session_boost boost) key keys) ranked)
