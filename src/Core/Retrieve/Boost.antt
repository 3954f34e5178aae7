-- ===== src/Core/Retrieve/Boost.antt =====
-- The session boost.
use mathlib.Core.List.{Perm}
use ghost_vault.Prelude.{◌≡◌, ◌∙◌, sym, false, Option, List, map, All, arith, Assoc}
use ghost_vault.Text.{Text, is_empty}
use ghost_vault.Extern.{Float64, IsNumber, IsOrdered, Uuids, eq_of_uuids}
use ghost_vault.Core.Sorting.Laws.{IsWeakOrder, IsRanked, sort_slice-IsRanked, sort_slice-perm}
use ghost_vault.Core.Scoring.{ScoredChunk, FusionRankRow, outranks}
use ghost_vault.Core.Scoring.Ranking.{outranks-IsWeakOrder}
use ghost_vault.Core.Retrieve.{scores_above, session_boost, boosted, boost_session_preference}

module _ {U F : Type 0} ⦃i : Uuids U⦄ ⦃o : Float64 F⦄ where
  abbrev as_row : ScoredChunk U F → FusionRankRow U F
  as_row c = record {
    id = c.id;
    semantic_score = c.score;
    lexical_norm = c.score;
    fused_score = c.score;
  }

  abbrev pub HasScore : ScoredChunk U F → Type 0
  HasScore c = IsNumber c.score

  module _ (laws : IsOrdered o) where
    -- Both comparisons of the engine are one relation.
    scores_above-eq-outranks :
        (a b : ScoredChunk U F) → scores_above a b ≡ outranks (as_row a) (as_row b)
    unfolding scores_above outranks
    scores_above-eq-outranks a b =
        ground (arith, laws.eq_lt b.score a.score, laws.eq_symm a.score b.score)

    scores_above-IsWeakOrder : IsWeakOrder scores_above HasScore
    scores_above-IsWeakOrder =
        let w = outranks-IsWeakOrder laws in
        record {
          asymm = λ a b na nb h.
              scores_above-eq-outranks b a
              ∙ w.asymm (as_row a) (as_row b) na nb (sym (scores_above-eq-outranks a b) ∙ h);
          below_trans = λ a b c na nb nc h k.
              scores_above-eq-outranks a c
              ∙ w.below_trans (as_row a) (as_row b) (as_row c) na nb nc
                  (sym (scores_above-eq-outranks a b) ∙ h) (sym (scores_above-eq-outranks b c) ∙ k);
        }

  module _ (boost : F) (key : Text) (keys : Assoc U (Option Text))
      (ranked : List (ScoredChunk U F)) where
    -- With a session key, the boost returns the chunks with their boosted scores, in order of the
    -- new scores where these are comparable.
    boost-exact :
        IsOrdered o
        → is_empty key ≡ false
        → All HasScore (map (boosted (session_boost boost) key keys) ranked)
        → Perm
            (boost_session_preference boost key keys ranked)
            (map (boosted (session_boost boost) key keys) ranked)
          × IsRanked scores_above (boost_session_preference boost key keys ranked)
    unfolding boost_session_preference
    boost-exact laws e h = rw e (
      sort_slice-perm scores_above _,
      sort_slice-IsRanked scores_above HasScore (scores_above-IsWeakOrder laws) _ h,
    )
