-- ===== src/Tests/Ranking.antt =====
-- Ranking, packing and the limits at concrete inputs.
use mathlib.Core.List.{Mem}
use mathlib.Core.List.{Sublistᴰ}
use ghost_vault.Prelude.{
  ℕ, ◌≡◌, ◌≢◌, refl, true, some, List, [], ◌∷◌, map, All, AllPairs, ==_iff, ◌==◌, lookup, insert,
}
use ghost_vault.Prelude.Int.{pos}
use ghost_vault.Text.{codes}
use ghost_vault.Core.Sorting.Laws.{IsRanked}
use ghost_vault.Core.Scoring.{
  ScoredChunk, FusionRankRow, outranks, fused_rows, lexical_norms, normalize_lexical, clamp_weight,
  fuse, rank_chunks_fusion_detail,
}
use ghost_vault.Core.Scoring.Fusion.{expected, expected_row}
use ghost_vault.Core.Scoring.Ranking.{
  HasNumber, rank_chunks-IsRanked, rank_chunks_sound, rank_chunks_complete,
}
use ghost_vault.Core.Retrieve.Boost.{HasScore}
use ghost_vault.Core.Retrieve.Pack.{no_pack, pack}
use ghost_vault.Core.Retrieve.Packing.{IsAccounted, pack-IsAccounted}
use ghost_vault.Core.Retrieve.PackOrder.{chunk_key, snippet_key, pack-Sublist}
use ghost_vault.Tests.Data.{nat_float, nat_float-IsOrdered, nat_uuids, ascii_casing}
use ghost_vault.Tests.Inputs.{dense, lexical, ranked, load_tea}

same : (n : ℕ) → (n == n) ≡ true
same n = (==_iff n n).1 refl

All-numbers : (rows : List (FusionRankRow ℕ ℕ)) → All HasNumber rows
All-numbers [] = tt
All-numbers (r ∷ rows) = (same r.fused_score, All-numbers rows)

All-scores : (rows : List (ScoredChunk ℕ ℕ)) → All HasScore rows
All-scores [] = tt
All-scores (r ∷ rows) = (same r.score, All-scores rows)

rank_chunks-IsRanked_example : IsRanked outranks (rank_chunks_fusion_detail dense lexical 25 35)
rank_chunks-IsRanked_example =
    rank_chunks-IsRanked dense lexical 25 35 nat_float-IsOrdered
      (All-numbers (fused_rows dense lexical 25 35))

rank_chunks_sound_example :
    All
      (λ r. expected dense lexical 25 35 r.id ≡ some r)
      (rank_chunks_fusion_detail dense lexical 25 35)
    × AllPairs (λ a b. a.id ≢ b.id) (rank_chunks_fusion_detail dense lexical 25 35)
rank_chunks_sound_example = rank_chunks_sound dense lexical 25 35

abbrev row_2 : FusionRankRow ℕ ℕ
row_2 = record { id = 2; semantic_score = 90; lexical_norm = 0; fused_score = 58 }

row_2-expected : expected dense lexical 25 35 2 ≡ some row_2
unfolding expected_row clamp_weight fuse lookup lexical_norms normalize_lexical insert
row_2-expected = refl

rank_chunks_complete_example : Mem row_2 (rank_chunks_fusion_detail dense lexical 25 35)
rank_chunks_complete_example = rank_chunks_complete dense lexical 25 35 2 row_2 row_2-expected

pack-IsAccounted_example :
    IsAccounted (pos 10) 1 (pack true (pos 10) (codes "auto") 1 load_tea ranked no_pack)
pack-IsAccounted_example = pack-IsAccounted (pos 10) (codes "auto") 1 load_tea ranked

pack-Sublist_example :
    Sublistᴰ
      (map snippet_key (pack true (pos 10) (codes "auto") 1 load_tea ranked no_pack).out)
      (map chunk_key ranked)
pack-Sublist_example = pack-Sublist true (pos 10) (codes "auto") 1 load_tea ranked
