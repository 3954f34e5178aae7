-- ===== src/Core/Scoring.antt =====
-- internal/core/scoring.go: the semantic gate, the fusion of both scores, and the ranking.
pub mod Fusion
pub mod Ranking
pub mod Candidates
use ghost_vault.Prelude.{
  Bool, Option, none, some, List, [], ◌∷◌, ◌++◌, map, ◌&&◌, ◌||◌, if◌then◌else◌, Assoc, lookup,
  insert, is_some,
}
use ghost_vault.Extern.{Float64, Uuids, eq_of_uuids}
use ghost_vault.Store.{ChunkCandidate}
use ghost_vault.Core.Sorting.{exchange_sort}

pub record ScoredChunk (U F : Type 0) : Type 0 where
  pub id : U
  pub score : F

pub record FusionRankRow (U F : Type 0) : Type 0 where
  pub id : U
  pub semantic_score : F
  pub lexical_norm : F
  pub fused_score : F

module _ {F : Type 0} ⦃o : Float64 F⦄ where
  abbrev pub zero_score : F
  zero_score = o.lit 0 0

  abbrev pub one_score : F
  one_score = o.lit 1 0

  -- A read of a Go map: 0 under a missing key.
  abbrev pub or_zero : Option F → F
  or_zero none = zero_score
  or_zero (some x) = x

  unfoldable pub normalize_lexical : F → F
  normalize_lexical raw =
      if o.lt raw zero_score || o.eq raw zero_score
      then zero_score
      else o.div raw (o.add raw one_score)

  unfoldable pub clamp_weight : F → F
  clamp_weight w =
      let lw = if o.lt w zero_score then zero_score else w in
      if o.lt one_score lw then one_score else lw

  -- `1 - lw` of the semantic score and `lw` of the lexical one.
  unfoldable pub fuse : F → F → F → F
  fuse lw sem lex = o.add (o.mul (o.sub one_score lw) sem) (o.mul lw lex)

-- The maps `scores`, `sem` and `lexN` of the loop, and `order`.
pub record Fused (U F : Type 0) : Type 0 where
  pub order : List U
  pub scores : Assoc U F
  pub sem : Assoc U F
  pub lex : Assoc U F

module _ {U F : Type 0} ⦃i : Uuids U⦄ ⦃o : Float64 F⦄ where
  unfoldable pub lexical_norms : List (ChunkCandidate U F) → Assoc U F → Assoc U F
  unfolding normalize_lexical
  lexical_norms [] m = m
  lexical_norms (c ∷ cs) m =
      lexical_norms cs (insert c.chunk_id (normalize_lexical c.raw_lex_rank) m)

  abbrev pub no_rows : Fused U F
  no_rows = record { order = []; scores = []; sem = []; lex = [] }

  module _ (threshold lw : F) (norms : Assoc U F) where
    -- One round of the loop over the dense candidates.
    unfoldable pub fuse_candidate : Fused U F → ChunkCandidate U F → Fused U F
    fuse_candidate st c =
        let lx = or_zero (lookup c.chunk_id norms) in
        if o.lt c.semantic_score threshold then st else record {
          order =
              if is_some (lookup c.chunk_id st.scores)
              then st.order
              else st.order ++ c.chunk_id ∷ [];
          scores = insert c.chunk_id (fuse lw c.semantic_score lx) st.scores;
          sem = insert c.chunk_id c.semantic_score st.sem;
          lex = insert c.chunk_id lx st.lex;
        }

    unfoldable pub fuse_all : List (ChunkCandidate U F) → Fused U F → Fused U F
    unfolding fuse_candidate
    fuse_all [] st = st
    fuse_all (c ∷ cs) st = fuse_all cs (fuse_candidate st c)

  abbrev pub row_of : Fused U F → U → FusionRankRow U F
  row_of st id = record {
    id = id;
    semantic_score = or_zero (lookup id st.sem);
    lexical_norm = or_zero (lookup id st.lex);
    fused_score = or_zero (lookup id st.scores);
  }

  -- The test under which out[j] takes the place of an earlier out[i].
  unfoldable pub outranks : FusionRankRow U F → FusionRankRow U F → Bool
  outranks a b =
      o.lt b.fused_score a.fused_score || (o.eq a.fused_score b.fused_score && i.before a.id b.id)

  module _ (dense lexical : List (ChunkCandidate U F)) (threshold weight : F) where
    -- The rows before the ranking.
    unfoldable pub fused_rows : List (FusionRankRow U F)
    unfolding fuse_all lexical_norms clamp_weight
    fused_rows =
        let st =
          fuse_all threshold (clamp_weight weight) (lexical_norms lexical []) dense no_rows in
        map (row_of st) st.order

    unfoldable pub rank_chunks_fusion_detail : List (FusionRankRow U F)
    unfolding fused_rows exchange_sort outranks
    rank_chunks_fusion_detail = exchange_sort outranks fused_rows

    unfoldable pub rank_chunks : List (ScoredChunk U F)
    unfolding rank_chunks_fusion_detail
    rank_chunks = map (λ r. record { id = r.id; score = r.fused_score }) rank_chunks_fusion_detail
