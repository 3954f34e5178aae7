-- ===== src/Core/Scoring/Candidates.antt =====
-- internal/core/scoring.go: every ranked chunk is one of the dense candidates.
use ghost_vault.Prelude.{
  true, false, Bool, List, [], ◌∷◌, ◌++◌, if◌then◌else◌, Assoc, lookup, is_some, All, All-append,
  All-map_of, Bool-cases, inl, inr,
}
use ghost_vault.Extern.{Float64, Uuids, eq_of_uuids}
use ghost_vault.Store.{ChunkCandidate}
use ghost_vault.Core.Sorting.Laws.{exchange_sort-All}
use ghost_vault.Core.Scoring.{
  Fused, fuse_candidate, fuse_all, no_rows, row_of, clamp_weight, lexical_norms, fused_rows,
  rank_chunks_fusion_detail, outranks,
}

module _ {U : Type 0} (P : U → Type 0) where
  listed-All :
      (known : Bool) (order : List U) (id : U)
      → P id
      → All P order
      → All P (if known then order else order ++ id ∷ [])
  listed-All true order id p h = h
  listed-All false order id p h = All-append P order (id ∷ []) h (p, tt)

module _ {U F : Type 0} ⦃i : Uuids U⦄ ⦃o : Float64 F⦄ (P : U → Type 0) where
  module _ (threshold lw : F) (norms : Assoc U F) where
    fuse_candidate-All :
        (st : Fused U F) (c : ChunkCandidate U F)
        → P c.chunk_id
        → All P st.order
        → All P (fuse_candidate threshold lw norms st c).order
    unfolding fuse_candidate
    fuse_candidate-All st c p h = elim (Bool-cases (o.lt c.semantic_score threshold)) [
      | inl e ↦ rw e h
      | inr e ↦ rw e (listed-All P (is_some (lookup c.chunk_id st.scores)) st.order c.chunk_id p h)
    ]

    fuse_all-All :
        (cs : List (ChunkCandidate U F)) (st : Fused U F)
        → All (λ c. P c.chunk_id) cs
        → All P st.order
        → All P (fuse_all threshold lw norms cs st).order
    unfolding fuse_all
    fuse_all-All [] st ps h = h
    fuse_all-All (c ∷ cs) st (p, ps) h =
        fuse_all-All cs (fuse_candidate threshold lw norms st c) ps (fuse_candidate-All st c p h)

  pub rank_chunks-All :
      (dense lexical : List (ChunkCandidate U F)) (threshold weight : F)
      → All (λ c. P c.chunk_id) dense
      → All (λ r. P r.id) (rank_chunks_fusion_detail dense lexical threshold weight)
  unfolding rank_chunks_fusion_detail fused_rows
  rank_chunks-All dense lexical threshold weight ps =
      let lw = clamp_weight weight in
      let norms = lexical_norms lexical [] in
      let final : Fused U F = fuse_all threshold lw norms dense no_rows in
      exchange_sort-All outranks (λ r. P r.id) _
        (All-map_of (row_of final) (λ r. P r.id) final.order
          (fuse_all-All threshold lw norms dense no_rows ps tt))
