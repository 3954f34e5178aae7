-- ===== src/Core/Scoring/Ranking.antt =====
-- The order of the ranked rows, and which rows there are.
use mathlib.Core.List.{Mem}
use mathlib.Core.List.Perm
use ghost_vault.Prelude.{
  ◌≡◌, ◌≢◌, ◌⊎◌, sym, true, false, some, List, All, AllPairs, arith, inl, inr,
}
use ghost_vault.Extern.{Float64, IsNumber, IsOrdered, Uuids, eq_of_uuids}
use ghost_vault.Store.{ChunkCandidate}
use ghost_vault.Core.Sorting.Laws.{
  IsWeakOrder, IsRanked, exchange_sort-IsRanked, exchange_sort-perm, exchange_sort-All,
  exchange_sort-AllPairs,
}
use ghost_vault.Core.Scoring.{FusionRankRow, outranks, fused_rows, rank_chunks_fusion_detail}
use ghost_vault.Core.Scoring.Fusion.{
  expected, fused_rows_sound, fused_rows_apart, fused_rows_complete,
}

lt-or_eq :
    {F : Type 0} ⦃o : Float64 F⦄
    → IsOrdered o
    → (x y : F) → IsNumber x
    → IsNumber y
    → o.lt y x ≡ false
    → (o.lt x y ≡ true) ⊎ (o.eq x y ≡ true)
lt-or_eq laws x y nx ny h = ground (arith, laws.lt_total y x, laws.eq_symm y x)

module _ {U F : Type 0} ⦃i : Uuids U⦄ ⦃o : Float64 F⦄ where
  abbrev pub HasNumber : FusionRankRow U F → Type 0
  HasNumber r = IsNumber r.fused_score

  module _ (laws : IsOrdered o) where
    outranks-asymm :
        (a b : FusionRankRow U F)
        → HasNumber a
        → HasNumber b
        → outranks a b ≡ true
        → outranks b a ≡ false
    unfolding outranks
    outranks-asymm a b na nb h =
        let x = a.fused_score in
        let y = b.fused_score in
        ground (
          arith,
          laws.lt_asymm x y,
          laws.lt_asymm y x,
          laws.eq_lt x y,
          laws.eq_symm x y,
          laws.eq_symm y x,
          laws.eq_lt y x,
          i.before_asymm a.id b.id,
        )

    before_below_trans :
        (a b c : U) → i.before a b ≡ false → i.before b c ≡ false → i.before a c ≡ false
    before_below_trans a b c h k =
        ground
          (arith, i.before_total a b, i.before_total b c, i.before_trans c b a, i.before_asymm a c)

    outranks_below_trans :
        (a b c : FusionRankRow U F)
        → HasNumber a
        → HasNumber b
        → HasNumber c
        → outranks a b ≡ false
        → outranks b c ≡ false
        → outranks a c ≡ false
    unfolding outranks
    outranks_below_trans a b c na nb nc h k =
        let x = a.fused_score in
        let y = b.fused_score in
        let z = c.fused_score in
        let xz = laws.lt_asymm x z in
        let no_eq = laws.eq_lt x z in
        elim (lt-or_eq laws x y na nb (ground arith)) [
          | inl p ↦ elim (lt-or_eq laws y z nb nc (ground arith)) [
            | inl q ↦ ground (arith, laws.lt_trans x y z p q, xz, no_eq)
            | inr q ↦ ground (arith, laws.lt_eq_trans x y z p q, xz, no_eq)
          ]
          | inr p ↦ elim (lt-or_eq laws y z nb nc (ground arith)) [
            | inl q ↦ ground (arith, laws.eq_lt_trans x y z p q, xz, no_eq)
            | inr q ↦ ground (
              arith,
              laws.eq_trans x y z p q,
              laws.eq_symm x z,
              laws.eq_lt z x,
              before_below_trans a.id b.id c.id,
            )
          ]
        ]

    pub outranks-IsWeakOrder : IsWeakOrder outranks HasNumber
    outranks-IsWeakOrder = record { asymm = outranks-asymm; below_trans = outranks_below_trans }

  module _ (dense lexical : List (ChunkCandidate U F)) (threshold weight : F) where
    -- With comparable scores the ranked rows are in order: no row outranks one before it.
    pub rank_chunks-IsRanked :
        IsOrdered o
        → All HasNumber (fused_rows dense lexical threshold weight)
        → IsRanked outranks (rank_chunks_fusion_detail dense lexical threshold weight)
    unfolding rank_chunks_fusion_detail
    rank_chunks-IsRanked laws h =
        exchange_sort-IsRanked outranks HasNumber (outranks-IsWeakOrder laws) _ h

    -- Every ranked row is the row that its id should get, from its last candidate that passes the
    -- threshold, and no two ranked rows have one id.
    pub rank_chunks_sound :
        All
          (λ r. expected dense lexical threshold weight r.id ≡ some r)
          (rank_chunks_fusion_detail dense lexical threshold weight)
        × AllPairs (λ a b. a.id ≢ b.id) (rank_chunks_fusion_detail dense lexical threshold weight)
    unfolding rank_chunks_fusion_detail
    rank_chunks_sound =
        let rows = fused_rows dense lexical threshold weight in
        (
          exchange_sort-All outranks _ rows (fused_rows_sound dense lexical threshold weight),
          exchange_sort-AllPairs outranks (λ a b. a.id ≢ b.id) (λ a b ne e. ne (sym e)) rows
              (fused_rows_apart dense lexical threshold weight),
        )

    -- The row that an id should get is among the ranked rows.
    pub rank_chunks_complete :
        (id : U) (r : FusionRankRow U F)
        → expected dense lexical threshold weight id ≡ some r
        → Mem r (rank_chunks_fusion_detail dense lexical threshold weight)
    unfolding rank_chunks_fusion_detail
    rank_chunks_complete id r h =
        (Perm.mem_iff (exchange_sort-perm outranks (fused_rows dense lexical threshold weight))).1
          (fused_rows_complete dense lexical threshold weight id r h)
