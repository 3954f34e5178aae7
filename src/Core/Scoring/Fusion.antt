-- ===== src/Core/Scoring/Fusion.antt =====
-- What the fusion loop leaves in its maps, against a description with no state.
use mathlib.Core.List.{Mem, mem-append_left, mem-append_right, mem-cons_self, mem-map_of_mem}
use ghost_vault.Prelude.{
  ◌≡◌, ◌≢◌, refl, ap, Bool, true, false, Option, none, some, List, [], ◌∷◌, ◌++◌, not, ◌&&◌, ◌||◌,
  if◌then◌else◌, Assoc, lookup, insert, lookup-insert, is_some, All, All-map, All-append,
  All-map_of, AllPairs, AllPairs-snoc, AllPairs-map_of, ◌⊎◌, ◌∙◌, arith, Bool-cases, inl, inr,
}
use ghost_vault.Extern.{Float64, Uuids, eq_of_uuids}
use ghost_vault.Store.{ChunkCandidate}
use ghost_vault.Core.Scoring.{
  FusionRankRow, Fused, or_zero, fuse, fuse_candidate, fuse_all, no_rows, row_of, clamp_weight,
  lexical_norms, fused_rows,
}

module _ {U F : Type 0} ⦃i : Uuids U⦄ ⦃o : Float64 F⦄ where
  open i use {id_eq}

  -- The row of a candidate.
  abbrev pub candidate_row : F → Assoc U F → ChunkCandidate U F → FusionRankRow U F
  candidate_row lw norms c =
      let lx = or_zero (lookup c.chunk_id norms) in
      record {
        id = c.chunk_id;
        semantic_score = c.semantic_score;
        lexical_norm = lx;
        fused_score = fuse lw c.semantic_score lx;
      }

  -- A candidate of this id that passes the semantic gate.
  abbrev pub passes : F → U → ChunkCandidate U F → Bool
  passes threshold id c = id_eq.beq c.chunk_id id && not (o.lt c.semantic_score threshold)

  -- The row that an id should get: that of its last candidate that passes.
  unfoldable pub expected_row :
      F → F → Assoc U F → List (ChunkCandidate U F) → U → Option (FusionRankRow U F)
  expected_row threshold lw norms [] id = none
  expected_row threshold lw norms (c ∷ cs) id = elim (expected_row threshold lw norms cs id) [
    | some r ↦ some r
    | none ↦ if passes threshold id c then some (candidate_row lw norms c) else none
  ]

  abbrev or_else :
      Option (FusionRankRow U F) → Option (FusionRankRow U F) → Option (FusionRankRow U F)
  or_else (some r) _ = some r
  or_else none q = q

  -- What the maps hold under an id.
  row_at : Fused U F → U → Option (FusionRankRow U F)
  row_at st id = if is_some (lookup id st.scores) then some (row_of st id) else none

  module _ (threshold lw : F) (norms : Assoc U F) where
    row_at-fuse_candidate :
        (st : Fused U F) (c : ChunkCandidate U F) (id : U)
        → row_at (fuse_candidate threshold lw norms st c) id
          ≡ (if passes threshold id c then some (candidate_row lw norms c) else row_at st id)
    unfolding row_at fuse_candidate
    row_at-fuse_candidate st c id =
        let x = c.chunk_id in
        let lx = or_zero (lookup x norms) in
        ground (
          arith,
          id_eq.beq_iff x id,
          lookup-insert x id (fuse lw c.semantic_score lx) st.scores,
          lookup-insert x id c.semantic_score st.sem,
          lookup-insert x id lx st.lex,
        )

    row_at-fuse_all :
        (cs : List (ChunkCandidate U F)) (st : Fused U F) (id : U)
        → row_at (fuse_all threshold lw norms cs st) id
          ≡ or_else (expected_row threshold lw norms cs id) (row_at st id)
    unfolding fuse_all expected_row
    row_at-fuse_all [] st id = refl
    row_at-fuse_all (c ∷ cs) st id = ground (
      arith,
      row_at-fuse_all cs (fuse_candidate threshold lw norms st c) id,
      row_at-fuse_candidate st c id,
    )

  -- `order` lists the keys of `scores`, each once.
  record IsKeyed (order : List U) (scores : Assoc U F) : Type 0 where
    listed : All (λ id. is_some (lookup id scores) ≡ true) order
    complete : (id : U) → is_some (lookup id scores) ≡ true → Mem id order
    apart : AllPairs ◌≢◌ order

  ne_of_listed :
      (scores : Assoc U F) (k : U)
      → is_some (lookup k scores) ≡ false
      → (x : U) → is_some (lookup x scores) ≡ true
      → x ≢ k
  ne_of_listed scores k h x e p = cc (ap (λ (y : U). is_some (lookup y scores)) p)

  is_some-insert :
      (k : U) (v : F) (scores : Assoc U F) (x : U)
      → is_some (lookup x (insert k v scores)) ≡ (id_eq.beq k x || is_some (lookup x scores))
  is_some-insert k v scores x = ground (arith, lookup-insert k x v scores)

  still_listed :
      (k : U) (v : F) (scores : Assoc U F) (x : U)
      → is_some (lookup x scores) ≡ true
      → is_some (lookup x (insert k v scores)) ≡ true
  still_listed k v scores x h = ground (arith, is_some-insert k v scores x)

  key_of_insert :
      (k : U) (v : F) (scores : Assoc U F) (x : U)
      → is_some (lookup x (insert k v scores)) ≡ true
      → (k ≡ x) ⊎ (is_some (lookup x scores) ≡ true)
  key_of_insert k v scores x h = ground (arith, is_some-insert k v scores x, id_eq.beq_iff k x)

  IsKeyed-insert :
      (order : List U) (scores : Assoc U F) (k : U) (v : F)
      → IsKeyed order scores
      → IsKeyed (if is_some (lookup k scores) then order else order ++ k ∷ []) (insert k v scores)
  IsKeyed-insert order scores k v w = elim (Bool-cases (is_some (lookup k scores))) [
    | inl old ↦ rw old (record {
      listed = All-map _ _ (still_listed k v scores) order w.listed;
      complete = λ id h. elim (key_of_insert k v scores id h) [
        | inl e ↦ rw (← e) (w.complete k old)
        | inr seen ↦ w.complete id seen
      ];
      apart = w.apart;
    })
    | inr new ↦ rw new (record {
      listed =
          All-append _ order (k ∷ []) (All-map _ _ (still_listed k v scores) order w.listed)
            (ground (arith, is_some-insert k v scores k, id_eq.beq_iff k k), tt);
      complete = λ id h. elim (key_of_insert k v scores id h) [
        | inl e ↦ rw (← e) (mem-append_right order mem-cons_self)
        | inr seen ↦ mem-append_left (k ∷ []) (w.complete id seen)
      ];
      apart =
          AllPairs-snoc ◌≢◌ order k w.apart
            (All-map _ _ (ne_of_listed scores k new) order w.listed);
    })
  ]

  no_rows-IsKeyed : IsKeyed [] []
  unfolding lookup
  no_rows-IsKeyed = record { listed = tt; complete = λ id h. cc; apart = tt }

  module _ (threshold lw : F) (norms : Assoc U F) where
    fuse_candidate-IsKeyed :
        (st : Fused U F) (c : ChunkCandidate U F)
        → IsKeyed st.order st.scores
        → let st' = fuse_candidate threshold lw norms st c in IsKeyed st'.order st'.scores
    unfolding fuse_candidate
    fuse_candidate-IsKeyed st c w = elim (Bool-cases (o.lt c.semantic_score threshold)) [
      | inl low ↦ rw low w
      | inr high ↦ rw high (IsKeyed-insert st.order st.scores c.chunk_id _ w)
    ]

    fuse_all-IsKeyed :
        (cs : List (ChunkCandidate U F)) (st : Fused U F)
        → IsKeyed st.order st.scores
        → let st' = fuse_all threshold lw norms cs st in IsKeyed st'.order st'.scores
    unfolding fuse_all
    fuse_all-IsKeyed [] st w = w
    fuse_all-IsKeyed (c ∷ cs) st w =
        fuse_all-IsKeyed cs (fuse_candidate threshold lw norms st c) (fuse_candidate-IsKeyed st c w)

    row_at-no_rows : (id : U) → row_at no_rows id ≡ none
    unfolding row_at lookup
    row_at-no_rows id = refl

    or_else-none : (q : Option (FusionRankRow U F)) → or_else q none ≡ q
    or_else-none none = refl
    or_else-none (some r) = refl

    -- The maps at the end hold, under each id, the row that the id should get.
    row_at-expected :
        (cs : List (ChunkCandidate U F)) (id : U)
        → row_at (fuse_all threshold lw norms cs no_rows) id ≡ expected_row threshold lw norms cs id
    row_at-expected cs id =
        row_at-fuse_all threshold lw norms cs no_rows id
        ∙ ap (or_else (expected_row threshold lw norms cs id)) (row_at-no_rows id)
        ∙ or_else-none (expected_row threshold lw norms cs id)

  row_at-some :
      (st : Fused U F) (id : U) (r : FusionRankRow U F)
      → row_at st id ≡ some r
      → (is_some (lookup id st.scores) ≡ true) × (row_of st id ≡ r)
  unfolding row_at
  row_at-some st id r h = ground arith

  module _ (dense lexical : List (ChunkCandidate U F)) (threshold weight : F) where
    abbrev final : Fused U F
    final = fuse_all threshold (clamp_weight weight) (lexical_norms lexical []) dense no_rows

    abbrev pub expected : U → Option (FusionRankRow U F)
    expected = expected_row threshold (clamp_weight weight) (lexical_norms lexical []) dense

    keyed : IsKeyed final.order final.scores
    keyed = fuse_all-IsKeyed threshold _ _ dense no_rows no_rows-IsKeyed

    row_of-expected :
        (id : U) → is_some (lookup id final.scores) ≡ true → expected id ≡ some (row_of final id)
    unfolding row_at
    row_of-expected id h =
        ground (
          arith,
          row_at-expected threshold (clamp_weight weight) (lexical_norms lexical []) dense id,
        )

    -- Every row is the one that its id should get.
    pub fused_rows_sound :
        All (λ r. expected r.id ≡ some r) (fused_rows dense lexical threshold weight)
    unfolding fused_rows
    fused_rows_sound =
        All-map_of (row_of final) (λ r. expected r.id ≡ some r) final.order
          (All-map _ _ row_of-expected final.order keyed.listed)

    pub fused_rows_apart : AllPairs (λ a b. a.id ≢ b.id) (fused_rows dense lexical threshold weight)
    unfolding fused_rows
    fused_rows_apart = AllPairs-map_of (row_of final) (λ a b. a.id ≢ b.id) final.order keyed.apart

    pub fused_rows_complete :
        (id : U) (r : FusionRankRow U F)
        → expected id ≡ some r
        → Mem r (fused_rows dense lexical threshold weight)
    unfolding fused_rows
    fused_rows_complete id r h =
        let norms = lexical_norms lexical [] in
        let (listed, e) =
          row_at-some final id r
            (row_at-expected threshold (clamp_weight weight) norms dense id ∙ h) in
        rw (← e) (mem-map_of_mem (row_of final) (keyed.complete id listed))
