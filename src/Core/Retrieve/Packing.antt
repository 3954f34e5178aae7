-- ===== src/Core/Retrieve/Packing.antt =====
-- What the packing loop returns, and what its debug lists say about it.
use mathlib.Core.List.{map-append}
use ghost_vault.Prelude.{
  ℕ, ◌+◌, ◌≤◌, ◌<◌, ◌≡◌, refl, ap, ◌∙◌, true, false, List, [], ◌∷◌, ◌++◌, map, length,
  length-append, All, All-append, All-map, arith, leb, Bool-cases, leb→le, inl, inr, ◌⊎◌,
}
use ghost_vault.Prelude.Int.{ℤ, pos_part}
use ghost_vault.Text.{Text, Casing}
use ghost_vault.Core.Scoring.{ScoredChunk}
use ghost_vault.Core.ChunkBody.{ChunkBody, estimated_return_tokens}
use ghost_vault.Core.Snippet.{
  RetrieveSnippet, build_retrieve_snippet, resolve_retrieve_content_mode,
}
use ghost_vault.Core.Engine.{Result, ok, err}
use ghost_vault.Core.Retrieve.Pack.{
  Pack, PackingRow, no_pack, over_budget, pack_body, pack_chunk, pack,
}

abbrev pub sum_tokens : {U : Type 0} → List (PackingRow U) → ℕ
sum_tokens [] = 0
sum_tokens (r ∷ rs) = r.estimated_tokens + sum_tokens rs

sum_tokens-append :
    {U : Type 0} (xs ys : List (PackingRow U))
    → sum_tokens (xs ++ ys) ≡ sum_tokens xs + sum_tokens ys
sum_tokens-append [] ys = omega arith
sum_tokens-append (x ∷ xs) ys = omega (arith, sum_tokens-append xs ys)

abbrev pub IsTooLong : {U : Type 0} → ℤ → ℕ → PackingRow U → Type 0
IsTooLong max_tokens used row =
    (0 < pos_part max_tokens) × (pos_part max_tokens < used + row.estimated_tokens)

module _ {U F : Type 0} (max_tokens : ℤ) (max_chunks : ℕ) where
  -- The limits hold, and the debug lists account for what was returned and what was left out.
  pub record IsAccounted (st : Pack U F) : Type 0 where
    pub chunks_le : length st.out ≤ max_chunks
    pub tokens_le : (pos_part max_tokens ≡ 0) ⊎ (st.tokens_used ≤ pos_part max_tokens)
    pub tokens_sum : sum_tokens st.included ≡ st.tokens_used
    pub ids : map (λ r. r.chunk_id) st.included ≡ map (λ s. s.chunk_id) st.out
    pub too_long : All (IsTooLong max_tokens st.tokens_used) st.skipped_due_to_token_budget
    pub full : (st.stopped_due_to_max_chunks ≡ false) ⊎ (length st.out ≡ max_chunks)

  IsAccounted-no_pack : IsAccounted no_pack
  IsAccounted-no_pack = record {
    chunks_le = omega arith;
    tokens_le = inr (omega arith);
    tokens_sum = refl;
    ids = refl;
    too_long = tt;
    full = inl refl;
  }

  IsAccounted-skip :
      (st : Pack U F) (row : PackingRow U)
      → IsTooLong max_tokens st.tokens_used row
      → IsAccounted st
      → IsAccounted
          (record st { skipped_due_to_token_budget = st.skipped_due_to_token_budget ++ row ∷ [] })
  IsAccounted-skip st row long w = record {
    chunks_le = w.chunks_le;
    tokens_le = w.tokens_le;
    tokens_sum = w.tokens_sum;
    ids = w.ids;
    too_long = All-append _ st.skipped_due_to_token_budget (row ∷ []) w.too_long (long, tt);
    full = w.full;
  }

  IsAccounted-include :
      (st : Pack U F) (row : PackingRow U) (s : RetrieveSnippet U F)
      → row.chunk_id ≡ s.chunk_id
      → over_budget max_tokens st.tokens_used row.estimated_tokens ≡ false
      → length st.out < max_chunks
      → st.stopped_due_to_max_chunks ≡ false
      → IsAccounted st
      → IsAccounted (record st {
        tokens_used = st.tokens_used + row.estimated_tokens;
        out = st.out ++ s ∷ [];
        included = st.included ++ row ∷ [];
      })
  unfolding over_budget
  IsAccounted-include st row s same fits room going w = record {
    chunks_le = omega (arith, length-append st.out (s ∷ []));
    tokens_le = ground arith;
    tokens_sum = omega (arith, sum_tokens-append st.included (row ∷ []), w.tokens_sum);
    ids = simp (map-append, w.ids, same);
    too_long =
        All-map _ _ (λ r h. (h.0, omega (arith, h.1))) st.skipped_due_to_token_budget w.too_long;
    full = inl going;
  }

module _ {U F V : Type 0} ⦃u : Casing⦄ (max_tokens : ℤ) (mode : Text) (max_chunks : ℕ) where
  pack_body-IsAccounted :
      (r : ScoredChunk U F) (st : Pack U F) (cb : ChunkBody V)
      → length st.out < max_chunks
      → st.stopped_due_to_max_chunks ≡ false
      → IsAccounted max_tokens max_chunks st
      → IsAccounted max_tokens max_chunks (pack_body true max_tokens mode r st cb)
  unfolding pack_body
  pack_body-IsAccounted r st cb room going w =
      let res_mode = resolve_retrieve_content_mode mode cb in
      let est = estimated_return_tokens cb res_mode in
      let row : PackingRow U = record { chunk_id = r.id; estimated_tokens = est } in
      let s : RetrieveSnippet U F = build_retrieve_snippet r.id cb r.score res_mode in
      elim (Bool-cases (over_budget max_tokens st.tokens_used est)) [
        | inl over ↦ rw over (
            IsAccounted-skip max_tokens max_chunks st row
              (too_long max_tokens st.tokens_used row over) w)
        | inr fits ↦ rw fits (
            IsAccounted-include max_tokens max_chunks st row s
              (unfold build_retrieve_snippet in ground arith) fits room going w)
      ]
    where
      too_long :
          (m : ℤ) (used : ℕ) (row : PackingRow U)
          → over_budget m used row.estimated_tokens ≡ true
          → IsTooLong m used row
      too_long m used row h = ground arith

  module _ (load : U → Result (ChunkBody V)) where
    pack_chunk-IsAccounted :
        (r : ScoredChunk U F) (st : Pack U F) (loaded : Result (ChunkBody V))
        → length st.out < max_chunks
        → st.stopped_due_to_max_chunks ≡ false
        → IsAccounted max_tokens max_chunks st
        → IsAccounted max_tokens max_chunks (pack_chunk true max_tokens mode r st loaded)
    unfolding pack_chunk
    pack_chunk-IsAccounted r st (ok cb) room going w = pack_body-IsAccounted r st cb room going w
    pack_chunk-IsAccounted r st (err e) room going w = w

    pack_chunk-going :
        (r : ScoredChunk U F) (st : Pack U F) (loaded : Result (ChunkBody V))
        → (pack_chunk true max_tokens mode r st loaded).stopped_due_to_max_chunks
          ≡ st.stopped_due_to_max_chunks
    unfolding pack_chunk
    pack_chunk-going r st (ok cb) = ground arith
    pack_chunk-going r st (err e) = refl

    pack_all-IsAccounted :
        (ranked : List (ScoredChunk U F)) (st : Pack U F)
        → st.stopped_due_to_max_chunks ≡ false
        → IsAccounted max_tokens max_chunks st
        → IsAccounted max_tokens max_chunks (pack true max_tokens mode max_chunks load ranked st)
    unfolding pack
    pack_all-IsAccounted [] st going w = w
    pack_all-IsAccounted (r ∷ rest) st going w =
        elim (Bool-cases (leb max_chunks (length st.out))) [
          | inl stop ↦
              rw (stop, pack)
                (record {
                  chunks_le = w.chunks_le;
                  tokens_le = w.tokens_le;
                  tokens_sum = w.tokens_sum;
                  ids = w.ids;
                  too_long = w.too_long;
                  full = inr (omega (arith, leb→le _ _ stop, w.chunks_le));
                })
          | inr more ↦
              rw (more, pack)
                (pack_all-IsAccounted rest (pack_chunk true max_tokens mode r st (load r.id))
                  (pack_chunk-going r st (load r.id) ∙ going)
                  (pack_chunk-IsAccounted r st (load r.id) (ground arith) going w))
        ]

    -- With debug on, the packing loop returns at most max_chunks snippets and, under a token limit,
    -- uses at most that many tokens; the included rows carry the ids of the snippets and add up to
    -- the tokens used; each chunk skipped for its length would not fit even at the end; and the
    -- loop says that it stopped early only when it is full.
    pub pack-IsAccounted :
        (ranked : List (ScoredChunk U F))
        → IsAccounted max_tokens max_chunks
            (pack true max_tokens mode max_chunks load ranked no_pack)
    pack-IsAccounted ranked =
        pack_all-IsAccounted ranked no_pack refl (IsAccounted-no_pack max_tokens max_chunks)

    abbrev bare : Pack U F → Pack U F
    bare st = record no_pack { tokens_used = st.tokens_used; out = st.out }

    pack_chunk-bare :
        (r : ScoredChunk U F) (st : Pack U F) (loaded : Result (ChunkBody V))
        → pack_chunk false max_tokens mode r (bare st) loaded
          ≡ bare (pack_chunk true max_tokens mode r st loaded)
    unfolding pack_chunk
    pack_chunk-bare r st (ok cb) = ground arith
    pack_chunk-bare r st (err e) = refl

    pack-bare :
        (ranked : List (ScoredChunk U F)) (st : Pack U F)
        → pack false max_tokens mode max_chunks load ranked (bare st)
          ≡ bare (pack true max_tokens mode max_chunks load ranked st)
    unfolding pack
    pack-bare [] st = refl
    pack-bare (r ∷ rest) st = elim (Bool-cases (leb max_chunks (length st.out))) [
      | inl stop ↦ rw (stop, pack) refl
      | inr more ↦
          rw (more, pack, pack_chunk-bare r st (load r.id))
            (pack-bare rest (pack_chunk true max_tokens mode r st (load r.id)))
    ]

    -- The snippets do not depend on whether debug output is wanted.
    pub out-pack_debug :
        (ranked : List (ScoredChunk U F))
        → (pack false max_tokens mode max_chunks load ranked no_pack).out
          ≡ (pack true max_tokens mode max_chunks load ranked no_pack).out
    out-pack_debug ranked = ap (λ st. st.out) (pack-bare ranked no_pack)
