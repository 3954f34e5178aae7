-- ===== src/Core/Retrieve/PackOrder.antt =====
-- The packing loop keeps the order of the ranking.
use mathlib.Core.List.{Sublistᴰ}
use ghost_vault.Prelude.{
  ℕ, ◌≡◌, refl, sym, ap, ◌∙◌, ◌⊎◌, Bool, true, false, List, [], ◌∷◌, ◌++◌, map, length, arith, leb,
  append-nil, append_assoc, Bool-cases, inl, inr,
}
use ghost_vault.Prelude.Int.{ℤ}
use ghost_vault.Text.{Text, Casing}
use ghost_vault.Core.Scoring.{ScoredChunk}
use ghost_vault.Core.ChunkBody.{ChunkBody, estimated_return_tokens}
use ghost_vault.Core.Snippet.{
  RetrieveSnippet, build_retrieve_snippet, resolve_retrieve_content_mode,
}
use ghost_vault.Core.Engine.{Result, ok, err}
use ghost_vault.Core.Retrieve.Pack.{Pack, no_pack, over_budget, pack_chunk, pack, stop}

nil_sublist {ℓ} : {A : Type ℓ} (xs : List A) → Sublistᴰ [] xs
nil_sublist [] = Sublistᴰ.slnil
nil_sublist (x ∷ xs) = Sublistᴰ.cons (nil_sublist xs)

module _ {U F : Type 0} where
  -- A snippet, or a ranked chunk, by its id and score.
  abbrev pub chunk_key : ScoredChunk U F → U × F
  chunk_key c = (c.id, c.score)

  abbrev pub snippet_key : RetrieveSnippet U F → U × F
  snippet_key s = (s.chunk_id, s.score)

  -- The later state has new snippets behind the old ones, of chunks of the list and in its order.
  abbrev Extends : Pack U F → Pack U F → List (ScoredChunk U F) → Type 0
  Extends st st' ranked =
      (new : List (RetrieveSnippet U F)) × (st'.out ≡ st.out ++ new)
      × Sublistᴰ (map snippet_key new) (map chunk_key ranked)

  Extends-none : (st : Pack U F) (ranked : List (ScoredChunk U F)) → Extends st st ranked
  Extends-none st ranked = ([], sym (append-nil st.out), nil_sublist (map chunk_key ranked))

  -- One chunk adds one snippet of its own, or none.
  abbrev AddsOne : Pack U F → Pack U F → ScoredChunk U F → Type 0
  AddsOne st st' r =
      (st'.out ≡ st.out)
      ⊎ ((s : RetrieveSnippet U F) × (st'.out ≡ st.out ++ s ∷ []) × (snippet_key s ≡ chunk_key r))

  Extends-step :
      (st st' st'' : Pack U F) (r : ScoredChunk U F) (rest : List (ScoredChunk U F))
      → AddsOne st st' r
      → Extends st' st'' rest
      → Extends st st'' (r ∷ rest)
  Extends-step st st' st'' r rest (inl e) (new, out, sub) =
      (new, out ∙ ap (λ o. o ++ new) e, Sublistᴰ.cons sub)
  Extends-step st st' st'' r rest (inr (s, e, k)) (new, out, sub) = (
    s ∷ new,
    out ∙ ap (λ o. o ++ new) e ∙ append_assoc st.out (s ∷ []) new,
    Sublistᴰ.cons-cons k sub,
  )

module _ {U F V : Type 0} ⦃u : Casing⦄ (want : Bool) (max_tokens : ℤ) (mode : Text) where
  key-build :
      (r : ScoredChunk U F) (cb : ChunkBody V) (res_mode : Text)
      → snippet_key (build_retrieve_snippet r.id cb r.score res_mode) ≡ chunk_key r
  unfolding build_retrieve_snippet
  key-build r cb res_mode = ground arith

  pack_chunk-AddsOne :
      (r : ScoredChunk U F) (st : Pack U F) (loaded : Result (ChunkBody V))
      → AddsOne st (pack_chunk want max_tokens mode r st loaded) r
  unfolding pack_chunk
  pack_chunk-AddsOne r st (err e) = inl refl
  pack_chunk-AddsOne r st (ok cb) =
      let res_mode = resolve_retrieve_content_mode mode cb in
      let est = estimated_return_tokens cb res_mode in
      elim (Bool-cases (over_budget max_tokens st.tokens_used est)) [
        | inl over ↦ inl (rw over)
        | inr fits ↦
            inr (build_retrieve_snippet r.id cb r.score res_mode, rw fits, key-build r cb res_mode)
      ]

  module _ (max_chunks : ℕ) (load : U → Result (ChunkBody V)) where
    pack-Extends :
        (ranked : List (ScoredChunk U F)) (st : Pack U F)
        → Extends st (pack want max_tokens mode max_chunks load ranked st) ranked
    unfolding pack
    pack-Extends [] st = Extends-none st []
    pack-Extends (r ∷ rest) st = elim (Bool-cases (leb max_chunks (length st.out))) [
      | inl full ↦ rw (full, pack) (stopped want)
      | inr more ↦
          let st' = pack_chunk want max_tokens mode r st (load r.id) in
          rw (more, pack)
            (Extends-step st st' (pack want max_tokens mode max_chunks load rest st') r rest
              (pack_chunk-AddsOne r st (load r.id)) (pack-Extends rest st'))
    ]
      where
        stopped :
            (w : Bool)
            → Extends st (stop w max_tokens mode max_chunks load (r ∷ rest) st) (r ∷ rest)
        stopped true = Extends-none st (r ∷ rest)
        stopped false = Extends-none st (r ∷ rest)

    -- The snippets are those of some of the ranked chunks, with their scores, in the order of the
    -- ranking.
    pub pack-Sublist :
        (ranked : List (ScoredChunk U F))
        → Sublistᴰ
            (map snippet_key (pack want max_tokens mode max_chunks load ranked no_pack).out)
            (map chunk_key ranked)
    pack-Sublist ranked = let (new, e, sub) = pack-Extends ranked no_pack in rw e sub
