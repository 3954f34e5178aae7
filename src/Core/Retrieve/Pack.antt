-- ===== src/Core/Retrieve/Pack.antt =====
-- internal/core/engine.go: the packing loop of RetrieveWithDebug.
use ghost_vault.Prelude.{
  ℕ, ◌+◌, Bool, true, false, ◌&&◌, List, [], ◌∷◌, ◌++◌, map, ltb, leb, if◌then◌else◌, length,
}
use ghost_vault.Prelude.Int.{ℤ, pos_part}
use ghost_vault.Text.{Text, Casing}
use ghost_vault.Extern.{eq_of_uuids}
use ghost_vault.Core.Scoring.{ScoredChunk}
use ghost_vault.Core.ChunkBody.{ChunkBody, estimated_return_tokens}
use ghost_vault.Core.Snippet.{
  RetrieveSnippet, resolve_retrieve_content_mode, build_retrieve_snippet,
}
use ghost_vault.Core.Engine.{Result, ok, err}

pub record PackingRow (U : Type 0) : Type 0 where
  pub chunk_id : U
  pub estimated_tokens : ℕ

-- `tokensUsed`, `out`, and the lists of PackingDebug.
pub record Pack (U F : Type 0) : Type 0 where
  pub tokens_used : ℕ
  pub out : List (RetrieveSnippet U F)
  pub included : List (PackingRow U)
  pub skipped_due_to_token_budget : List (PackingRow U)
  pub skipped_due_to_max_chunks : List U
  pub stopped_due_to_max_chunks : Bool

module _ {U F : Type 0} where
  abbrev pub no_pack : Pack U F
  no_pack = record {
    tokens_used = 0;
    out = [];
    included = [];
    skipped_due_to_token_budget = [];
    skipped_due_to_max_chunks = [];
    stopped_due_to_max_chunks = false;
  }

-- `maxTokens > 0 && tokensUsed + est > maxTokens`
unfoldable pub over_budget : ℤ → ℕ → ℕ → Bool
over_budget max_tokens used est =
    ltb 0 (pos_part max_tokens) && ltb (pos_part max_tokens) (used + est)

module _ {U F V : Type 0} ⦃u : Casing⦄ (want_debug : Bool) (max_tokens : ℤ) (mode : Text) where
  -- A chunk whose body could be read.
  unfoldable pub pack_body : ScoredChunk U F → Pack U F → ChunkBody V → Pack U F
  unfolding over_budget
  pack_body r st cb =
      let res_mode = resolve_retrieve_content_mode mode cb in
      let est = estimated_return_tokens cb res_mode in
      let row : PackingRow U = record { chunk_id = r.id; estimated_tokens = est } in
      let skip = st.skipped_due_to_token_budget in
      if over_budget max_tokens st.tokens_used est
      then record st { skipped_due_to_token_budget = if want_debug then skip ++ row ∷ [] else skip }
      else record st {
        tokens_used = st.tokens_used + est;
        out = st.out ++ build_retrieve_snippet r.id cb r.score res_mode ∷ [];
        included = if want_debug then st.included ++ row ∷ [] else st.included;
      }

  -- `continue` on an error.
  unfoldable pub pack_chunk : ScoredChunk U F → Pack U F → Result (ChunkBody V) → Pack U F
  unfolding pack_body
  pack_chunk r st (ok cb) = pack_body r st cb
  pack_chunk r st (err e) = st

  module _ (max_chunks : ℕ) (load : U → Result (ChunkBody V)) where
    abbrev pub stop : List (ScoredChunk U F) → Pack U F → Pack U F
    stop rest st =
        if want_debug
        then record st {
          skipped_due_to_max_chunks = map (λ r. r.id) rest;
          stopped_due_to_max_chunks = true;
        }
        else st

    -- The packing loop over the ranked chunks.
    unfoldable pub pack : List (ScoredChunk U F) → Pack U F → Pack U F
    unfolding pack_chunk
    pack [] st = st
    pack (r ∷ rest) st = elim (leb max_chunks (length st.out)) [
      | true ↦ stop (r ∷ rest) st
      | false ↦ pack rest (pack_chunk r st (load r.id))
    ]
