-- ===== src/Store/Searching.antt =====
-- internal/store/store.go: SearchDense and SearchLexical, on the rows of memory_chunks and
-- chunk_embeddings. An embedding has the model of its chunk: InsertChunk writes both from one value.
pub mod Found
use ghost_vault.Prelude.{
  Bool, true, false, not, ◌&&◌, Option, none, some, List, [], ◌∷◌, ◌++◌, map, take, if◌then◌else◌,
}
use ghost_vault.Prelude.Int.{ℤ, pos, negsuc}
use ghost_vault.Text.{Text, is_empty, text_beq}
use ghost_vault.Extern.{Uuids, Float64}
use ghost_vault.Store.{ChunkCandidate}
use ghost_vault.Store.Tables.{ChunkRow, owned}

-- What Postgres computes for the two queries: the embeddings in the order of their distance to a
-- vector, as its index gives them, `1 - (a <=> b)`, the text search with its rank, and the rows
-- in the order of their ranks; and whether a query fails.
pub record Postgres (U E F : Type 0) : Type 0 where
  pub by_distance : E → List (U × E) → List (U × E)
  pub similarity : E → E → F
  pub matches : Text → Text → Bool
  pub ts_rank_cd : Text → Text → F
  pub by_rank : List (U × F) → List (U × F)
  pub dense_fails : Bool
  pub lexical_fails : Bool

-- `LIMIT`, which must not be negative.
abbrev pub limited : {A : Type 0} → ℤ → List A → Option (List A)
limited (pos n) rows = some (take n rows)
limited (negsuc n) rows = none

-- `onlySession && sessionKey != ""` adds `mc.ingest_session_key = $5`; NULL is equal to nothing.
abbrev pub has_session_key : Text → Option Text → Bool
has_session_key key none = false
has_session_key key (some k) = text_beq k key

abbrev pub of_session : Text → Bool → Option Text → Bool
of_session key only k = if only && not (is_empty key) then has_session_key key k else true

module _ {U E V : Type 0} ⦃i : Uuids U⦄ where
  -- The conditions on memory_chunks that both queries have.
  unfoldable pub is_searched : U → Text → Text → Bool → ChunkRow U E V → Bool
  is_searched vault user key only r =
      owned vault user r.chunk.vault_id r.chunk.user_id
      && not r.deleted
      && of_session key only r.chunk.ingest_session_key

abbrev lexical_candidate : {U F : Type 0} ⦃o : Float64 F⦄ → U × F → ChunkCandidate U F
lexical_candidate ⦃o⦄ (id, rank) = record {
  chunk_id = id;
  semantic_score = o.lit 0 0;
  lexical_score = o.lit 0 0;
  raw_lex_rank = rank;
}

module _ {U E F : Type 0} ⦃o : Float64 F⦄ (pg : Postgres U E F) where
  abbrev pub dense_candidate : E → E → U → ChunkCandidate U F
  dense_candidate query v id = record {
    chunk_id = id;
    semantic_score = pg.similarity v query;
    lexical_score = o.lit 0 0;
    raw_lex_rank = o.lit 0 0;
  }

  module _ {V : Type 0} ⦃i : Uuids U⦄ (vault : U) (user : Text) where
    -- The rows that one embedding is joined with.
    unfoldable pub joined :
        Text → E → Text → Bool → U × E → List (ChunkRow U E V) → List (ChunkCandidate U F)
    unfolding is_searched
    joined model query key only (id, v) [] = []
    joined model query key only (id, v) (r ∷ rows) =
        let rest = joined model query key only (id, v) rows in
        if is_searched vault user key only r
          && (i.id_eq.beq r.chunk.id id && text_beq r.chunk.embedding_model_id model)
        then dense_candidate query v r.chunk.id ∷ rest
        else rest

    unfoldable pub dense_hits :
        Text → E → Text → Bool → List (U × E) → List (ChunkRow U E V) → List (ChunkCandidate U F)
    unfolding joined
    dense_hits model query key only [] rows = []
    dense_hits model query key only (e ∷ es) rows =
        joined model query key only e rows ++ dense_hits model query key only es rows

    unfoldable pub search_dense :
        Text
        → E
        → ℤ
        → Text
        → Bool
        → List (U × E)
        → List (ChunkRow U E V)
        → Option (List (ChunkCandidate U F))
    unfolding dense_hits
    search_dense model query limit key only embeddings rows =
        if pg.dense_fails
        then none
        else limited limit (dense_hits model query key only (pg.by_distance query embeddings) rows)

    -- The ids and ranks of the rows that the text search finds.
    unfoldable pub lexical_hits : Text → Text → Bool → List (ChunkRow U E V) → List (U × F)
    unfolding is_searched
    lexical_hits query key only [] = []
    lexical_hits query key only (r ∷ rows) =
        let rest = lexical_hits query key only rows in
        if is_searched vault user key only r && pg.matches r.chunk.plain_for_tsv query
        then (r.chunk.id, pg.ts_rank_cd r.chunk.plain_for_tsv query) ∷ rest
        else rest

    unfoldable pub search_lexical :
        Text → ℤ → Text → Bool → List (ChunkRow U E V) → Option (List (ChunkCandidate U F))
    unfolding lexical_hits
    search_lexical query limit key only rows =
        if pg.lexical_fails
        then none
        else limited limit (map lexical_candidate (pg.by_rank (lexical_hits query key only rows)))
