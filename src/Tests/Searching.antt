-- ===== src/Tests/Searching.antt =====
-- A retrieval over concrete tables.
use ghost_vault.Prelude.{ℕ, ◌≡◌, refl, true, false, none, some, List, [], ◌∷◌, All, lookup, insert}
use ghost_vault.Text.{codes, trim_space, is_space, text_beq, normalise}
use ghost_vault.Store.Tables.{Db, ChunkInsert}
use ghost_vault.Store.Reading.{get_chunk_payload}
use ghost_vault.Store.Searching.{
  Postgres, is_searched, joined, dense_hits, search_dense, lexical_hits, search_lexical,
}
use ghost_vault.Store.Searching.Found.{IsFound}
use ghost_vault.Core.Scoring.{fuse}
use ghost_vault.Core.ChunkBody.{est_tok, estimated_return_tokens, parse_chunk_plaintext}
use ghost_vault.Core.Snippet.{
  RetrieveSnippet, build_retrieve_snippet, resolve_retrieve_content_mode,
}
use ghost_vault.Core.Engine.{Reads, ok, payload_to_chunk_body}
use ghost_vault.Core.Retrieve.Owned.{reads_from, searches_session, retrieve-IsFound}
use ghost_vault.Core.Retrieve.Run.{
  RetrieveInput, rank, pack_ranked, retrieve_with_debug, load_chunk, tuning_of, session_key,
}
use ghost_vault.Tests.Data.{nat_float, nat_uuids, ascii_casing, test_json}
use ghost_vault.Tests.Inputs.{reads, engine, query, row, empty_db}

-- An index that gives every row, and a text search that finds nothing.
abbrev postgres : Postgres ℕ ℕ ℕ
postgres = record {
  by_distance = λ v es. es;
  similarity = λ a b. 60;
  matches = λ text query. false;
  ts_rank_cd = λ text query. 0;
  by_rank = λ hits. hits;
  dense_fails = false;
  lexical_fails = false;
}

abbrev stored : ChunkInsert ℕ ℕ (Unit {0})
stored = record row {
  embedding_model_id = (tuning_of (engine false)).embedding_model;
  ingest_session_key = some (codes "s");
}

-- A chunk that may be found, one of another user, a deleted one, and one of another session.
abbrev tables : Db ℕ ℕ (Unit {0})
tables = record empty_db {
  chunks =
      record { chunk = record stored { id = 1; user_id = codes "bob" }; deleted = false }
      ∷ record { chunk = record stored { id = 2 }; deleted = true }
      ∷ record { chunk = record stored { id = 3; ingest_session_key = none }; deleted = false }
      ∷ record { chunk = stored; deleted = false }
      ∷ [];
  embeddings = (1, 5) ∷ (2, 5) ∷ (3, 5) ∷ (4, 5) ∷ [];
}

abbrev only_s : RetrieveInput ℕ
only_s = record query {
  opts = record { session_key = codes "s"; session_mode = codes "only"; content_mode = [] };
}

abbrev stored_reads : Reads ℕ ℕ ℕ
stored_reads = reads_from postgres (λ m. []) (λ id. 0) tables reads

abbrev found : List (RetrieveSnippet ℕ ℕ)
found =
    record {
      chunk_id = 4;
      text = codes "tea";
      score = 39;
      abstract = [];
      full_text = [];
      full_available = false;
      kind = [];
    }
    ∷ []

retrieve-found :
    retrieve_with_debug stored_reads test_json (engine false) only_s false ≡ ok (found, none)
unfolding retrieve_with_debug rank pack_ranked load_chunk lookup insert search_dense search_lexical
    dense_hits joined lexical_hits is_searched get_chunk_payload payload_to_chunk_body
    estimated_return_tokens text_beq normalise trim_space resolve_retrieve_content_mode is_space
    parse_chunk_plaintext est_tok build_retrieve_snippet fuse
retrieve-found = refl

retrieve-IsFound_example :
    All
      (IsFound 7 (codes "ann") (session_key only_s) (searches_session only_s) tables.chunks)
      (4 ∷ [])
retrieve-IsFound_example =
    retrieve-IsFound postgres (λ m. []) (λ id. 0) tables reads test_json (engine false) only_s false
      retrieve-found
