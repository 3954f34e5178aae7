-- ===== src/Tests/Reading.antt =====
-- Reads at concrete inputs.
use ghost_vault.Prelude.{
  ℕ, ◌≤◌, ◌≡◌, ◌≢◌, refl, true, false, none, some, List, [], ◌∷◌, length, All, arith, lookup,
  insert,
}
use ghost_vault.Text.{Text, codes, trim_space, trim_left, trim_right, is_space, text_beq, normalise}
use ghost_vault.Core.Scoring.{fuse}
use ghost_vault.Core.ChunkBody.{
  ChunkBody, est_tok, estimated_return_tokens, format_chunk_v2_json, parse_chunk_plaintext,
  legacy_body,
}
use ghost_vault.Core.ChunkBody.Stored.{IsEnvelope}
use ghost_vault.Core.Chunking.{step_of, chunk_from, chunk_text}
use ghost_vault.Core.Chunking.Rounds.{chunk_from-ends}
use ghost_vault.Core.Chunking.Laws.{stitch, IsChunk, stitch-chunk_text}
use ghost_vault.Core.Snippet.{
  RetrieveSnippet, build_retrieve_snippet, resolve_retrieve_content_mode,
}
use ghost_vault.Core.Engine.{ok, payload_to_chunk_body}
use ghost_vault.Core.Retrieve.Run.{
  rank, pack_ranked, retrieve_with_debug, retrieve, get_chunk_by_id, load_chunk,
}
use ghost_vault.Tests.Data.{nat_float, nat_uuids, ascii_casing, test_json, encoded}
use ghost_vault.Tests.Inputs.{reads, engine, query, opened, plain_payload}

abbrev stored : Text
stored = encoded 2 (codes "tea") (codes "likes") (codes "fact")

stored-format :
    format_chunk_v2_json test_json (codes "tea") (codes "likes") (codes "fact") none ≡ some stored
unfolding format_chunk_v2_json
stored-format = refl

no-IsEnvelope : ¬ IsEnvelope test_json (codes "tea")
no-IsEnvelope (w, e, v) = cc e

not_blank : trim_space (codes "tea") ≢ []
unfolding trim_space trim_left trim_right is_space
not_blank e = cc e

stitch-chunk_text_example :
    (stitch (step_of 4 1) (chunk_text (codes "green tea") 4 1) ≡ codes "green tea")
    × All (IsChunk 4) (chunk_text (codes "green tea") 4 1)
stitch-chunk_text_example = stitch-chunk_text (codes "green tea") 4 1 (omega arith)

abstract_mode : codes "abstract" ≢ codes "full"
abstract_mode e = cc e

abbrev found : List (RetrieveSnippet ℕ ℕ)
found =
    record {
      chunk_id = 1;
      text = codes "tea";
      score = 65;
      abstract = [];
      full_text = [];
      full_available = false;
      kind = [];
    }
    ∷ []

retrieve-found : retrieve reads test_json (engine false) query ≡ ok found
unfolding retrieve retrieve_with_debug rank pack_ranked load_chunk lookup insert
    payload_to_chunk_body estimated_return_tokens text_beq normalise trim_space
    resolve_retrieve_content_mode is_space parse_chunk_plaintext est_tok build_retrieve_snippet fuse
retrieve-found = refl

abbrev tea_text : ChunkBody (Unit {0})
tea_text = legacy_body (codes "tea")

get_chunk-found :
    get_chunk_by_id reads test_json (engine true) 7 2 (some opened)
    ≡ ok (
      record {
        payload = plain_payload 2;
        user_id = codes "ann";
        created_at = 3;
        chunk_schema_version = 1;
        ingest_session_key = none;
      },
      tea_text,
    )
unfolding get_chunk_by_id payload_to_chunk_body parse_chunk_plaintext trim_space is_space
get_chunk-found = refl

chunk_from-ends_example :
    (chunk_from 4 (step_of 4 1) 9 (codes "abcdefg")
      ≡ chunk_from 4 (step_of 4 1) 7 (codes "abcdefg"))
    × (length (chunk_from 4 (step_of 4 1) 9 (codes "abcdefg")) ≤ 7)
chunk_from-ends_example = chunk_from-ends (codes "abcdefg") 4 1 9 (omega arith) (omega arith)
