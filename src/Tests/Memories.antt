-- ===== src/Tests/Memories.antt =====
-- Requests for memories at concrete inputs: vault ids are written as one character.
use ghost_vault.Prelude.{
  ℕ, ◌≡◌, ◌≢◌, refl, Bool, false, Option, none, some, [], ◌∷◌, lookup, insert,
}
use ghost_vault.Prelude.Int.{pos}
use ghost_vault.Text.{Text, codes, text_beq, is_space, trim_left, trim_right, trim_space, normalise}
use ghost_vault.Auth.{Session}
use ghost_vault.Auth.Manager.{done, touch, touch_cold, find_row_of_token}
use ghost_vault.Store.Tables.{Db, has_live_chunk}
use ghost_vault.Store.Effects.{Appended}
use ghost_vault.Core.Scoring.{fuse}
use ghost_vault.Core.ChunkBody.{est_tok, estimated_return_tokens, parse_chunk_plaintext}
use ghost_vault.Core.Snippet.{build_retrieve_snippet, resolve_retrieve_content_mode}
use ghost_vault.Core.Engine.{payload_to_chunk_body}
use ghost_vault.Core.Retrieve.Run.{rank, pack_ranked, retrieve_with_debug, load_chunk}
use ghost_vault.Api.{is_bearer, raw_token, action_token_vault, require_vault_auth}
use ghost_vault.Api.Vaults.{answer}
use ghost_vault.Api.Memories.{
  IngestReq, RetrieveReq, Retrieved, serve_ingest, serve_retrieve, retrieve_modes, delete_chunk,
}
use ghost_vault.Api.Memories.Isolation.{IsLetIn, serve_ingest-Appended, delete_chunk-other}
use ghost_vault.Api.Memories.Answers.{IsAnswer, serve_retrieve-IsAnswer}
use ghost_vault.Tests.Data.{nat_float, nat_uuids, ascii_casing, test_json}
use ghost_vault.Tests.Inputs.{services, engine, reads, empty_db, row, item}
use ghost_vault.Tests.Requests.{hash, no_faults, request, server}

abbrev parse : Text → Option ℕ
parse [] = none
parse (c ∷ s) = some c

abbrev body : IngestReq (Unit {0})
body = record {
  vault_id = 7 ∷ [];
  user_id = codes "ann";
  session_key = [];
  text = [];
  abstract = [];
  kind = [];
  metadata = none;
  items = item (codes "tea") ∷ item (codes "rain") ∷ [];
  source_document = none;
  infer = false;
  infer_target = [];
  messages = record { role = codes "user"; content = codes "tea?" } ∷ [];
  debug = false;
}

abbrev works : ℕ → Bool
works n = false

serve_ingest-Appended_example :
    Appended
      (IsLetIn parse
        (services works)
        (engine false)
        test_json
        false
        empty_db
        hash
        no_faults
        request
        20
        server)
      empty_db.chunks
      (serve_ingest parse
        (services works)
        (engine false)
        test_json
        false
        hash
        no_faults
        request
        20
        (some body)
        server
        empty_db).2.chunks
serve_ingest-Appended_example =
    serve_ingest-Appended parse (services works) (engine false) test_json false empty_db hash
      no_faults request 20 server (some body)

-- A live chunk of vault 8.
abbrev other_db : Db ℕ ℕ (Unit {0})
other_db = record empty_db {
  chunks = record { chunk = record row { vault_id = 8 }; deleted = false } ∷ [];
}

turned_to_seven :
    (sess : Session ℕ) → (require_vault_auth hash no_faults request 20 server).0 ≢ done (sess, 8)
unfolding require_vault_auth is_bearer raw_token action_token_vault touch touch_cold
    find_row_of_token lookup text_beq is_space trim_left trim_right trim_space
turned_to_seven sess h = cc h

delete_chunk-other_example :
    has_live_chunk 8 4
      (delete_chunk parse hash no_faults works request 20 (4 ∷ []) server other_db).2.chunks
    ≡ has_live_chunk 8 4 other_db.chunks
delete_chunk-other_example =
    delete_chunk-other parse hash no_faults works other_db 8 4 request 20 (4 ∷ []) server
      turned_to_seven

abbrev asked : RetrieveReq
asked = record {
  vault_id = 7 ∷ [];
  user_id = codes "ann";
  query = codes "tea?";
  max_chunks = pos 1;
  max_tokens = pos 10;
  session_key = [];
  session_mode = [];
  content_mode = [];
  debug = false;
}

abbrev found : Retrieved parse hash no_faults reads test_json (engine false)
found = (
  record {
    chunk_id = 1;
    text = codes "tea";
    score = 65;
    abstract = [];
    full_text = [];
    full_available = false;
    kind = [];
  }
      ∷ [],
  none,
)

answered :
    (serve_retrieve parse hash no_faults reads test_json
      (engine false)
      false
      request
      20
      (some asked)
      server).0
    ≡ answer 200 found
unfolding serve_retrieve retrieve_modes require_vault_auth is_bearer raw_token action_token_vault
    touch touch_cold find_row_of_token retrieve_with_debug rank pack_ranked load_chunk lookup insert
    payload_to_chunk_body estimated_return_tokens text_beq normalise trim_space trim_left trim_right
    resolve_retrieve_content_mode is_space parse_chunk_plaintext est_tok build_retrieve_snippet fuse
answered = refl

serve_retrieve-IsAnswer_example :
    (sess : Session ℕ) × (vault : ℕ) × (q : RetrieveReq) × ((require_vault_auth hash no_faults
        request 20 server).0
      ≡ done (sess, vault))
    × (some asked ≡ some q)
    × IsAnswer parse hash no_faults reads test_json (engine false) false sess vault q found
serve_retrieve-IsAnswer_example =
    serve_retrieve-IsAnswer parse hash no_faults reads test_json (engine false) false request 20
      (some asked) server answered
