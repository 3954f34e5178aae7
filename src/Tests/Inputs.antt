-- ===== src/Tests/Inputs.antt =====
-- A small vault: two memories, a session, the settings, and services that always answer.
use ghost_vault.Prelude.{
  ℕ, Bool, true, false, Option, none, some, List, [], ◌∷◌, ◌==◌, if◌then◌else◌,
}
use ghost_vault.Prelude.Int.{pos}
use ghost_vault.Text.{Text, codes}
use ghost_vault.Auth.{Session}
use ghost_vault.Store.{ChunkCandidate, ChunkPayload}
use ghost_vault.Store.Tables.{Db, ChunkInsert}
use ghost_vault.Core.Scoring.{ScoredChunk}
use ghost_vault.Core.ChunkBody.{ChunkBody}
use ghost_vault.Core.Engine.{Reads, Result, ok, err, not_found}
use ghost_vault.Core.Retrieve.Run.{Engine, RetrieveInput}
use ghost_vault.Core.Ingest.{IngestInput, IngestItem}
use ghost_vault.Core.Ingest.Persist.{Services}
use ghost_vault.Tests.Data.{nat_float, nat_uuids}

abbrev pub candidate : ℕ → ℕ → ℕ → ChunkCandidate ℕ ℕ
candidate id semantic lexical = record {
  chunk_id = id;
  semantic_score = semantic;
  lexical_score = 0;
  raw_lex_rank = lexical;
}

-- Chunk 3 is below the threshold, chunk 2 is found twice.
abbrev pub dense : List (ChunkCandidate ℕ ℕ)
dense = candidate 1 60 0 ∷ candidate 2 70 0 ∷ candidate 3 10 0 ∷ candidate 2 90 0 ∷ []

abbrev pub lexical : List (ChunkCandidate ℕ ℕ)
lexical = candidate 1 0 300 ∷ candidate 4 0 100 ∷ []

abbrev pub ranked : List (ScoredChunk ℕ ℕ)
ranked = record { id = 2; score = 58 } ∷ record { id = 1; score = 55 } ∷ []

abbrev pub opened : Session ℕ
opened = record {
  vault_id = 7;
  dek = 9 ∷ [];
  expires_at = 50;
  max_until = 100;
  last_seen = 10;
  idle = 40;
  token_hash = [];
}

abbrev pub engine : Bool → Engine ℕ
engine encrypted = record {
  cfg = record {
    encryption_on = encrypted;
    openai_api_key = codes "key";
    session_idle = 40;
    session_max = 100;
  };
  tuning = none;
  has_client = true;
}

abbrev pub plain_payload : ℕ → ChunkPayload ℕ
plain_payload id = record {
  id = id;
  ciphertext = [];
  nonce = [];
  body_text = some (codes "tea");
  embedding_model_id = [];
  item_kind = [];
  item_metadata = [];
  source_document_id = none;
  vault_id = 7;
}

-- The cipher of `services` puts a 9 before the text.
abbrev pub opened_text : List ℕ → Option Text
opened_text [] = none
opened_text (c ∷ text) = some text

abbrev pub reads : Reads ℕ ℕ ℕ
reads = record {
  embed = λ model text. some (5 ∷ []);
  search_dense = λ vault user model v k key only. some dense;
  search_lexical = λ vault user text k key only. some lexical;
  session_keys = λ ids. some [];
  get_chunk_payload = λ id. some (plain_payload id);
  get_chunk_for_vault = λ vault id. some (record {
    payload = plain_payload id;
    user_id = codes "ann";
    created_at = 3;
    chunk_schema_version = 1;
    ingest_session_key = none;
  });
  get_source_document = λ vault id. none;
  open_chunk = λ dek nonce ct. opened_text ct;
}

abbrev pub query : RetrieveInput ℕ
query = record {
  vault_id = 7;
  user_id = codes "ann";
  query = codes "tea?";
  max_chunks = pos 1;
  max_tokens = pos 10;
  session = some opened;
  opts = record { session_key = []; session_mode = []; content_mode = [] };
}

abbrev pub tea : ChunkBody (Unit {0})
tea = record {
  abstract = codes "tea";
  body = codes "likes green tea";
  kind = codes "fact";
  metadata = none;
  schema_ver = 2;
  raw_legacy = [];
}

abbrev pub load_tea : ℕ → Result (ChunkBody (Unit {0}))
load_tea id = if id == 3 then err not_found else ok tea

abbrev pub empty_db : Db ℕ ℕ (Unit {0})
empty_db = record {
  calls = 0;
  made = 10;
  chunks = [];
  embeddings = [];
  history = [];
  sources = [];
  messages = [];
}

-- Statement `n` fails where `bad` says so; sealing puts the key before the text.
abbrev pub services : (ℕ → Bool) → Services ℕ ℕ
services bad = record {
  fails = bad;
  new_id = λ n. n;
  sha256 = λ t. t;
  embed = λ model text. some (5 ∷ []);
  extract_memories = λ model text. some (text ∷ []);
  seal_chunk = λ n dek text. some (n ∷ [], 9 ∷ text);
}

abbrev pub item : Text → IngestItem (Unit {0})
item text = record { abstract = []; text = text; body = []; kind = []; metadata = none }

-- One item twice, and another one.
abbrev pub input : IngestInput ℕ (Unit {0})
input = record {
  vault_id = 7;
  user_id = codes "ann";
  session_key = [];
  text = [];
  abstract = [];
  kind = [];
  metadata = none;
  items = item (codes "tea") ∷ item (codes "tea") ∷ item (codes "rain") ∷ [];
  source_document = none;
  infer = false;
  infer_target = [];
  session = some opened;
}

abbrev pub row : ChunkInsert ℕ ℕ (Unit {0})
row = record {
  id = 4;
  vault_id = 7;
  user_id = codes "ann";
  ciphertext = [];
  nonce = [];
  key_id = none;
  body_text = some (codes "tea");
  content_sha256 = codes "tea";
  embedding_model_id = [];
  chunk_schema_version = 1;
  plain_for_tsv = codes "tea";
  embedding = 5;
  ingest_session_key = none;
  item_kind = [];
  item_metadata = none;
  source_document_id = none;
}
