-- ===== src/Tests/Writing.antt =====
-- Writes at concrete inputs.
use ghost_vault.Prelude.{
  ℕ, ◌≡◌, ◌≢◌, ◌⊎◌, inl, inr, refl, Bool, true, false, none, some, Option, ap, sym, List, [], ◌∷◌,
  ◌==◌, ltb, arith,
}
use ghost_vault.Text.{Text, codes, text_beq, trim_space, byte_len, is_space, normalise}
use ghost_vault.Outcome.{Error, ok, err}
use ghost_vault.Store.Tables.{
  Db, ChunkInsert, Message, insert_chunk, recent_session_messages, prune_session_messages,
  soft_delete_chunk, has_live_chunk, has_live_hash,
}
use ghost_vault.Store.Pruning.{recent-prune}
use ghost_vault.Store.Deletion.{Deleted, soft_delete_exact}
use ghost_vault.Store.Effects.{Appended, Inserted, Untouched, insert_chunk-atomic}
use ghost_vault.Store.Unique.{IsUnique}
use ghost_vault.Core.Ingest.Run.{ingest_with_debug, ingest_work, ingest_item}
use ghost_vault.Core.Ingest.{IngestWorkItem, dedup_text}
use ghost_vault.Core.Ingest.Again.{ingest_work_again}
use ghost_vault.Outcome.Action.{◌>>=◌}
use ghost_vault.Core.Ingest.Stored.{IsStored, ingest-IsUnique, ingest-Appended}
use ghost_vault.Tests.Data.{nat_float, nat_uuids, ascii_casing, test_json}
use ghost_vault.Tests.Inputs.{services, engine, input, empty_db, row}
use ghost_vault.Store.{ChunkForVaultRow}
use ghost_vault.Store.Tables.{exec, transaction}
use ghost_vault.Text.{trim_left, trim_right}
use ghost_vault.Core.ChunkBody.{format_chunk_v2_json, lexical_source}
use ghost_vault.Core.Engine.{no_bytes}
use ghost_vault.Core.Retrieve.Run.{tuning_of, get_chunk_by_id}
use ghost_vault.Core.Ingest.{needs_v2_format, is_too_large}
use ghost_vault.Core.Ingest.Persist.{
  Summary, plaintext_of, persist_structured_item, embed_first, embed_text_of, store_text, tsv_of,
}
use ghost_vault.Core.Ingest.Decoded.{IsCipher}
use ghost_vault.Core.Ingest.ReadBack.{reads_of, get_chunk-persist}
use ghost_vault.Tests.Data.{test_json-IsJson, encode_map, encode_map-IsColumn}
use ghost_vault.Tests.Inputs.{reads, opened, opened_text}

-- The eighth statement fails, so that the second item is not stored.
ingest-IsUnique_example :
    IsUnique
      (ingest_with_debug (services (ltb 7)) (engine true) test_json input true empty_db).1.chunks
ingest-IsUnique_example =
    ingest-IsUnique (services (ltb 7)) (engine true) test_json input true empty_db tt

ingest-Appended_example :
    Appended
      (IsStored (services (ltb 7)) (engine true) test_json input)
      []
      (ingest_with_debug (services (ltb 7)) (engine true) test_json input true empty_db).1.chunks
ingest-Appended_example =
    ingest-Appended (services (ltb 7)) (engine true) test_json input true empty_db

-- The third of the transaction's five statements fails.
insert_chunk-atomic_example :
    ((insert_chunk (◌==◌ 2) row empty_db).0 ≡ ok tt
      × Inserted row empty_db (insert_chunk (◌==◌ 2) row empty_db).1)
    ⊎ ((x : Error) × ((insert_chunk (◌==◌ 2) row empty_db).0 ≡ err x)
        × Untouched empty_db (insert_chunk (◌==◌ 2) row empty_db).1)
insert_chunk-atomic_example = insert_chunk-atomic (◌==◌ 2) row empty_db

abbrev no_fault : ℕ → Bool
no_fault n = false

abbrev tea_item : IngestWorkItem ℕ (Unit {0})
tea_item = record {
  abstract = [];
  body = codes "tea";
  kind = [];
  metadata = none;
  source_document_id = none;
  source_text_for_tsv = [];
}

abbrev work : List (IngestWorkItem ℕ (Unit {0}))
work = tea_item ∷ tea_item ∷ []

ingested :
    (ingest_work (services no_fault) (engine false) test_json input [] work empty_db).0
    ≡ ok ((10, record { kind = []; embed = 3; tsv = 3 }) ∷ [])
unfolding ingest_work ingest_item trim_space is_space ◌>>=◌ byte_len insert_chunk text_beq
    dedup_text normalise
ingested = refl

ingest_work_again_example :
    let db = (ingest_work (services no_fault) (engine false) test_json input [] work empty_db).1 in
    ((ingest_work (services no_fault) (engine false) test_json input [] work db).0 ≡ ok [])
    × ((ingest_work (services no_fault) (engine false) test_json input [] work db).1.chunks
        ≡ db.chunks)
ingest_work_again_example =
    ingest_work_again (services no_fault) (engine false) test_json input (λ n. refl) work empty_db
      ingested

abbrev said : Text → Text → Message ℕ
said key content = record {
  vault_id = 7;
  user_id = codes "ann";
  session_key = key;
  role = codes "user";
  content = content;
}

abbrev talks : Db ℕ ℕ (Unit {0})
talks = record empty_db {
  messages =
      said (codes "s") (codes "c")
      ∷ said (codes "s2") (codes "b")
      ∷ said (codes "s") (codes "a")
      ∷ [];
}

recent-prune_example :
    (recent_session_messages no_fault 7
      (codes "ann")
      (codes "s")
      1
      (prune_session_messages no_fault 7 (codes "ann") (codes "s") 1 talks).1).0
    ≡ (recent_session_messages no_fault 7 (codes "ann") (codes "s") 1 talks).0
recent-prune_example = recent-prune 7 (codes "ann") (codes "s") no_fault 1 1 talks (omega arith)

s-is_s2 : codes "s" ≢ codes "s2"
s-is_s2 e = ground (arith, e)

abbrev row_5 : ChunkInsert ℕ ℕ (Unit {0})
row_5 = record row { id = 5; content_sha256 = codes "rain" }

abbrev two_rows : Db ℕ ℕ (Unit {0})
two_rows = record empty_db {
  chunks = record { chunk = row; deleted = false } ∷ record { chunk = row_5; deleted = false } ∷ [];
}

five_is-four : row_5.id ≢ row.id
five_is-four e = ground (arith, e)

soft_delete_exact_example :
    let r = soft_delete_chunk no_fault 7 4 two_rows in
    Deleted 7 4 no_fault two_rows r
    × (has_live_chunk 7 5 r.1.chunks ≡ has_live_chunk 7 5 two_rows.chunks)
soft_delete_exact_example = soft_delete_exact 7 4 no_fault two_rows 7 5 (inl five_is-four)

two_rows-IsUnique : IsUnique two_rows.chunks
unfolding has_live_hash text_beq
two_rows-IsUnique = (inr refl, (inr refl, tt))

abbrev fact : IngestWorkItem ℕ (Unit {0})
fact = record {
  abstract = codes "tea";
  body = codes "likes green tea";
  kind = codes "fact";
  metadata = none;
  source_document_id = none;
  source_text_for_tsv = [];
}

-- What was sealed under the key 9, opened.
services-IsCipher : IsCipher (services no_fault) reads
services-IsCipher = record { opens = λ n dek text nonce ct h. sealed_opens n text nonce ct h }
  where
    ciphertext_or : List ℕ → Option (List ℕ × List ℕ) → List ℕ
    ciphertext_or ct none = ct
    ciphertext_or ct (some (n, c)) = c

    sealed_opens :
        (n : ℕ) (text : Text) (nonce ct : List ℕ)
        → ◌≡◌ {A = Option (List ℕ × List ℕ)} (some (n ∷ [], 9 ∷ text)) (some (nonce, ct))
        → (no_bytes ct ≡ false) × (reads.open_chunk [] nonce ct ≡ some text)
    sealed_opens n text nonce ct h =
        let same : 9 ∷ text ≡ ct = ap (ciphertext_or ct) h in
        (sym (ap no_bytes same), sym (ap opened_text same))

fact_formatted : needs_v2_format fact ≡ true
unfolding needs_v2_format trim_space trim_left trim_right is_space
fact_formatted = refl

fact_stored :
    (r : ℕ × Summary) × ((persist_structured_item
        (services no_fault)
        true
        test_json
        (tuning_of (engine true))
        input
        fact
        []
        empty_db).0
      ≡ ok r)
unfolding persist_structured_item plaintext_of needs_v2_format format_chunk_v2_json is_too_large
    embed_first embed_text_of store_text insert_chunk transaction exec ◌>>=◌ trim_space trim_left
    trim_right is_space byte_len tsv_of lexical_source
fact_stored = (_, refl)

get_chunk-persist_example :
    (row : ChunkForVaultRow ℕ) × (get_chunk_by_id
        (reads_of
          (services no_fault)
          reads
          (engine true)
          test_json
          encode_map
          (λ n. 3)
          (persist_structured_item
            (services no_fault)
            true
            test_json
            (tuning_of (engine true))
            input
            fact
            []
            empty_db).1)
        test_json
        (engine true)
        7
        fact_stored.0.0
        (some opened)
      ≡ ok (
        row,
        record {
          abstract = codes "tea";
          body = codes "likes green tea";
          kind = codes "fact";
          metadata = none;
          schema_ver = 2;
          raw_legacy = [];
        },
      ))
get_chunk-persist_example =
    get_chunk-persist (services no_fault) reads (engine true) test_json encode_map (λ n. 3) input
      fact [] empty_db test_json-IsJson encode_map-IsColumn services-IsCipher refl fact_formatted
      refl tt fact_stored.1
