-- ===== src/Core/Ingest/ReadBack.antt =====
-- internal/core/ingest_work.go and engine.go: a structured item that was stored, read again.
use ghost_vault.Prelude.{
  ℕ, ◌≡◌, refl, sym, ap, ◌∙◌, true, false, Option, none, some, List, [], ◌∷◌, Assoc,
}
use ghost_vault.Text.{Text, text_eq, Casing}
use ghost_vault.Extern.{Uuids, Json, IsJson, Float64, omit_empty}
use ghost_vault.Outcome.{ok}
use ghost_vault.Auth.{Session}
use ghost_vault.Store.{ChunkForVaultRow}
use ghost_vault.Store.Tables.{Db, ChunkInsert, ChunkRow}
use ghost_vault.Store.Reading.{column_of, full_row, get_chunk_for_vault, get_chunk_for_vault-live}
use ghost_vault.Core.ChunkBody.{ChunkBody}
use ghost_vault.Core.Engine.{Reads, is_locked, payload_to_chunk_body}
use ghost_vault.Core.Retrieve.Run.{Engine, tuning_of, get_chunk_by_id}
use ghost_vault.Core.Ingest.Persist.{Services, Summary, persist_structured_item}
use ghost_vault.Core.Ingest.{IngestInput, IngestWorkItem, needs_v2_format}
use ghost_vault.Store.Effects.{live}
use ghost_vault.Core.Ingest.Decoded.{
  IsMetadata, IsColumn, IsCipher, row_body-item, decrypt-held, payload-read,
}
use ghost_vault.Core.Ingest.Written.{persist-OnTop, format-plaintext}

module _ {U E V F : Type 0} ⦃i : Uuids U⦄ ⦃u : Casing⦄ ⦃o : Float64 F⦄ (sv : Services U E)
    (r : Reads U F E) (e : Engine F) (j : Json V) (encode : Assoc Text V → Text)
    (created_at : U → ℕ) where
  -- Reading single chunks from the rows of the tables.
  abbrev pub reads_of : Db U E V → Reads U F E
  reads_of db = record r {
    get_chunk_for_vault =
        λ vault id. get_chunk_for_vault {E = E} encode created_at vault id db.chunks;
  }

  chunk-read :
      (reads : Reads U F E) (vault id : U) (session : Option (Session U)) (row : ChunkForVaultRow U)
      (cb : ChunkBody V)
      → is_locked e.cfg session ≡ false
      → reads.get_chunk_for_vault vault id ≡ some row
      → payload_to_chunk_body reads e.cfg j session row.payload ≡ ok cb
      → get_chunk_by_id reads j e vault id session ≡ ok (row, cb)
  unfolding get_chunk_by_id
  chunk-read reads vault id session row cb unlocked found read = rw (unlocked, found, read) refl

  found-OnTop :
      (db : Db U E V) (vault id : U) (c : ChunkInsert U E V) (rows : List (ChunkRow U E V))
      → db.chunks ≡ live c ∷ rows
      → c.id ≡ id
      → c.vault_id ≡ vault
      → (reads_of db).get_chunk_for_vault vault id ≡ some (full_row encode created_at c)
  found-OnTop db vault id c rows top same_id same_vault =
      ap (get_chunk_for_vault encode created_at vault id) top
      ∙ ap (λ k. get_chunk_for_vault encode created_at vault k (live c ∷ rows)) (sym same_id)
      ∙ ap (λ v. get_chunk_for_vault encode created_at v c.id (live c ∷ rows)) (sym same_vault)
      ∙ get_chunk_for_vault-live encode created_at c rows

  -- What is stored of a structured item is read back: once an item with an abstract, a kind or metadata,
  -- and without a linked document, was persisted, reading its id in the same vault under the same
  -- session gives its row and its abstract, body, kind and metadata, with encryption on or off. It
  -- relies on JSON, the metadata column and the cipher giving back what was put in.
  pub get_chunk-persist :
      (input : IngestInput U V) (w : IngestWorkItem U V) (hash : List ℕ) (db : Db U E V) {id : U}
      {sm : Summary}
      → IsJson j
      → IsColumn j encode
      → IsCipher sv r
      → is_locked e.cfg input.session ≡ false
      → needs_v2_format w ≡ true
      → w.source_document_id ≡ none
      → IsMetadata w.metadata
      → (persist_structured_item sv e.cfg.encryption_on j (tuning_of e) input w hash db).0
        ≡ ok (id, sm)
      → (row : ChunkForVaultRow U) × (get_chunk_by_id
            (reads_of
              (persist_structured_item sv e.cfg.encryption_on j (tuning_of e) input w hash db).1)
            j
            e
            input.vault_id
            id
            input.session
          ≡ ok (
            row,
            record {
              abstract = w.abstract;
              body = w.body;
              kind = w.kind;
              metadata = omit_empty w.metadata;
              schema_ver = 2;
              raw_legacy = [];
            },
          ))
  get_chunk-persist input w hash db {id} laws columns cipher unlocked v2 own is_map h =
      let on = e.cfg.encryption_on in
      let after = persist_structured_item sv on j (tuning_of e) input w hash db in
      let reads = reads_of after.1 in
      let opens : IsCipher sv reads = record { opens = cipher.opens } in
      let (c, rows, top, kept) = persist-OnTop sv on j (tuning_of e) input w hash db h in
      let row = full_row encode created_at c in
      let formatted = format-plaintext sv on j (tuning_of e) input w hash v2 own kept.said in
      let plain =
        decrypt-held sv reads opens e.cfg j input.session on row.payload kept.pay kept.text unlocked
          kept.same_ciphertext kept.same_nonce kept.same_body kept.held in
      let said =
        row_body-item reads e.cfg j encode columns row.payload w.abstract w.body w.kind kept.text
          w.metadata laws is_map kept.same_kind (ap (column_of encode) kept.same_metadata)
          formatted in
      let read =
        payload-read sv reads opens e.cfg j input.session row.payload kept.text _
          (kept.same_source ∙ own) plain said in
      (
        row,
        chunk-read reads input.vault_id id input.session row _ unlocked
            (found-OnTop after.1 input.vault_id id c rows top kept.same_id kept.same_vault) read,
      )
