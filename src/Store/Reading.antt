-- ===== src/Store/Reading.antt =====
-- internal/store/store.go: GetChunkPayload, GetChunkForVault, IngestSessionKeysByChunkIDs and
-- GetSourceDocumentForVault, on the rows of memory_chunks and source_documents. A column
-- of a metadata map holds its JSON text, which `encode` gives, and `created_at` is the time that the
-- database put into the row of an id.
use ghost_vault.Prelude.{
  ℕ, ◌≡◌, refl, Bool, false, insert, ◌||◌, not, ◌&&◌, Option, none, some, List, [], ◌∷◌,
  if◌then◌else◌, Assoc,
}
use ghost_vault.Text.{Text}
use ghost_vault.Extern.{Uuids, eq_of_uuids}
use ghost_vault.Store.{ChunkPayload, ChunkForVaultRow, SourceDocumentRow}
use ghost_vault.Store.Tables.{ChunkInsert, ChunkRow, SourceDocumentInsert}

abbrev pub column_of : {V : Type 0} → (Assoc Text V → Text) → Option (Assoc Text V) → Text
column_of encode none = []
column_of encode (some m) = encode m

module _ {U E V : Type 0} ⦃i : Uuids U⦄ (encode : Assoc Text V → Text) (created_at : U → ℕ) where
  abbrev pub payload_of_row : ChunkInsert U E V → ChunkPayload U
  payload_of_row c = record {
    id = c.id;
    ciphertext = c.ciphertext;
    nonce = c.nonce;
    body_text = c.body_text;
    embedding_model_id = c.embedding_model_id;
    item_kind = c.item_kind;
    item_metadata = column_of encode c.item_metadata;
    source_document_id = c.source_document_id;
    vault_id = c.vault_id;
  }

  abbrev pub full_row : ChunkInsert U E V → ChunkForVaultRow U
  full_row c = record {
    payload = payload_of_row c;
    user_id = c.user_id;
    created_at = created_at c.id;
    chunk_schema_version = c.chunk_schema_version;
    ingest_session_key = c.ingest_session_key;
  }

  -- `WHERE mc.id = $1 AND mc.deleted_at IS NULL`
  unfoldable pub get_chunk_payload : U → List (ChunkRow U E V) → Option (ChunkPayload U)
  get_chunk_payload id [] = none
  get_chunk_payload id (r ∷ rows) =
      if i.id_eq.beq r.chunk.id id && not r.deleted
      then some (payload_of_row r.chunk)
      else get_chunk_payload id rows

  -- `WHERE id = $1 AND vault_id = $2 AND deleted_at IS NULL`
  unfoldable pub get_chunk_for_vault : U → U → List (ChunkRow U E V) → Option (ChunkForVaultRow U)
  get_chunk_for_vault vault id [] = none
  get_chunk_for_vault vault id (r ∷ rows) =
      if i.id_eq.beq r.chunk.id id && i.id_eq.beq r.chunk.vault_id vault && not r.deleted
      then some (full_row r.chunk)
      else get_chunk_for_vault vault id rows

  -- A chunk that was just put on top is found.
  pub get_chunk_for_vault-live :
      (c : ChunkInsert U E V) (rows : List (ChunkRow U E V))
      → get_chunk_for_vault c.vault_id c.id (record { chunk = c; deleted = false } ∷ rows)
        ≡ some (full_row c)
  unfolding get_chunk_for_vault
  get_chunk_for_vault-live c rows =
      rw ((i.id_eq.beq_iff c.id c.id).1 refl, (i.id_eq.beq_iff c.vault_id c.vault_id).1 refl) refl

abbrev is_listed : {U : Type 0} ⦃i : Uuids U⦄ → U → List U → Bool
is_listed id [] = false
is_listed ⦃i⦄ id (x ∷ xs) = i.id_eq.beq x id || is_listed id xs

module _ {U E V : Type 0} ⦃i : Uuids U⦄ where
  -- The loop over the rows `WHERE id IN (...) AND deleted_at IS NULL`.
  unfoldable pub keys_into :
      List U → List (ChunkRow U E V) → Assoc U (Option Text) → Assoc U (Option Text)
  keys_into ids [] out = out
  keys_into ids (r ∷ rows) out = keys_into ids rows (
      if is_listed r.chunk.id ids && not r.deleted
      then insert r.chunk.id r.chunk.ingest_session_key out
      else out)

  abbrev pub ingest_session_keys_by_chunk_ids :
      List U → List (ChunkRow U E V) → Assoc U (Option Text)
  ingest_session_keys_by_chunk_ids ids rows = keys_into ids rows []

module _ {U : Type 0} ⦃i : Uuids U⦄ (created_at : U → ℕ) where
  abbrev source_row : SourceDocumentInsert U → SourceDocumentRow U
  source_row d = record {
    id = d.id;
    vault_id = d.vault_id;
    user_id = d.user_id;
    title = d.title;
    ciphertext = d.ciphertext;
    nonce = d.nonce;
    body_text = d.body_text;
    content_sha256 = d.content_sha256;
    created_at = created_at d.id;
  }

  -- `WHERE id = $1 AND vault_id = $2`
  unfoldable pub get_source_document_for_vault :
      U → U → List (SourceDocumentInsert U) → Option (SourceDocumentRow U)
  get_source_document_for_vault vault doc [] = none
  get_source_document_for_vault vault doc (d ∷ ds) =
      if i.id_eq.beq d.id doc && i.id_eq.beq d.vault_id vault
      then some (source_row d)
      else get_source_document_for_vault vault doc ds
