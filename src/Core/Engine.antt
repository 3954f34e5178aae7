-- ===== src/Core/Engine.antt =====
-- internal/core/engine.go: the errors of the engine, and what it takes from the store, the
-- embedding service and the cipher when it reads.
use ghost_vault.Prelude.{
  ℕ, Bool, true, false, ◌&&◌, Option, none, some, List, [], ◌∷◌, if◌then◌else◌, Assoc, insert,
}
pub use ghost_vault.Outcome.{
  Error, vault_locked, openai_required, embed_failed, empty_embedding, search_failed, not_found,
  empty_payload, missing_dek, open_failed, source_failed, empty_source, Result, ok, err, ◌>>=◌,
  ◌>>◌, bind-eq_ok, unless, not_stopped, or_error, or_error-eq_ok, ok-inj,
}
use ghost_vault.Prelude.Int.{ℤ}
use ghost_vault.Text.{Text, is_empty, trim_space, text_eq}
use ghost_vault.Extern.{Uuids, Json, eq_of_uuids}
use ghost_vault.Auth.{Session}
use ghost_vault.Config.{Config}
use ghost_vault.Store.{ChunkCandidate, ChunkPayload, ChunkForVaultRow, SourceDocumentRow}
use ghost_vault.Core.ChunkBody.{ChunkBody, parse_chunk_plaintext}

-- The queries of internal/store that Postgres answers, the embedding call of OpenAI, and
-- `VaultCrypto.OpenChunk`. `none` is an error of the call.
pub record Reads (U F E : Type 0) : Type 0 where
  pub embed : Text → Text → Option (List E)
  pub search_dense : U → Text → Text → E → ℤ → Text → Bool → Option (List (ChunkCandidate U F))
  pub search_lexical : U → Text → Text → ℤ → Text → Bool → Option (List (ChunkCandidate U F))
  pub session_keys : List U → Option (Assoc U (Option Text))
  pub get_chunk_payload : U → Option (ChunkPayload U)
  pub get_chunk_for_vault : U → U → Option (ChunkForVaultRow U)
  pub get_source_document : U → U → Option (SourceDocumentRow U)
  pub open_chunk : List ℕ → List ℕ → List ℕ → Option Text

abbrev pub no_bytes : List ℕ → Bool
no_bytes [] = true
no_bytes (b ∷ bs) = false

module _ {U : Type 0} where
  -- `session == nil || len(session.DEK) == 0`
  abbrev pub lacks_dek : Option (Session U) → Bool
  lacks_dek none = true
  lacks_dek (some s) = no_bytes s.dek

  abbrev pub dek_of : Option (Session U) → List ℕ
  dek_of none = []
  dek_of (some s) = s.dek

  -- `e.Cfg.Encryption == config.EncryptionOn && (session == nil || len(session.DEK) == 0)`
  abbrev pub is_locked : Config → Option (Session U) → Bool
  is_locked cfg session = cfg.encryption_on && lacks_dek session

module _ {U F E V : Type 0} ⦃i : Uuids U⦄ (db : Reads U F E) (cfg : Config) (j : Json V) where
  unfoldable pub decrypt_payload_string : Option (Session U) → ChunkPayload U → Result Text
  decrypt_payload_string session p = elim p.body_text [
    | some t ↦ ok t
    | none ↦ do
      unless (no_bytes p.ciphertext) empty_payload
      unless (lacks_dek session) missing_dek
      or_error open_failed (db.open_chunk (dek_of session) p.nonce p.ciphertext)
  ]

  -- With encryption off, Go panics at a nil session here; the handlers always pass a session, and
  -- that of an action token has no DEK.
  unfoldable pub source_document_plaintext : Option (Session U) → SourceDocumentRow U → Result Text
  source_document_plaintext session d = elim d.body_text [
    | some t ↦ ok t
    | none ↦ do
      unless (no_bytes d.ciphertext) empty_source
      unless (is_locked cfg session) vault_locked
      or_error open_failed (db.open_chunk (dek_of session) d.nonce d.ciphertext)
  ]

  -- `for k, v := range rowMeta { cb.Metadata[k] = v }`
  unfoldable pub overlay : Assoc Text V → Assoc Text V → Assoc Text V
  overlay [] m = m
  overlay ((k, v) ∷ row) m = overlay row (insert k v m)

  -- The metadata of the row over that of the body.
  abbrev pub merge_metadata : Option (Assoc Text V) → Option (Assoc Text V) → Option (Assoc Text V)
  merge_metadata none body = body
  merge_metadata (some []) body = body
  merge_metadata (some (e ∷ row)) none = some (e ∷ row)
  merge_metadata (some (e ∷ row)) (some m) = some (overlay (e ∷ row) m)

  abbrev pub row_metadata : Text → Option (Assoc Text V)
  row_metadata [] = none
  row_metadata (c ∷ s) = j.unmarshal_map (c ∷ s)

  -- The body that a row's own text gives, with the kind and metadata columns.
  unfoldable pub row_body : ChunkPayload U → Text → ChunkBody V
  unfolding overlay
  row_body p plain =
      let cb : ChunkBody V = parse_chunk_plaintext j plain in
      let blank = is_empty (trim_space cb.kind) in
      record cb {
        kind =
            if is_empty (trim_space p.item_kind)
            then cb.kind
            else if blank
            then p.item_kind
            else cb.kind;
        metadata = merge_metadata (row_metadata p.item_metadata) cb.metadata;
      }

  unfoldable pub with_source :
      Option (Session U) → ChunkPayload U → ChunkBody V → Option U → Result (ChunkBody V)
  unfolding source_document_plaintext
  with_source session p cb none = ok cb
  with_source session p cb (some doc) = if i.id_eq.beq p.vault_id i.nil then ok cb else do
    row ← or_error source_failed (db.get_source_document p.vault_id doc)
    full ← source_document_plaintext session row
    ok (if is_empty (trim_space cb.body) then record cb { body = full } else cb)

  unfoldable pub payload_to_chunk_body : Option (Session U) → ChunkPayload U → Result (ChunkBody V)
  unfolding decrypt_payload_string row_body with_source
  payload_to_chunk_body session p = do
    plain ← decrypt_payload_string session p
    with_source session p (row_body p plain) p.source_document_id
