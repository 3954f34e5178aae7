-- ===== src/Store.antt =====
-- internal/store/store.go: the rows that the store hands to the engine.
pub mod Tables
pub mod Effects
pub mod Unique
pub mod Deletion
pub mod Pruning
pub mod Reading
pub mod Searching
use ghost_vault.Prelude.{ℕ, Option, List}
use ghost_vault.Text.{Text}

pub record ChunkCandidate (U F : Type 0) : Type 0 where
  pub chunk_id : U
  pub semantic_score : F
  pub lexical_score : F
  pub raw_lex_rank : F

pub record ChunkPayload (U : Type 0) : Type 0 where
  pub id : U
  pub ciphertext : List ℕ
  pub nonce : List ℕ
  pub body_text : Option Text
  pub embedding_model_id : Text
  pub item_kind : Text
  pub item_metadata : Text
  pub source_document_id : Option U
  pub vault_id : U

pub record ChunkForVaultRow (U : Type 0) : Type 0 where
  pub payload : ChunkPayload U
  pub user_id : Text
  pub created_at : ℕ
  pub chunk_schema_version : ℕ
  pub ingest_session_key : Option Text

pub record SourceDocumentRow (U : Type 0) : Type 0 where
  pub id : U
  pub vault_id : U
  pub user_id : Text
  pub title : Option Text
  pub ciphertext : List ℕ
  pub nonce : List ℕ
  pub body_text : Option Text
  pub content_sha256 : List ℕ
  pub created_at : ℕ
