-- ===== src/Core/Ingest/Persist.antt =====
-- internal/core/ingest_work.go: source documents, and the rows of single memories.
use ghost_vault.Prelude.{
  ℕ, ◌+◌, Bool, not, ◌||◌, Option, none, some, List, [], ◌∷◌, ◌++◌, if◌then◌else◌,
}
use ghost_vault.Prelude.Int.{pos}
use ghost_vault.Text.{Text, codes, is_empty, trim_space, Casing, to_lower, byte_len}
use ghost_vault.Extern.{Uuids, Json}
use ghost_vault.Outcome.{
  Error, Result, ok, err, embed_failed, embed_panic, seal_failed, marshal_failed, too_large,
}
use ghost_vault.Outcome.Action.{Action, ◌>>=◌, ◌>>◌, pure, fail, lift}
use ghost_vault.Auth.{Session}
use ghost_vault.Config.Tuning.{RuntimeTuning}
use ghost_vault.Store.Tables.{
  Db, insert_chunk, insert_source_document, chunk_exists_hash, get_source_document_id_by_hash,
}
use ghost_vault.Core.ChunkBody.{ChunkBody, excerpt_runes, lexical_source, format_chunk_v2_json}
use ghost_vault.Core.Engine.{dek_of}
use ghost_vault.Core.Ingest.{
  IngestInput, IngestWorkItem, SourceDocumentIn, needs_v2_format, needs_source, link_source,
  is_too_large,
}

-- What ingest takes from outside: failures of statements, `uuid.New`, SHA-256, OpenAI, and
-- `SealChunk`, whose first argument stands for the random nonce that it draws.
pub record Services (U E : Type 0) : Type 0 where
  pub fails : ℕ → Bool
  pub new_id : ℕ → U
  pub sha256 : Text → List ℕ
  pub embed : Text → Text → Option (List E)
  pub extract_memories : Text → Text → Option (List Text)
  pub seal_chunk : ℕ → List ℕ → Text → Option (List ℕ × List ℕ)

-- What is stored of a text: sealed with the data key, or as it is.
pub record Payload : Type 0 where
  pub ciphertext : List ℕ
  pub nonce : List ℕ
  pub key_id : Option Text
  pub body_text : Option Text

-- `kind=%q embed=%d tsv=%d`
pub record Summary : Type 0 where
  pub kind : Text
  pub embed : ℕ
  pub tsv : ℕ

abbrev pub session_key_or_default : Text → Text
session_key_or_default key = let sk = trim_space key in if is_empty sk then codes "default" else sk

abbrev pub sealed : List ℕ × List ℕ → Payload
sealed (nonce, ct) = record {
  ciphertext = ct;
  nonce = nonce;
  key_id = some (codes "v1");
  body_text = none;
}

module _ {U E V : Type 0} ⦃i : Uuids U⦄ ⦃u : Casing⦄ (sv : Services U E) (encrypted : Bool)
    (j : Json V) where
  abbrev pub new_uuid : Action (Db U E V) U
  new_uuid db = (ok (sv.new_id db.made), record db { made = db.made + 1 })

  abbrev pub check : Bool → Error → Action (Db U E V) (Unit {0})
  check stop e = if stop then fail e else pure tt

  unfoldable pub store_text : Option (Session U) → Text → Action (Db U E V) Payload
  store_text session text db =
      if encrypted
      then (elim (sv.seal_chunk db.calls (dek_of session) text) [
        | none ↦ (err seal_failed, db)
        | some sealed_text ↦ (ok (sealed sealed_text), db)
      ])
      else (ok (record { ciphertext = []; nonce = []; key_id = none; body_text = some text }), db)

  -- `vecs, err := Embed(...)` and `vecs[0]`, which panics where the response has no vector.
  unfoldable pub embed_first : Text → Text → Result E
  embed_first model text = elim (sv.embed model text) [
    | none ↦ err embed_failed
    | some [] ↦ err embed_panic
    | some (v ∷ vs) ↦ ok v
  ]

  module _ {F : Type 0} (tn : RuntimeTuning F) (input : IngestInput U V) where
    unfoldable pub new_source_document : Text → Text → List ℕ → Action (Db U E V) U
    unfolding store_text
    new_source_document text title hash = do
      id ← new_uuid
      p ← store_text input.session text
      insert_source_document sv.fails (record {
        id = id;
        vault_id = input.vault_id;
        user_id = input.user_id;
        title = if is_empty title then none else some title;
        content_sha256 = hash;
        body_text = p.body_text;
        ciphertext = p.ciphertext;
        nonce = p.nonce;
        key_id = p.key_id;
      })
      pure id

    unfoldable pub upsert_source_document : Text → Text → Action (Db U E V) U
    unfolding is_too_large new_source_document
    upsert_source_document text title = do
      check (is_too_large tn.max_body_bytes text) too_large
      found ← get_source_document_id_by_hash sv.fails input.vault_id input.user_id (sv.sha256 text)
      elim found [ some id ↦ pure id | none ↦ new_source_document text title (sv.sha256 text) ]

    unfoldable pub attach_to :
        Option SourceDocumentIn
        → List (IngestWorkItem U V)
        → Action (Db U E V) (List (IngestWorkItem U V))
    unfolding needs_source link_source upsert_source_document
    attach_to none work = pure work
    attach_to (some src) work =
        let full = trim_space src.text in
        if is_empty full || not (needs_source work) then pure work else (do
          id ← upsert_source_document full (trim_space src.title)
          pure (link_source id full work))

    unfoldable pub attach_shared_source :
        List (IngestWorkItem U V) → Action (Db U E V) (List (IngestWorkItem U V))
    unfolding attach_to
    attach_shared_source work = attach_to input.source_document work

    -- The text for the full-text index.
    unfoldable pub tsv_of : IngestWorkItem U V → Text
    unfolding excerpt_runes lexical_source
    tsv_of w =
        let ex = excerpt_runes w.source_text_for_tsv (pos 2000) in
        let a = trim_space w.abstract in
        let own : ChunkBody V = record {
          abstract = w.abstract;
          body = w.body;
          kind = w.kind;
          metadata = w.metadata;
          schema_ver = 2;
          raw_legacy = [];
        } in
        elim w.source_document_id [
          | none ↦ lexical_source own
          | some id ↦
              if is_empty w.source_text_for_tsv
              then lexical_source own
              else if is_empty a
              then ex
              else a ++ codes "\n\n" ++ ex
        ]

    -- The text that is embedded.
    unfoldable pub embed_text_of : IngestWorkItem U V → Text
    unfolding excerpt_runes
    embed_text_of w =
        let a = trim_space w.abstract in
        let own : Text = elim w.source_document_id [
          | none ↦ w.body
          | some id ↦ excerpt_runes w.source_text_for_tsv (pos 2000)
        ] in
        if is_empty a then own else a

    abbrev stored_body : IngestWorkItem U V → Text
    stored_body w = elim w.source_document_id [ none ↦ w.body | some id ↦ [] ]

    -- The plaintext of the row, and its schema version.
    unfoldable pub plaintext_of : IngestWorkItem U V → Result (Text × ℕ)
    unfolding needs_v2_format format_chunk_v2_json
    plaintext_of w =
        if needs_v2_format w
        then (elim (format_chunk_v2_json j w.abstract (stored_body w) w.kind w.metadata) [
          | none ↦ err marshal_failed
          | some t ↦ ok (t, 2)
        ])
        else ok (stored_body w, 1)

    unfoldable pub persist_structured_item :
        IngestWorkItem U V → List ℕ → Action (Db U E V) (U × Summary)
    unfolding plaintext_of tsv_of embed_text_of embed_first store_text is_too_large
    persist_structured_item w hash = do
      plain ← lift (plaintext_of w)
      check (is_too_large tn.max_body_bytes plain.0) too_large
      vector ← lift (embed_first tn.embedding_model (embed_text_of w))
      id ← new_uuid
      p ← store_text input.session plain.0
      insert_chunk sv.fails (record {
        id = id;
        vault_id = input.vault_id;
        user_id = input.user_id;
        ciphertext = p.ciphertext;
        nonce = p.nonce;
        key_id = p.key_id;
        body_text = p.body_text;
        content_sha256 = hash;
        embedding_model_id = tn.embedding_model;
        chunk_schema_version = plain.1;
        plain_for_tsv = tsv_of w;
        embedding = vector;
        ingest_session_key = some (session_key_or_default input.session_key);
        item_kind = w.kind;
        item_metadata = w.metadata;
        source_document_id = w.source_document_id;
      })
      pure (
        id,
        record { kind = w.kind; embed = byte_len (embed_text_of w); tsv = byte_len (tsv_of w) },
      )

    unfoldable pub store_v1_chunk : Text → List ℕ → Action (Db U E V) (Option U)
    unfolding embed_first store_text
    store_v1_chunk f hash = do
      vector ← lift (embed_first tn.embedding_model f)
      id ← new_uuid
      p ← store_text input.session f
      insert_chunk sv.fails (record {
        id = id;
        vault_id = input.vault_id;
        user_id = input.user_id;
        ciphertext = p.ciphertext;
        nonce = p.nonce;
        key_id = p.key_id;
        body_text = p.body_text;
        content_sha256 = hash;
        embedding_model_id = tn.embedding_model;
        chunk_schema_version = 1;
        plain_for_tsv = f;
        embedding = vector;
        ingest_session_key = some (session_key_or_default input.session_key);
        item_kind = [];
        item_metadata = none;
        source_document_id = none;
      })
      pure (some id)

    -- `none` is `uuid.Nil`: nothing was stored.
    unfoldable pub persist_v1_text_chunk : Text → Action (Db U E V) (Option U)
    unfolding store_v1_chunk is_too_large
    persist_v1_text_chunk raw =
        let f = trim_space raw in
        let hash = sv.sha256 (to_lower f) in
        if is_empty f then pure none else (do
          check (is_too_large tn.max_body_bytes f) too_large
          exists ← chunk_exists_hash sv.fails input.vault_id input.user_id hash
          if exists then pure none else store_v1_chunk f hash)
