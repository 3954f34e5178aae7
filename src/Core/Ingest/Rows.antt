-- ===== src/Core/Ingest/Rows.antt =====
-- internal/core/ingest_work.go: the rows that an ingest writes.
use ghost_vault.Prelude.{
  ℕ, ◌≡◌, refl, Bool, true, false, Option, none, some, List, [], arith, inl, inr, not, ◌||◌,
  Bool-cases,
}
use ghost_vault.Text.{Text, is_empty, trim_space, Casing}
use ghost_vault.Extern.{Uuids, Json}
use ghost_vault.Outcome.{Error, Result, ok, err, seal_failed, ok-inj}
use ghost_vault.Outcome.Action.{◌>>=◌, pure}
use ghost_vault.Auth.{Session}
use ghost_vault.Config.Tuning.{RuntimeTuning}
use ghost_vault.Store.Tables.{
  Db, ChunkInsert, SourceDocumentInsert, exec, insert_source_document, insert_chunk,
  get_source_document_id_by_hash,
}
use ghost_vault.Store.Effects.{
  Gives, IsQuiet, AddsOne, Gives->>=, AddsOne->>=, IsQuiet->>=, pure-IsQuiet, fail-IsQuiet,
  lift-IsQuiet, IsQuiet-Gives, IsQuiet->>=-AddsOne, insert_chunk-AddsOne,
}
use ghost_vault.Core.Engine.{dek_of}
use ghost_vault.Core.Ingest.{IngestInput, IngestWorkItem, SourceDocumentIn, needs_source}
use ghost_vault.Core.Ingest.Persist.{
  Services, Payload, sealed, store_text, new_source_document, upsert_source_document, attach_to,
  attach_shared_source, persist_structured_item, store_v1_chunk, new_uuid, check,
}

module _ {U E V : Type 0} ⦃i : Uuids U⦄ ⦃u : Casing⦄ (sv : Services U E) (j : Json V) where
  -- With encryption on, only what `SealChunk` returned for the text under the session's key is
  -- kept, and no plain text; with encryption off the text itself.
  abbrev pub Holds : Bool → Option (Session U) → Text → Payload → Type 0
  Holds true session text p =
      (nonce : ℕ) × (sv.seal_chunk nonce (dek_of session) text ≡ some (p.nonce, p.ciphertext))
      × (p.body_text ≡ none)
  Holds false session text p = (p.body_text ≡ some text) × (p.ciphertext ≡ [])

  pub store_text-Gives :
      (encrypted : Bool) (session : Option (Session U)) (text : Text)
      → Gives
          (Holds encrypted session text)
          (store_text {E = E} {V = V} sv encrypted j session text)
  unfolding store_text
  store_text-Gives false session text = record {
    same = λ db. refl;
    gives = λ db a e. rw (← ok-inj e) (refl, refl);
  }
  store_text-Gives true session text = record {
    same = λ db. go db (sv.seal_chunk db.calls (dek_of session) text);
    gives = λ db a. held db (sv.seal_chunk db.calls (dek_of session) text) refl a;
  }
    where
      outcome : Db U E V → Option (List ℕ × List ℕ) → Result Payload × Db U E V
      outcome db none = (err seal_failed, db)
      outcome db (some p) = (ok (sealed p), db)

      go : (db : Db U E V) (r : Option (List ℕ × List ℕ)) → (outcome db r).1.chunks ≡ db.chunks
      go db none = refl
      go db (some p) = refl

      held :
          (db : Db U E V) (r : Option (List ℕ × List ℕ))
          → sv.seal_chunk db.calls (dek_of session) text ≡ r
          → (a : Payload) → (outcome db r).0 ≡ ok a
          → Holds true session text a
      held db none e a h = cc h
      held db (some (n, ct)) e a h = rw (← ok-inj h) (db.calls, e, refl)

module _ {U E V : Type 0} ⦃i : Uuids U⦄ ⦃u : Casing⦄ (sv : Services U E) (encrypted : Bool)
    (j : Json V) where
  pub check-IsQuiet : (stop : Bool) (e : Error) → IsQuiet (check sv encrypted j stop e)
  check-IsQuiet true e = fail-IsQuiet
  check-IsQuiet false e = pure-IsQuiet

  new_uuid-IsQuiet : IsQuiet (new_uuid sv encrypted j)
  new_uuid-IsQuiet = record { same = λ db. refl }

  module _ {F : Type 0} (tn : RuntimeTuning F) (input : IngestInput U V) where
    abbrev payload_of : ChunkInsert U E V → Payload
    payload_of c = record {
      ciphertext = c.ciphertext;
      nonce = c.nonce;
      key_id = c.key_id;
      body_text = c.body_text;
    }

    -- A row of the input's vault and user, under the hash, that keeps its text the way `Holds` says.
    pub record IsRowOf (hash : List ℕ) (c : ChunkInsert U E V) : Type 0 where
      pub same_vault : c.vault_id ≡ input.vault_id
      pub same_user : c.user_id ≡ input.user_id
      pub same_hash : c.content_sha256 ≡ hash
      pub text : Text
      pub held : Holds sv j encrypted input.session text (payload_of c)

    -- The last steps of an insertion, once its text is stored.
    insert-AddsOne :
        {A : Type 0} (c : ChunkInsert U E V) (a : A) (hash : List ℕ)
        → IsRowOf hash c
        → AddsOne (IsRowOf hash) (insert_chunk sv.fails c >>= λ _. pure a)
    insert-AddsOne c a hash r =
        AddsOne->>= (insert_chunk-AddsOne sv.fails _ c r) (λ _. pure-IsQuiet)

    pub persist_item-AddsOne :
        (w : IngestWorkItem U V) (hash : List ℕ)
        → AddsOne (IsRowOf hash) (persist_structured_item sv encrypted j tn input w hash)
    unfolding persist_structured_item
    persist_item-AddsOne w hash = IsQuiet->>=-AddsOne lift-IsQuiet λ plain.
        IsQuiet->>=-AddsOne (check-IsQuiet _ _) λ _. IsQuiet->>=-AddsOne lift-IsQuiet λ vector.
          IsQuiet->>=-AddsOne new_uuid-IsQuiet λ id.
            Gives->>= (store_text-Gives sv j encrypted input.session plain.0) λ p held.
              insert-AddsOne _ _ hash (record {
                same_vault = refl;
                same_user = refl;
                same_hash = refl;
                text = plain.0;
                held = held;
              })

    pub store_v1-AddsOne :
        (f : Text) (hash : List ℕ)
        → AddsOne (IsRowOf hash) (store_v1_chunk sv encrypted j tn input f hash)
    unfolding store_v1_chunk
    store_v1-AddsOne f hash = IsQuiet->>=-AddsOne lift-IsQuiet λ vector.
        IsQuiet->>=-AddsOne new_uuid-IsQuiet λ id.
          Gives->>= (store_text-Gives sv j encrypted input.session f) λ p held.
            insert-AddsOne _ _ hash (record {
              same_vault = refl;
              same_user = refl;
              same_hash = refl;
              text = f;
              held = held;
            })

    insert_source-IsQuiet :
        (d : SourceDocumentInsert U) → IsQuiet (insert_source_document {E = E} {V = V} sv.fails d)
    unfolding insert_source_document exec
    insert_source-IsQuiet d = record { same = λ db. ground arith }

    find_source-IsQuiet :
        (vault : U) (user : Text) (hash : List ℕ)
        → IsQuiet (get_source_document_id_by_hash {E = E} {V = V} sv.fails vault user hash)
    unfolding get_source_document_id_by_hash exec
    find_source-IsQuiet vault user hash = record { same = λ db. ground arith }

    new_source-IsQuiet :
        (text title : Text) (hash : List ℕ)
        → IsQuiet (new_source_document sv encrypted j tn input text title hash)
    unfolding new_source_document
    new_source-IsQuiet text title hash = IsQuiet->>= new_uuid-IsQuiet λ id.
        IsQuiet->>= (IsQuiet-Gives (store_text-Gives sv j encrypted input.session text))
          λ p. IsQuiet->>= (insert_source-IsQuiet _) λ _. pure-IsQuiet

    upsert-IsQuiet :
        (text title : Text) → IsQuiet (upsert_source_document sv encrypted j tn input text title)
    unfolding upsert_source_document
    upsert-IsQuiet text title = IsQuiet->>= (check-IsQuiet _ _) λ _.
        IsQuiet->>= (find_source-IsQuiet _ _ _) λ found.
          elim found
            as (λ f. IsQuiet (elim f [
              | some id ↦ pure id
              | none ↦ new_source_document sv encrypted j tn input text title (sv.sha256 text)
            ])) [ some id ↦ pure-IsQuiet | none ↦ new_source-IsQuiet text title (sv.sha256 text) ]

    attach_to-IsQuiet :
        (src : Option SourceDocumentIn) (work : List (IngestWorkItem U V))
        → IsQuiet (attach_to sv encrypted j tn input src work)
    unfolding attach_to
    attach_to-IsQuiet none work = pure-IsQuiet
    attach_to-IsQuiet (some src) work =
        elim (Bool-cases (is_empty (trim_space src.text) || not (needs_source work))) [
          | inl e ↦ rw (e, attach_to) pure-IsQuiet
          | inr e ↦ rw (e, attach_to) (IsQuiet->>= (upsert-IsQuiet _ _) λ id. pure-IsQuiet)
        ]

    -- Linking a source document writes no row of memory_chunks.
    pub attach-IsQuiet :
        (work : List (IngestWorkItem U V))
        → IsQuiet (attach_shared_source sv encrypted j tn input work)
    unfolding attach_shared_source
    attach-IsQuiet work = attach_to-IsQuiet input.source_document work
