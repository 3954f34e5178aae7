-- ===== src/Core/Ingest/Run.antt =====
-- internal/core/engine.go and ingest_work.go: the loops of an ingest, and IngestWithDebug. After an
-- error the handlers drop the ids that were inserted before, so an action's error carries none.
use ghost_vault.Prelude.{
  ℕ, Bool, true, false, ◌&&◌, ◌||◌, Option, none, some, List, [], ◌∷◌, ◌++◌, if◌then◌else◌,
}
use ghost_vault.Text.{Text, codes, is_empty, text_beq, trim_space, Casing, to_lower, normalise}
use ghost_vault.Extern.{Uuids, Json, Float64}
use ghost_vault.Outcome.{ok, err, or_error, vault_locked, openai_required, extract_failed}
use ghost_vault.Outcome.Action.{Action, ◌>>=◌, ◌>>◌, pure, fail, lift, ignore}
use ghost_vault.Store.Tables.{
  Db, Message, chunk_exists_hash, recent_session_messages, prune_session_messages,
}
use ghost_vault.Core.Engine.{is_locked}
use ghost_vault.Core.Chunking.{chunk_text}
use ghost_vault.Core.Retrieve.Run.{Engine, tuning_of, lacks_client}
use ghost_vault.Core.Ingest.{
  IngestInput, IngestWorkItem, is_blank, dedup_text, collect_explicit_structured_work, infer_work,
  at_least_one, chunk_size, chunk_overlap,
}
use ghost_vault.Core.Ingest.Persist.{
  Services, Summary, attach_shared_source, persist_structured_item, persist_v1_text_chunk,
}

pub record IngestDebugInfo : Type 0 where
  pub segments : List Text
  pub extracted_facts : List Text
  pub structured_summary : List Summary

abbrev pub no_debug : IngestDebugInfo
no_debug = record { segments = []; extracted_facts = []; structured_summary = [] }

-- `seen[h]`
abbrev pub contains : List (List ℕ) → List ℕ → Bool
contains [] h = false
contains (s ∷ seen) h = text_beq s h || contains seen h

module _ {U : Type 0} where
  -- `role: content` and a line break for each message.
  unfoldable pub transcript : List (Message U) → Text
  transcript [] = []
  transcript (m ∷ ms) = m.role ++ codes ": " ++ m.content ++ codes "\n" ++ transcript ms

module _ {U E V F : Type 0} ⦃i : Uuids U⦄ ⦃u : Casing⦄ ⦃o : Float64 F⦄ where
  module _ (sv : Services U E) (e : Engine F) (j : Json V) (input : IngestInput U V) where
    abbrev pub encrypted : Bool
    encrypted = e.cfg.encryption_on

    abbrev pub work_hash : IngestWorkItem U V → List ℕ
    work_hash w = sv.sha256 (dedup_text w)

    abbrev pub add_item : IngestWorkItem U V → Bool → Action (Db U E V) (Option (U × Summary))
    add_item w true = pure none
    add_item w false = do
      r ← persist_structured_item sv encrypted j (tuning_of e) input w (work_hash w)
      pure (some r)

    -- One round for an item that is not blank and whose hash is new in this call.
    unfoldable pub ingest_item : IngestWorkItem U V → Action (Db U E V) (Option (U × Summary))
    unfolding persist_structured_item chunk_exists_hash
    ingest_item w =
        chunk_exists_hash sv.fails input.vault_id input.user_id (work_hash w) >>= add_item w

    abbrev pub add_found : {A : Type 0} → Option A → List A → List A
    add_found none rs = rs
    add_found (some r) rs = r ∷ rs

    -- The loop of ingestStructuredWork.
    unfoldable pub ingest_work :
        List (List ℕ) → List (IngestWorkItem U V) → Action (Db U E V) (List (U × Summary))
    unfolding ingest_item
    ingest_work seen [] = pure []
    ingest_work seen (w ∷ ws) =
        let skip = ingest_work seen ws in
        let rest = ingest_work (work_hash w ∷ seen) ws in
        if is_blank w.abstract && is_blank w.body || contains seen (work_hash w)
        then skip
        else (do r ← ingest_item w; rs ← rest; pure (add_found r rs))

    -- An error of the pruning is dropped.
    unfoldable pub prune : Action (Db U E V) (Unit {0})
    unfolding prune_session_messages
    prune = ignore (
        prune_session_messages sv.fails input.vault_id input.user_id input.session_key
          (at_least_one (tuning_of e).prune_session_messages_keep 100))

    unfoldable pub ingest_structured_work :
        List (IngestWorkItem U V) → Action (Db U E V) (List (U × Summary))
    unfolding ingest_work prune
    ingest_structured_work work = do rs ← ingest_work [] work; prune; pure rs

    -- The loop of the text path.
    unfoldable pub ingest_chunks : List (List ℕ) → List Text → Action (Db U E V) (List U)
    unfolding persist_v1_text_chunk
    ingest_chunks seen [] = pure []
    ingest_chunks seen (f ∷ fs) =
        let h = sv.sha256 (to_lower (trim_space f)) in
        let skip = ingest_chunks seen fs in
        let rest = ingest_chunks (h ∷ seen) fs in
        if is_blank f || contains seen h then skip else (do
          r ← persist_v1_text_chunk sv encrypted j (tuning_of e) input (trim_space f)
          rs ← rest
          pure (add_found r rs))

    abbrev ids_of : List (U × Summary) → List U
    ids_of [] = []
    ids_of ((id, s) ∷ rs) = id ∷ ids_of rs

    abbrev summaries_of : List (U × Summary) → List Summary
    summaries_of [] = []
    summaries_of ((id, s) ∷ rs) = s ∷ summaries_of rs

    abbrev structured_debug : Bool → List (U × Summary) → Option IngestDebugInfo
    structured_debug want rs =
        if want then some (record no_debug { structured_summary = summaries_of rs }) else none

    -- 1) Explicit items.
    unfoldable pub ingest_explicit :
        Bool → List (IngestWorkItem U V) → Action (Db U E V) (List U × Option IngestDebugInfo)
    unfolding ingest_structured_work attach_shared_source
    ingest_explicit want work = do
      linked ← attach_shared_source sv encrypted j (tuning_of e) input work
      rs ← ingest_structured_work linked
      pure (ids_of rs, structured_debug want rs)

    -- The recent messages; an error reads as none.
    unfoldable pub recent_messages : Action (Db U E V) (List (Message U))
    unfolding recent_session_messages
    recent_messages db =
        let (r, db') =
          recent_session_messages sv.fails input.vault_id input.user_id input.session_key
            (at_least_one (tuning_of e).recent_session_messages_infer 20) db in
        elim r [ ok ms ↦ (ok ms, db') | err x ↦ (ok [], db') ]

    -- 2) Items that the language model extracts.
    unfoldable pub ingest_inferred : Bool → Action (Db U E V) (List U × Option IngestDebugInfo)
    unfolding ingest_structured_work recent_messages infer_work transcript
    ingest_inferred want = do
      msgs ← recent_messages
      let llm = trim_space (tuning_of e).infer_llm_model
      let model = if is_empty llm then codes "gpt-4o-mini" else llm
      facts ←
          lift (or_error extract_failed (sv.extract_memories model (transcript msgs ++ input.text)))
      let to_body = text_beq (normalise input.infer_target) (codes "body")
      rs ← ingest_structured_work (infer_work input to_body facts)
      let dbg = record no_debug { extracted_facts = facts; structured_summary = summaries_of rs }
      pure (ids_of rs, if want then some dbg else none)

    -- 3) Plain text in chunks.
    unfoldable pub ingest_text : Bool → Action (Db U E V) (List U × Option IngestDebugInfo)
    unfolding ingest_chunks prune chunk_text chunk_size chunk_overlap
    ingest_text want = do
      let tn = tuning_of e
      let facts =
          chunk_text input.text (chunk_size tn.chunk_rune_size)
            (chunk_overlap tn.chunk_overlap tn.chunk_rune_size)
      ids ← ingest_chunks [] facts
      prune
      pure (ids, if want then some (record no_debug { segments = facts }) else none)

    abbrev pub ingest_kind :
        Bool → List (IngestWorkItem U V) → Action (Db U E V) (List U × Option IngestDebugInfo)
    ingest_kind want [] = if input.infer then ingest_inferred want else ingest_text want
    ingest_kind want (w ∷ ws) = ingest_explicit want (w ∷ ws)

    unfoldable pub ingest_with_debug : Bool → Action (Db U E V) (List U × Option IngestDebugInfo)
    unfolding ingest_explicit ingest_inferred ingest_text collect_explicit_structured_work
    ingest_with_debug want =
        if lacks_client e
        then fail openai_required
        else if is_locked e.cfg input.session
        then fail vault_locked
        else ingest_kind want (collect_explicit_structured_work input)
