-- ===== src/Core/Ingest/Stored.antt =====
-- internal/core/engine.go and ingest_work.go: what IngestWithDebug does to the rows of
-- memory_chunks, whatever its input, and whichever of its calls fail.
use ghost_vault.Prelude.{
  ℕ, Bool, true, false, List, [], ◌∷◌, if◌then◌else◌, arith, inl, inr, ◌&&◌, ◌||◌, Bool-cases,
}
use ghost_vault.Text.{Text, is_empty, trim_space, Casing, to_lower}
use ghost_vault.Extern.{Uuids, Json, Float64}
use ghost_vault.Outcome.{too_large}
use ghost_vault.Store.Tables.{
  Db, ChunkInsert, exec, prune_session_messages, recent_session_messages,
}
use ghost_vault.Store.Effects.{
  IsQuiet, AddsOne, Appended, AddsOne->>=, pure-IsQuiet, fail-IsQuiet, lift-IsQuiet,
}
use ghost_vault.Store.Unique.{
  Stores, IsUnique, Stores->>=, IsQuiet-Stores, guarded-Stores, mono-Stores,
}
use ghost_vault.Core.Engine.{is_locked}
use ghost_vault.Core.Retrieve.Run.{Engine, tuning_of, lacks_client}
use ghost_vault.Core.Ingest.{
  IngestInput, IngestWorkItem, is_blank, collect_explicit_structured_work,
}
use ghost_vault.Core.Ingest.Persist.{Services, persist_v1_text_chunk}
use ghost_vault.Core.Ingest.Rows.{
  IsRowOf, persist_item-AddsOne, store_v1-AddsOne, attach-IsQuiet, check-IsQuiet,
}
use ghost_vault.Core.Ingest.Run.{
  work_hash, contains, add_item, ingest_item, ingest_work, prune, ingest_structured_work,
  ingest_chunks, ingest_explicit, recent_messages, ingest_inferred, ingest_text, ingest_kind,
  ingest_with_debug,
}

module _ {U E V F : Type 0} ⦃i : Uuids U⦄ ⦃u : Casing⦄ ⦃o : Float64 F⦄ where
  module _ (sv : Services U E) (e : Engine F) (j : Json V) (input : IngestInput U V) where
    -- A row of the input's vault and user that keeps its text the way `Holds` says.
    abbrev pub IsStored : ChunkInsert U E V → Type 0
    IsStored c = (hash : List ℕ) × IsRowOf sv e.cfg.encryption_on j (tuning_of e) input hash c

    pub add_item-AddsOne :
        (w : IngestWorkItem U V)
        → AddsOne
            (IsRowOf sv e.cfg.encryption_on j (tuning_of e) input (work_hash sv e j input w))
            (add_item sv e j input w false)
    add_item-AddsOne w = AddsOne->>= (persist_item-AddsOne _ _ _ _ _ w _) (λ r. pure-IsQuiet)

    pub item-Stores : (w : IngestWorkItem U V) → Stores IsStored (ingest_item sv e j input w)
    unfolding ingest_item
    item-Stores w =
        mono-Stores (λ c r. (work_hash sv e j input w, r))
          (guarded-Stores input.vault_id input.user_id (work_hash sv e j input w) sv.fails
            (add_item sv e j input w) (λ c r. (r.same_vault, r.same_user, r.same_hash)) pure-IsQuiet
            (add_item-AddsOne w))

    pub work-Stores :
        (seen : List (List ℕ)) (work : List (IngestWorkItem U V))
        → Stores IsStored (ingest_work sv e j input seen work)
    unfolding ingest_work
    work-Stores seen [] = IsQuiet-Stores pure-IsQuiet
    work-Stores seen (w ∷ ws) =
        elim (Bool-cases
          (is_blank w.abstract && is_blank w.body || contains seen (work_hash sv e j input w))) [
            | inl skip ↦ rw (skip, ingest_work) (work-Stores seen ws)
            | inr new ↦
                rw (new, ingest_work)
                  (Stores->>= (item-Stores w) λ r.
                    Stores->>= (work-Stores (work_hash sv e j input w ∷ seen) ws)
                      λ rs. IsQuiet-Stores pure-IsQuiet)
          ]

    prune-IsQuiet : IsQuiet (prune sv e j input)
    unfolding prune prune_session_messages exec
    prune-IsQuiet = record { same = λ db. ground arith }

    structured-Stores :
        (work : List (IngestWorkItem U V))
        → Stores IsStored (ingest_structured_work sv e j input work)
    unfolding ingest_structured_work
    structured-Stores work =
        Stores->>= (work-Stores [] work)
          λ rs. Stores->>= (IsQuiet-Stores prune-IsQuiet) λ _. IsQuiet-Stores pure-IsQuiet

    v1-Stores :
        (f : Text)
        → Stores IsStored (persist_v1_text_chunk sv e.cfg.encryption_on j (tuning_of e) input f)
    unfolding persist_v1_text_chunk
    v1-Stores raw = elim (Bool-cases (is_empty (trim_space raw))) [
      | inl blank ↦ rw (blank, persist_v1_text_chunk) (IsQuiet-Stores pure-IsQuiet)
      | inr f ↦
          rw (f, persist_v1_text_chunk)
            (Stores->>= (IsQuiet-Stores (check-IsQuiet sv e.cfg.encryption_on j _ too_large)) λ _.
              mono-Stores (λ c r. (_, r))
                (guarded-Stores _ _ _ _ _ (λ c r. (r.same_vault, r.same_user, r.same_hash))
                  pure-IsQuiet (store_v1-AddsOne _ _ _ _ _ (trim_space raw) _)))
    ]

    chunks-Stores :
        (seen : List (List ℕ)) (fs : List Text)
        → Stores IsStored (ingest_chunks sv e j input seen fs)
    unfolding ingest_chunks
    chunks-Stores seen [] = IsQuiet-Stores pure-IsQuiet
    chunks-Stores seen (f ∷ fs) =
        let h = sv.sha256 (to_lower (trim_space f)) in
        elim (Bool-cases (is_blank f || contains seen h)) [
          | inl skip ↦ rw (skip, ingest_chunks) (chunks-Stores seen fs)
          | inr new ↦
              rw (new, ingest_chunks)
                (Stores->>= (v1-Stores (trim_space f)) λ r.
                  Stores->>= (chunks-Stores (sv.sha256 (to_lower (trim_space f)) ∷ seen) fs)
                    λ rs. IsQuiet-Stores pure-IsQuiet)
        ]

    recent-IsQuiet : IsQuiet (recent_messages sv e j input)
    unfolding recent_messages recent_session_messages exec
    recent-IsQuiet = record { same = λ db. ground arith }

    explicit-Stores :
        (want : Bool) (work : List (IngestWorkItem U V))
        → Stores IsStored (ingest_explicit sv e j input want work)
    unfolding ingest_explicit
    explicit-Stores want work =
        Stores->>=
          (IsQuiet-Stores (attach-IsQuiet sv e.cfg.encryption_on j (tuning_of e) input work))
          λ linked. Stores->>= (structured-Stores linked) λ rs. IsQuiet-Stores pure-IsQuiet

    inferred-Stores : (want : Bool) → Stores IsStored (ingest_inferred sv e j input want)
    unfolding ingest_inferred
    inferred-Stores want = Stores->>= (IsQuiet-Stores recent-IsQuiet) λ msgs.
        Stores->>= (IsQuiet-Stores lift-IsQuiet)
          λ facts. Stores->>= (structured-Stores _) λ rs. IsQuiet-Stores pure-IsQuiet

    text-Stores : (want : Bool) → Stores IsStored (ingest_text sv e j input want)
    unfolding ingest_text
    text-Stores want =
        Stores->>= (chunks-Stores [] _)
          λ ids. Stores->>= (IsQuiet-Stores prune-IsQuiet) λ _. IsQuiet-Stores pure-IsQuiet

    kind-Stores :
        (want : Bool) (work : List (IngestWorkItem U V))
        → Stores IsStored (ingest_kind sv e j input want work)
    kind-Stores want [] = either input.infer
      where
        either :
            (b : Bool)
            → Stores IsStored
                (if b then ingest_inferred sv e j input want else ingest_text sv e j input want)
        either true = inferred-Stores want
        either false = text-Stores want
    kind-Stores want (w ∷ ws) = explicit-Stores want (w ∷ ws)

    ingest-Stores : (want : Bool) → Stores IsStored (ingest_with_debug sv e j input want)
    unfolding ingest_with_debug
    ingest-Stores want = elim (Bool-cases (lacks_client e)) [
      | inl e₁ ↦ rw (e₁, ingest_with_debug) (IsQuiet-Stores fail-IsQuiet)
      | inr e₁ ↦ elim (Bool-cases (is_locked e.cfg input.session)) [
        | inl e₂ ↦ rw (e₁, e₂, ingest_with_debug) (IsQuiet-Stores fail-IsQuiet)
        | inr e₂ ↦
            rw (e₁, e₂, ingest_with_debug)
              (kind-Stores want (collect_explicit_structured_work input))
      ]
    ]

    -- An ingest keeps the rule that no two live rows have the same vault, user and hash, also where
    -- it fails midway, whichever of the store's statements or other calls fail.
    pub ingest-IsUnique :
        (want : Bool) (db : Db U E V)
        → IsUnique db.chunks
        → IsUnique (ingest_with_debug sv e j input want db).1.chunks
    ingest-IsUnique want db = (ingest-Stores want).unique db

    -- The rows of memory_chunks after an ingest, failed or not, are those before with new live rows
    -- on top. Each new row is the input's vault's and user's; with encryption on it has no plain text
    -- in `body_text`, and its ciphertext and nonce are what `SealChunk` returned for its text under
    -- the session's key; with encryption off it has the text, and no ciphertext.
    pub ingest-Appended :
        (want : Bool) (db : Db U E V)
        → Appended IsStored db.chunks (ingest_with_debug sv e j input want db).1.chunks
    ingest-Appended want db = (ingest-Stores want).adds.run db
