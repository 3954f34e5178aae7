-- ===== src/Core/Ingest.antt =====
-- internal/core/ingest_work.go and engine.go: what an ingest request asks to store. The writing is
-- in the children.
pub mod Persist
pub mod Rows
pub mod Run
pub mod Decoded
pub mod Written
pub mod ReadBack
pub mod Stored
pub mod Again
use ghost_vault.Prelude.{
  ℕ, Bool, true, false, not, ◌&&◌, ◌||◌, Option, none, some, List, [], ◌∷◌, ◌++◌, ltb,
  if◌then◌else◌, Assoc,
}
use ghost_vault.Prelude.Int.{ℤ, pos, pos_part, ltb_ℤ}
use ghost_vault.Text.{Text, codes, is_empty, trim_space, Casing, normalise, byte_len}
use ghost_vault.Extern.{Uuids}
use ghost_vault.Auth.{Session}

pub record IngestItem (V : Type 0) : Type 0 where
  pub abstract : Text
  pub text : Text
  pub body : Text
  pub kind : Text
  pub metadata : Option (Assoc Text V)

pub record SourceDocumentIn : Type 0 where
  pub text : Text
  pub title : Text

-- `Messages` and `Idempotency` are not read by the engine.
pub record IngestInput (U V : Type 0) : Type 0 where
  pub vault_id : U
  pub user_id : Text
  pub session_key : Text
  pub text : Text
  pub abstract : Text
  pub kind : Text
  pub metadata : Option (Assoc Text V)
  pub items : List (IngestItem V)
  pub source_document : Option SourceDocumentIn
  pub infer : Bool
  pub infer_target : Text
  pub session : Option (Session U)

pub record IngestWorkItem (U V : Type 0) : Type 0 where
  pub abstract : Text
  pub body : Text
  pub kind : Text
  pub metadata : Option (Assoc Text V)
  pub source_document_id : Option U
  pub source_text_for_tsv : Text

abbrev pub is_blank : Text → Bool
is_blank s = is_empty (trim_space s)

-- `m != nil && len(m) > 0`
abbrev pub has_entries : {V : Type 0} → Option (Assoc Text V) → Bool
has_entries none = false
has_entries (some []) = false
has_entries (some (e ∷ m)) = true

module _ {U V : Type 0} where
  abbrev pub plain_work : Text → Text → Text → Option (Assoc Text V) → IngestWorkItem U V
  plain_work abstract body kind metadata = record {
    abstract = abstract;
    body = body;
    kind = kind;
    metadata = metadata;
    source_document_id = none;
    source_text_for_tsv = [];
  }

  unfoldable pub needs_v2_format : IngestWorkItem U V → Bool
  needs_v2_format w = not (is_blank w.abstract) || not (is_blank w.kind) || has_entries w.metadata

  -- The text whose hash is the key of an item.
  unfoldable pub dedup_text : ⦃u : Casing⦄ ⦃i : Uuids U⦄ → IngestWorkItem U V → Text
  dedup_text ⦃i⦄ w =
      normalise w.kind
      ++ codes "\n"
      ++ normalise w.abstract
      ++ codes "\n"
      ++ (elim w.source_document_id [ some id ↦ i.string id | none ↦ normalise w.body ])

  unfoldable pub work_of_item : IngestItem V → IngestWorkItem U V
  work_of_item it =
      let b = trim_space it.body in
      plain_work (trim_space it.abstract) (if is_empty b then trim_space it.text else b)
        (trim_space it.kind) it.metadata

  unfoldable pub work_of_items : List (IngestItem V) → List (IngestWorkItem U V)
  unfolding work_of_item
  work_of_items [] = []
  work_of_items (it ∷ its) =
      let w = work_of_item it in
      let rest = work_of_items its in
      if is_empty w.abstract && is_empty w.body then rest else w ∷ rest

  unfoldable pub collect_from : IngestInput U V → List (IngestItem V) → List (IngestWorkItem U V)
  unfolding work_of_items
  collect_from input (it ∷ its) = work_of_items (it ∷ its)
  collect_from input [] =
      let abstract = trim_space input.abstract in
      let kind = trim_space input.kind in
      if is_empty abstract && is_empty kind && not (has_entries input.metadata)
      then []
      else plain_work abstract (trim_space input.text) kind input.metadata ∷ []

  unfoldable pub collect_explicit_structured_work : IngestInput U V → List (IngestWorkItem U V)
  unfolding collect_from
  collect_explicit_structured_work input = collect_from input input.items

  -- One work item for each extracted string that is not blank.
  unfoldable pub infer_work : IngestInput U V → Bool → List Text → List (IngestWorkItem U V)
  infer_work input to_body [] = []
  infer_work input to_body (f ∷ fs) =
      let rest = infer_work input to_body fs in
      let t = trim_space f in
      let kind = trim_space input.kind in
      if is_empty t
      then rest
      else (if to_body
          then plain_work [] t kind input.metadata
          else plain_work t [] kind input.metadata)
        ∷ rest

  -- Some item has no body of its own.
  unfoldable pub needs_source : List (IngestWorkItem U V) → Bool
  needs_source [] = false
  needs_source (w ∷ ws) = is_blank w.body || needs_source ws

  unfoldable pub link_source : U → Text → List (IngestWorkItem U V) → List (IngestWorkItem U V)
  link_source id full [] = []
  link_source id full (w ∷ ws) =
      (if is_blank w.body
        then record w { source_document_id = some id; source_text_for_tsv = full }
        else w)
      ∷ link_source id full ws

-- `tn.MaxBodyBytes > 0 && int64(len(text)) > tn.MaxBodyBytes`
unfoldable pub is_too_large : ℤ → Text → Bool
is_too_large max text = ltb 0 (pos_part max) && ltb (pos_part max) (byte_len text)

-- A setting below 1 is replaced.
abbrev pub at_least_one : ℤ → ℕ → ℕ
at_least_one n default = if ltb 0 (pos_part n) then pos_part n else default

-- The chunk size and overlap of the text path.
unfoldable pub chunk_size : ℤ → ℕ
chunk_size size = at_least_one size 2000

unfoldable pub chunk_overlap : ℤ → ℤ → ℕ
unfolding chunk_size
chunk_overlap over size =
    if ltb_ℤ over (pos 0) || not (ltb_ℤ over (pos (chunk_size size))) then 200 else pos_part over
