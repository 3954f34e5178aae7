-- ===== src/Core/Ingest/Decoded.antt =====
-- internal/core/engine.go: what a row says that was written for a structured item.
use ghost_vault.Prelude.{
  ℕ, ◌≡◌, refl, sym, ap, ◌∙◌, Bool, true, false, ◌&&◌, Option, none, some, List, [], ◌∷◌, Assoc,
  All, lookup, insert, Bool-cases, inl, inr, arith,
}
use ghost_vault.Text.{Text, text_eq, text_beq, text_beq_iff, Casing, is_empty, trim_space}
use ghost_vault.Extern.{Uuids, Json, IsJson, omit_empty}
use ghost_vault.Outcome.{Result, ok}
use ghost_vault.Auth.{Session}
use ghost_vault.Config.{Config}
use ghost_vault.Store.{ChunkPayload}
use ghost_vault.Store.Reading.{column_of}
use ghost_vault.Core.ChunkBody.{ChunkBody, format_chunk_v2_json}
use ghost_vault.Core.ChunkBody.Stored.{parse-format}
use ghost_vault.Core.Engine.{
  Reads, no_bytes, lacks_dek, dek_of, decrypt_payload_string, overlay, merge_metadata, row_metadata,
  row_body, with_source, payload_to_chunk_body,
}
use ghost_vault.Core.Ingest.Persist.{Services, Payload}
use ghost_vault.Core.Ingest.Rows.{Holds}
use ghost_vault.Outcome.{◌>>=◌ as bind}

module _ {V : Type 0} where
  -- Each entry is what looking its key up gives, as in a Go map.
  abbrev pub IsMap : Assoc Text V → Assoc Text V → Type 0
  IsMap entries m = All (λ e. lookup e.0 m ≡ some e.1) entries

  insert-lookup : (k : Text) (v : V) (m : Assoc Text V) → lookup k m ≡ some v → insert k v m ≡ m
  unfolding lookup insert
  insert-lookup k v [] h = absurd (cc h)
  insert-lookup k v ((j, w) ∷ m) h = elim (Bool-cases (text_beq j k)) [
    | inl e ↦
        let same : j ≡ k = (text_beq_iff j k).0 e in
        let held : w ≡ v = ground (arith, e, h) in
        rw e (ap (λ p. p ∷ m) (ap (λ a. (a, v)) (sym same) ∙ ap (λ b. (j, b)) (sym held)))
    | inr e ↦ rw e (ap (λ n. (j, w) ∷ n) (insert-lookup k v m (ground (arith, e, h))))
  ]

-- What the column of a metadata map relies on: its JSON text is not empty, and is read back.
pub record IsColumn {V : Type 0} (j : Json V) (encode : Assoc Text V → Text) : Type 0 where
  pub reads :
      (m : Assoc Text V)
      → (c : ℕ) × (s : Text) × (encode m ≡ c ∷ s) × (j.unmarshal_map (c ∷ s) ≡ some m)

abbrev pub IsMetadata : {V : Type 0} → Option (Assoc Text V) → Type 0
IsMetadata none = Unit {0}
IsMetadata (some m) = IsMap m m

module _ {U F E V : Type 0} ⦃i : Uuids U⦄ (db : Reads U F E) (cfg : Config) (j : Json V)
    (encode : Assoc Text V → Text) (columns : IsColumn j encode) where
  overlay-same : (row m : Assoc Text V) → IsMap row m → overlay db cfg j row m ≡ m
  unfolding overlay
  overlay-same [] m all = refl
  overlay-same ((k, v) ∷ row) m (held, all) =
      ap (overlay db cfg j row) (insert-lookup k v m held) ∙ overlay-same row m all

  row_metadata-column : (m : Assoc Text V) → row_metadata db cfg j (encode m) ≡ some m
  row_metadata-column m =
      let (c, s, e, read) = columns.reads m in ap (row_metadata db cfg j) e ∙ read

  merge-column :
      (m : Option (Assoc Text V))
      → IsMetadata m
      → merge_metadata db cfg j (row_metadata db cfg j (column_of encode m)) (omit_empty m)
        ≡ omit_empty m
  merge-column none all = refl
  merge-column (some []) all = ap (λ r. merge_metadata db cfg j r none) (row_metadata-column [])
  merge-column (some (e ∷ m)) all =
      ap (λ r. merge_metadata db cfg j r (some (e ∷ m))) (row_metadata-column (e ∷ m))
      ∙ ap some (overlay-same (e ∷ m) (e ∷ m) all)

  abbrev item_body : Text → Text → Text → Option (Assoc Text V) → ChunkBody V
  item_body abstract body kind metadata = record {
    abstract = abstract;
    body = body;
    kind = kind;
    metadata = omit_empty metadata;
    schema_ver = 2;
    raw_legacy = [];
  }

  -- The columns of the row say the same as its text.
  pub row_body-item :
      (p : ChunkPayload U) (abstract body kind t : Text) (metadata : Option (Assoc Text V))
      → IsJson j
      → IsMetadata metadata
      → p.item_kind ≡ kind
      → p.item_metadata ≡ column_of encode metadata
      → format_chunk_v2_json j abstract body kind metadata ≡ some t
      → row_body db cfg j p t ≡ item_body abstract body kind metadata
  unfolding row_body
  row_body-item p abstract body kind t metadata laws is_map same_kind same_metadata formatted =
      let parsed = parse-format j abstract body kind metadata laws formatted in
      elim (Bool-cases (is_empty (trim_space kind))) [
        | inl e ↦ rw (parsed, same_kind, same_metadata, merge-column metadata is_map, e) refl
        | inr e ↦ rw (parsed, same_kind, same_metadata, merge-column metadata is_map, e) refl
      ]

bind-ok : {A B : Type 0} {r : Result A} (k : A → Result B) {a : A} → r ≡ ok a → bind r k ≡ k a
bind-ok k h = ap (λ o. bind o k) h

-- What the engine relies on in its cipher: what was sealed is not empty, and opens to the text.
pub record IsCipher {U F E : Type 0} (sv : Services U E) (db : Reads U F E) : Type 0 where
  pub opens :
      (n : ℕ) (dek : List ℕ) (text : Text) (nonce ct : List ℕ)
      → sv.seal_chunk n dek text ≡ some (nonce, ct)
      → (no_bytes ct ≡ false) × (db.open_chunk dek nonce ct ≡ some text)

module _ {U F E V : Type 0} ⦃i : Uuids U⦄ ⦃u : Casing⦄ (sv : Services U E) (db : Reads U F E)
    (cipher : IsCipher sv db) (cfg : Config) (j : Json V) (session : Option (Session U)) where
  pub decrypt-held :
      (encrypted : Bool) (p : ChunkPayload U) (pay : Payload) (text : Text)
      → (encrypted && lacks_dek session) ≡ false
      → p.ciphertext ≡ pay.ciphertext
      → p.nonce ≡ pay.nonce
      → p.body_text ≡ pay.body_text
      → Holds {E = E} sv j encrypted session text pay
      → decrypt_payload_string db cfg j session p ≡ ok text
  unfolding decrypt_payload_string
  decrypt-held false p pay text unlocked same_ct same_nonce same_body (plain, _) =
      rw (same_body ∙ plain) refl
  decrypt-held true p pay text unlocked same_ct same_nonce same_body (n, sealed, bare) =
      let (bytes, opened) = cipher.opens n (dek_of session) text _ _ sealed in
      rw (same_body ∙ bare, same_ct, same_nonce, bytes, unlocked, opened) refl

  pub payload-read :
      (p : ChunkPayload U) (text : Text) (cb : ChunkBody V)
      → p.source_document_id ≡ none
      → decrypt_payload_string db cfg j session p ≡ ok text
      → row_body db cfg j p text ≡ cb
      → payload_to_chunk_body db cfg j session p ≡ ok cb
  unfolding payload_to_chunk_body with_source
  payload-read p text cb own plain said =
      bind-ok (λ t. with_source db cfg j session p (row_body db cfg j p t) p.source_document_id)
        plain
      ∙ ap (λ b. with_source db cfg j session p b p.source_document_id) said
      ∙ ap (λ o. with_source db cfg j session p cb o) own
