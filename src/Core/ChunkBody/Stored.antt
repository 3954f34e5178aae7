-- ===== src/Core/ChunkBody/Stored.antt =====
-- What comes back from a stored text.
use ghost_vault.Prelude.{
  ◌≡◌, ◌≢◌, refl, true, Option, none, some, [], ◌∷◌, Assoc, arith, Bool-cases, inl, inr,
}
use ghost_vault.Prelude.Int.{eqb_ℤ}
use ghost_vault.Text.{Text, trim_space}
use ghost_vault.Extern.{Json, IsJson, Envelope, omit_empty}
use ghost_vault.Core.ChunkBody.{
  chunk_format_v2, legacy_body, parse_trimmed, parse_chunk_plaintext, decode_envelope,
  format_chunk_v2_json,
}

module _ {V : Type 0} (j : Json V) where
  -- A structured item that was formatted is parsed to the same abstract, body, kind and metadata,
  -- an empty metadata map as none.
  pub parse-format :
      (abstract body kind : Text) (metadata : Option (Assoc Text V)) {t : Text}
      → IsJson j
      → format_chunk_v2_json j abstract body kind metadata ≡ some t
      → parse_chunk_plaintext j t ≡ record {
        abstract = abstract;
        body = body;
        kind = kind;
        metadata = omit_empty metadata;
        schema_ver = 2;
        raw_legacy = [];
      }
  unfolding parse_chunk_plaintext format_chunk_v2_json
  parse-format abstract body kind metadata {t} laws h =
      let (rest, e) = laws.marshal_object _ t h in rw (e, laws.unmarshal-marshal _ t h) refl

  -- The stored text is an envelope of format 2.
  abbrev pub IsEnvelope : Text → Type 0
  IsEnvelope t = (w : Envelope V) × (j.unmarshal t ≡ some w) × (eqb_ℤ w.v chunk_format_v2 ≡ true)

  decode-legacy :
      (t : Text) (q : Option (Envelope V))
      → j.unmarshal t ≡ q
      → ¬ (IsEnvelope t)
      → decode_envelope t q ≡ legacy_body t
  unfolding decode_envelope
  decode-legacy t none e no_env = refl
  decode-legacy t (some w) e no_env = elim (Bool-cases (eqb_ℤ w.v chunk_format_v2)) [
    | inl v2 ↦ absurd (no_env (w, e, v2))
    | inr other ↦ rw other
  ]

  parse_trimmed-legacy :
      (t s : Text) → s ≢ [] → ¬ (IsEnvelope t) → parse_trimmed j t s ≡ legacy_body t
  unfolding parse_trimmed
  parse_trimmed-legacy t [] h no_env = absurd (h refl)
  parse_trimmed-legacy t (c ∷ s) h no_env =
      ground (arith, decode-legacy t (j.unmarshal t) refl no_env)

  -- A stored v1 text that is not blank comes back whole, if it is no envelope itself.
  parse_legacy :
      (t : Text) → trim_space t ≢ [] → ¬ (IsEnvelope t) → parse_chunk_plaintext j t ≡ legacy_body t
  unfolding parse_chunk_plaintext
  parse_legacy t h no_env = parse_trimmed-legacy t (trim_space t) h no_env
