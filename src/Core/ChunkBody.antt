-- ===== src/Core/ChunkBody.antt =====
-- internal/core/chunkbody.go: what a memory row says after decryption.
pub mod Stored
pub mod Tokens
use ghost_vault.Prelude.{
  ℕ, ◌+◌, ◌/◌, Bool, true, not, ◌||◌, Option, none, some, [], ◌∷◌, ◌++◌, ltb, leb, ◌==◌,
  if◌then◌else◌, Assoc, take,
}
use ghost_vault.Prelude.Int.{ℤ, pos, pos_part, eqb_ℤ}
use ghost_vault.Text.{Text, codes, is_empty, text_beq, trim_space, rune_count, Casing, normalise}
use ghost_vault.Extern.{Json, Envelope}

abbrev pub chunk_format_v2 : ℤ
chunk_format_v2 = pos 2

-- `max < 1` holds of every negative number and of 0.
unfoldable pub excerpt_runes : Text → ℤ → Text
excerpt_runes s max =
    if pos_part max == 0 || is_empty s
    then s
    else if leb (rune_count s) (pos_part max)
    then s
    else take (pos_part max) s

pub record ChunkBody (V : Type 0) : Type 0 where
  pub abstract : Text
  pub body : Text
  pub kind : Text
  pub metadata : Option (Assoc Text V)
  pub schema_ver : ℕ
  pub raw_legacy : Text

module _ {V : Type 0} where
  abbrev pub blank_body : ChunkBody V
  blank_body = record {
    abstract = [];
    body = [];
    kind = [];
    metadata = none;
    schema_ver = 1;
    raw_legacy = [];
  }

  -- The whole text as a v1 body.
  abbrev pub legacy_body : Text → ChunkBody V
  legacy_body plain = record blank_body { body = plain; raw_legacy = plain }

  abbrev pub of_envelope : Envelope V → ChunkBody V
  of_envelope w = record {
    abstract = w.a;
    body = w.b;
    kind = w.k;
    metadata = w.m;
    schema_ver = 2;
    raw_legacy = [];
  }

  unfoldable pub decode_envelope : Text → Option (Envelope V) → ChunkBody V
  decode_envelope plain none = legacy_body plain
  decode_envelope plain (some w) =
      if eqb_ℤ w.v chunk_format_v2 then of_envelope w else legacy_body plain

  unfoldable pub parse_trimmed : Json V → Text → Text → ChunkBody V
  unfolding decode_envelope
  parse_trimmed j plain [] = blank_body
  parse_trimmed j plain (c ∷ s) =
      if c == b'{' then decode_envelope plain (j.unmarshal plain) else legacy_body plain

  unfoldable pub parse_chunk_plaintext : Json V → Text → ChunkBody V
  unfolding parse_trimmed
  parse_chunk_plaintext j plain = parse_trimmed j plain (trim_space plain)

  unfoldable pub format_chunk_v2_json :
      Json V → Text → Text → Text → Option (Assoc Text V) → Option Text
  format_chunk_v2_json j abstract body kind metadata =
      j.marshal (record { v = chunk_format_v2; a = abstract; b = body; k = kind; m = metadata })

  unfoldable pub embed_source : ChunkBody V → Text
  embed_source c = if is_empty (trim_space c.abstract) then c.body else c.abstract

  unfoldable pub lexical_source : ChunkBody V → Text
  lexical_source c =
      let a = trim_space c.abstract in
      let b = trim_space c.body in
      if is_empty a then b else if is_empty b then a else a ++ codes "\n\n" ++ b

  unfoldable pub snippet_for_content_mode : ⦃u : Casing⦄ → ChunkBody V → Text → Text × Text × Text
  unfolding lexical_source
  snippet_for_content_mode c mode =
      let m = normalise mode in
      let m' = if is_empty m then codes "abstract" else m in
      if text_beq m' (codes "full")
      then (c.body, [], c.body)
      else if text_beq m' (codes "both")
      then (c.abstract, c.body, lexical_source c)
      else if is_empty (trim_space c.abstract)
      then (c.body, [], c.body)
      else (c.abstract, [], c.abstract)

  unfoldable pub full_body_available : ChunkBody V → Bool
  full_body_available c = not (is_empty (trim_space c.body))

  unfoldable pub same_abstract_and_body : ChunkBody V → Bool
  same_abstract_and_body c =
      let a = trim_space c.abstract in if is_empty a then true else text_beq a (trim_space c.body)

unfoldable pub est_tok : Text → ℕ
est_tok [] = 0
est_tok (c ∷ s) = let n = rune_count (c ∷ s) / 4 in if ltb n 1 then 1 else n

-- `estimateTokens` of engine.go.
unfoldable pub estimate_tokens : Text → ℕ
estimate_tokens [] = 0
estimate_tokens (c ∷ s) = let q = rune_count (c ∷ s) / 4 in if ltb q 1 then 1 else q

module _ {V : Type 0} where
  unfoldable pub estimated_return_tokens : ⦃u : Casing⦄ → ChunkBody V → Text → ℕ
  estimated_return_tokens c mode =
      let m = normalise mode in
      if text_beq m (codes "both")
      then est_tok c.abstract + est_tok c.body
      else if text_beq m (codes "full")
      then est_tok c.body
      else if is_empty (trim_space c.abstract)
      then est_tok c.body
      else est_tok c.abstract
