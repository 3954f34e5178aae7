-- ===== src/Text.antt =====
-- Go strings as the code points of valid UTF-8 text, with what the program uses of the packages
-- strings and unicode/utf8. `unicode.ToLower` is a table of the Unicode standard: it is the
-- interface `Casing`.
pub mod Laws
use Prim.Native.Char.{code}
use ghost_vault.Prelude.{
  ℕ, ◌+◌, ◌<◌, String, ◌≡◌, Bool, true, false, ◌&&◌, ◌||◌, List, [], ◌∷◌, map, arith, ltb, leb,
  ◌==◌, if◌then◌else◌, Eq, ◌↔◌, length,
}

abbrev pub Text : Type 0
Text = List ℕ

-- The text of a literal.
abbrev pub codes : String → Text
codes String.[] = []
codes (String.◌∷◌ c s) = code c ∷ codes s

unfoldable pub text_beq : Text → Text → Bool
text_beq [] [] = true
text_beq [] (d ∷ t) = false
text_beq (c ∷ s) [] = false
text_beq (c ∷ s) (d ∷ t) = c == d && text_beq s t

pub text_beq_iff : (s t : Text) → (text_beq s t ≡ true) ↔ (s ≡ t)
unfolding text_beq
text_beq_iff [] [] = ground arith
text_beq_iff [] (d ∷ t) = ground arith
text_beq_iff (c ∷ s) [] = ground arith
text_beq_iff (c ∷ s) (d ∷ t) = ground (arith, text_beq_iff s t)

instance abbrev pub text_eq : Eq Text
text_eq = record { beq = text_beq; beq_iff = text_beq_iff }

-- `s == ""`
abbrev pub is_empty : Text → Bool
is_empty [] = true
is_empty (c ∷ s) = false

-- `unicode.IsSpace`
unfoldable pub is_space : ℕ → Bool
is_space c =
    (leb 9 c && leb c 13)
    || c == 32
    || c == 0x85
    || c == 0xA0
    || c == 0x1680
    || (leb 0x2000 c && leb c 0x200A)
    || c == 0x2028
    || c == 0x2029
    || c == 0x202F
    || c == 0x205F
    || c == 0x3000

unfoldable pub trim_left : Text → Text
trim_left [] = []
trim_left (c ∷ s) = let rest = trim_left s in if is_space c then rest else c ∷ s

unfoldable pub trim_right : Text → Text
trim_right [] = []
trim_right (c ∷ s) = let rest = trim_right s in if is_space c && is_empty rest then [] else c ∷ rest

-- `strings.TrimSpace`
unfoldable pub trim_space : Text → Text
unfolding trim_left trim_right
trim_space s = trim_right (trim_left s)

-- The bytes of one code point in UTF-8.
unfoldable pub rune_bytes : ℕ → ℕ
rune_bytes c = if ltb c 0x80 then 1 else if ltb c 0x800 then 2 else if ltb c 0x10000 then 3 else 4

-- `len(s)`
unfoldable pub byte_len : Text → ℕ
unfolding rune_bytes
byte_len [] = 0
byte_len (c ∷ s) = rune_bytes c + byte_len s

-- `utf8.RuneCountInString(s)`
abbrev pub rune_count : Text → ℕ
rune_count = length

-- The simple lower-case mapping of the Unicode standard, and what the program relies on: it maps
-- the ASCII letters as ASCII does, maps a lower-case rune to itself, and keeps white space apart.
pub record Casing : Type 0 where
  pub lower : ℕ → ℕ
  pub lower_ascii : (c : ℕ) → c < 128 → lower c ≡ (if leb b'A' c && leb c b'Z' then c + 32 else c)
  pub lower_idem : (c : ℕ) → lower (lower c) ≡ lower c
  pub lower_space : (c : ℕ) → is_space (lower c) ≡ is_space c

-- `strings.ToLower`
abbrev pub to_lower : ⦃u : Casing⦄ → Text → Text
to_lower ⦃u⦄ = map u.lower

-- `strings.ToLower(strings.TrimSpace(s))`
unfoldable pub normalise : ⦃u : Casing⦄ → Text → Text
normalise s = to_lower (trim_space s)
