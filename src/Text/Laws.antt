-- ===== src/Text/Laws.antt =====
-- Trimming and lower-casing text twice changes nothing more.
use ghost_vault.Prelude.{
  ◌≤◌, ◌≡◌, refl, ap, ◌∙◌, Bool, true, false, not, ◌&&◌, ◌||◌, [], ◌∷◌, ◌++◌, length, ltb, leb,
  arith,
}
use ghost_vault.Text.{
  Text, codes, is_empty, is_space, trim_left, trim_right, trim_space, Casing, to_lower, normalise,
}

trim_right_idem : (s : Text) → trim_right (trim_right s) ≡ trim_right s
unfolding trim_right
trim_right_idem [] = refl
trim_right_idem (c ∷ s) = ground (arith, trim_right_idem s)

trim_left-trim_right-trim_left :
    (s : Text) → trim_left (trim_right (trim_left s)) ≡ trim_right (trim_left s)
unfolding trim_left trim_right
trim_left-trim_right-trim_left [] = refl
trim_left-trim_right-trim_left (c ∷ s) = ground (arith, trim_left-trim_right-trim_left s)

pub trim_space_idem : (s : Text) → trim_space (trim_space s) ≡ trim_space s
unfolding trim_space
trim_space_idem s = ap trim_right (trim_left-trim_right-trim_left s) ∙ trim_right_idem (trim_left s)

length-trim_left : (s : Text) → length (trim_left s) ≤ length s
unfolding trim_left
length-trim_left [] = omega arith
length-trim_left (c ∷ s) = ground (arith, length-trim_left s)

length-trim_right : (s : Text) → length (trim_right s) ≤ length s
unfolding trim_right
length-trim_right [] = omega arith
length-trim_right (c ∷ s) = ground (arith, length-trim_right s)

pub length-trim_space : (s : Text) → length (trim_space s) ≤ length s
unfolding trim_space
length-trim_space s = omega (arith, length-trim_right (trim_left s), length-trim_left s)

-- Some rune is no white space.
unfoldable pub has_ink : Text → Bool
has_ink [] = false
has_ink (c ∷ s) = not (is_space c) || has_ink s

ink-trim_right : (s : Text) → is_empty (trim_right s) ≡ not (has_ink s)
unfolding trim_right has_ink
ink-trim_right [] = refl
ink-trim_right (c ∷ s) = ground (arith, ink-trim_right s)

ink-trim_left : (s : Text) → has_ink (trim_left s) ≡ has_ink s
unfolding trim_left has_ink
ink-trim_left [] = refl
ink-trim_left (c ∷ s) = ground (arith, ink-trim_left s)

pub ink-trim_space : (s : Text) → is_empty (trim_space s) ≡ not (has_ink s)
unfolding trim_space
ink-trim_space s = ink-trim_right (trim_left s) ∙ ap not (ink-trim_left s)

pub ink-append : (s t : Text) → has_ink (s ++ t) ≡ (has_ink s || has_ink t)
unfolding has_ink
ink-append [] t = refl
ink-append (c ∷ s) t = ground (arith, ink-append s t)

-- An ASCII text with no capital is its own lower case.
is_plain : Text → Bool
is_plain [] = true
is_plain (c ∷ s) = ltb c 128 && not (leb b'A' c && leb c b'Z') && is_plain s

module _ ⦃u : Casing⦄ where
  trim_left-lower : (s : Text) → trim_left (to_lower s) ≡ to_lower (trim_left s)
  unfolding trim_left
  trim_left-lower [] = refl
  trim_left-lower (c ∷ s) = ground (arith, trim_left-lower s, u.lower_space c)

  trim_right-lower : (s : Text) → trim_right (to_lower s) ≡ to_lower (trim_right s)
  unfolding trim_right
  trim_right-lower [] = refl
  trim_right-lower (c ∷ s) = ground (arith, trim_right-lower s, u.lower_space c)

  to_lower_idem : (s : Text) → to_lower (to_lower s) ≡ to_lower s
  to_lower_idem [] = refl
  to_lower_idem (c ∷ s) = ground (arith, to_lower_idem s, u.lower_idem c)

  pub trim_space-lower : (s : Text) → trim_space (to_lower s) ≡ to_lower (trim_space s)
  unfolding trim_space
  trim_space-lower s = ap trim_right (trim_left-lower s) ∙ trim_right-lower (trim_left s)

  -- A normalised text is its own normal form.
  pub normalise_idem : (s : Text) → normalise (normalise s) ≡ normalise s
  unfolding normalise
  normalise_idem s =
      ap to_lower (trim_space-lower (trim_space s))
      ∙ to_lower_idem (trim_space (trim_space s))
      ∙ ap to_lower (trim_space_idem s)

  plain_lower : (s : Text) → is_plain s ≡ true → to_lower s ≡ s
  unfolding is_plain
  plain_lower [] h = refl
  plain_lower (c ∷ s) h = ground (arith, u.lower_ascii c, plain_lower s)

  normalise_plain : (s : Text) → is_plain s ≡ true → trim_space s ≡ s → normalise s ≡ s
  unfolding normalise
  normalise_plain s h e = ap to_lower e ∙ plain_lower s h

  pub normalise_full : normalise (codes "full") ≡ codes "full"
  unfolding is_plain trim_space is_space
  normalise_full = normalise_plain (codes "full") refl refl

  pub normalise_abstract : normalise (codes "abstract") ≡ codes "abstract"
  unfolding is_plain trim_space is_space
  normalise_abstract = normalise_plain (codes "abstract") refl refl
