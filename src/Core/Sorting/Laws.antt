-- ===== src/Core/Sorting/Laws.antt =====
-- Both sorts put a list in order and rearrange it.
use mathlib.Core.List.{Perm}
use mathlib.Core.List.Perm
use ghost_vault.Prelude.{
  ℕ, zero, suc, ◌≡◌, ◌≤◌, refl, Bool, true, false, List, [], ◌∷◌, length, if◌then◌else◌, All,
  AllPairs, arith, Bool-cases, inl, inr,
}
use ghost_vault.Core.Sorting.{sweep, rounds, exchange_sort, place, sort_slice}

module _ {A : Type 0} (wins : A → A → Bool) where
  -- No later entry wins against an earlier one.
  abbrev pub IsRanked : List A → Type 0
  IsRanked = AllPairs (λ x y. wins y x ≡ false)

  sweep-perm : (x : A) (ys : List A) → Perm ((sweep wins x ys).0 ∷ (sweep wins x ys).1) (x ∷ ys)
  unfolding sweep
  sweep-perm x [] = Perm.rfl
  sweep-perm x (y ∷ ys) = elim (Bool-cases (wins y x)) [
    | inl e ↦
        rw (e, sweep)
          (Perm.trans (Perm.swap x (sweep wins y ys).0 (sweep wins y ys).1)
            (Perm.cons x (sweep-perm y ys)))
    | inr e ↦
        rw (e, sweep)
          (Perm.trans (Perm.swap y (sweep wins x ys).0 (sweep wins x ys).1)
            (Perm.trans (Perm.cons y (sweep-perm x ys)) (Perm.swap x y ys)))
  ]

  length-sweep : (x : A) (ys : List A) → length (sweep wins x ys).1 ≡ length ys
  unfolding sweep
  length-sweep x [] = refl
  length-sweep x (y ∷ ys) = ground (arith, length-sweep x ys, length-sweep y ys)

  rounds-perm : (n : ℕ) (xs : List A) → Perm (rounds wins n xs) xs
  unfolding rounds
  rounds-perm zero xs = Perm.rfl
  rounds-perm (suc n) [] = Perm.rfl
  rounds-perm (suc n) (x ∷ xs) =
      Perm.trans (Perm.cons (sweep wins x xs).0 (rounds-perm n (sweep wins x xs).1))
        (sweep-perm x xs)

  -- The swap loop loses and invents nothing.
  pub exchange_sort-perm : (xs : List A) → Perm (exchange_sort wins xs) xs
  unfolding exchange_sort
  exchange_sort-perm xs = rounds-perm (length xs) xs

  place-perm : (x : A) (xs : List A) → Perm (place wins x xs) (x ∷ xs)
  unfolding place
  place-perm x [] = Perm.rfl
  place-perm x (y ∷ ys) = elim (Bool-cases (wins y x)) [
    | inl e ↦ rw (e, place) (Perm.trans (Perm.cons y (place-perm x ys)) (Perm.swap x y ys))
    | inr e ↦ rw (e, place) Perm.rfl
  ]

  pub sort_slice-perm : (xs : List A) → Perm (sort_slice wins xs) xs
  unfolding sort_slice
  sort_slice-perm [] = Perm.rfl
  sort_slice-perm (x ∷ xs) =
      Perm.trans (place-perm x (sort_slice wins xs)) (Perm.cons x (sort_slice-perm xs))

  module _ (P : A → Type 0) where
    sweep-All :
        (x : A) (ys : List A) → P x → All P ys → P (sweep wins x ys).0 × All P (sweep wins x ys).1
    unfolding sweep
    sweep-All x [] p h = (p, tt)
    sweep-All x (y ∷ ys) p (q, h) = ground (arith, sweep-All x ys, sweep-All y ys)

    rounds-All : (n : ℕ) (xs : List A) → All P xs → All P (rounds wins n xs)
    unfolding rounds
    rounds-All zero xs h = h
    rounds-All (suc n) [] h = tt
    rounds-All (suc n) (x ∷ xs) (p, h) =
        let (q, r) = sweep-All x xs p h in (q, rounds-All n (sweep wins x xs).1 r)

    pub exchange_sort-All : (xs : List A) → All P xs → All P (exchange_sort wins xs)
    unfolding exchange_sort
    exchange_sort-All xs h = rounds-All (length xs) xs h

    place-All : (x : A) (xs : List A) → P x → All P xs → All P (place wins x xs)
    unfolding place
    place-All x [] p h = (p, tt)
    place-All x (y ∷ ys) p (q, h) = ground (arith, place-All x ys)

    pub sort_slice-All : (xs : List A) → All P xs → All P (sort_slice wins xs)
    unfolding sort_slice
    sort_slice-All [] h = tt
    sort_slice-All (x ∷ xs) (p, h) = place-All x (sort_slice wins xs) p (sort_slice-All xs h)

  -- A symmetric relation that holds between any two entries.
  module _ (R : A → A → Type 0) (symm : (x y : A) → R x y → R y x) where
    abbrev IsApart : List A → Type 0
    IsApart = AllPairs R

    IsApart-swap :
        (swap : Bool) (x y : A) (ys : List A)
        → IsApart (x ∷ y ∷ ys)
        → (IsApart (x ∷ ys) → let (best, rest) = sweep wins x ys in IsApart (best ∷ rest))
        → (IsApart (y ∷ ys) → let (best, rest) = sweep wins y ys in IsApart (best ∷ rest))
        → let (best, rest) = sweep wins (if swap then y else x) ys in
          IsApart (best ∷ (if swap then x else y) ∷ rest)
    IsApart-swap true x y ys ((xy, hx), (hy, h)) _ ih =
        let (p, q) = sweep-All (R x) y ys xy hx in
        let (b, r) = ih (hy, h) in ((symm x (sweep wins y ys).0 p, b), (q, r))
    IsApart-swap false x y ys ((xy, hx), (hy, h)) ih _ =
        let (p, q) = sweep-All (R y) x ys (symm x y xy) hy in
        let (b, r) = ih (hx, h) in ((symm y (sweep wins x ys).0 p, b), (q, r))

    sweep-IsApart :
        (x : A) (ys : List A)
        → IsApart (x ∷ ys)
        → let (best, rest) = sweep wins x ys in IsApart (best ∷ rest)
    unfolding sweep
    sweep-IsApart x [] h = h
    sweep-IsApart x (y ∷ ys) h =
        IsApart-swap (wins y x) x y ys h (sweep-IsApart x ys) (sweep-IsApart y ys)

    rounds-IsApart : (n : ℕ) (xs : List A) → IsApart xs → IsApart (rounds wins n xs)
    unfolding rounds
    rounds-IsApart zero xs h = h
    rounds-IsApart (suc n) [] h = tt
    rounds-IsApart (suc n) (x ∷ xs) h =
        let (b, r) = sweep-IsApart x xs h in
        (
          rounds-All (R (sweep wins x xs).0) n (sweep wins x xs).1 b,
          rounds-IsApart n (sweep wins x xs).1 r,
        )

    pub exchange_sort-AllPairs : (xs : List A) → AllPairs R xs → AllPairs R (exchange_sort wins xs)
    unfolding exchange_sort
    exchange_sort-AllPairs xs h = rounds-IsApart (length xs) xs h

  -- On the entries that satisfy P the comparison is a strict weak order.
  pub record IsWeakOrder (P : A → Type 0) : Type 0 where
    pub asymm : (x y : A) → P x → P y → wins x y ≡ true → wins y x ≡ false
    pub below_trans :
        (x y z : A) → P x → P y → P z → wins x y ≡ false → wins y z ≡ false → wins x z ≡ false

  module _ (P : A → Type 0) (w : IsWeakOrder P) where
    irrefl : (x : A) → P x → wins x x ≡ false
    irrefl x p = elim (Bool-cases (wins x x)) [ inl e ↦ w.asymm x x p p e | inr e ↦ e ]

    -- What the inner loop leaves at i: nothing that it left behind wins against it, nor did x.
    abbrev IsBest : A → A × List A → Type 0
    IsBest x (best, rest) = P best × (wins x best ≡ false) × All (λ y. wins y best ≡ false) rest

    IsBest-swap :
        (swap : Bool) (x y : A) (ys : List A)
        → wins y x ≡ swap
        → P x
        → P y
        → IsBest x (sweep wins x ys)
        → IsBest y (sweep wins y ys)
        → let (best, rest) = sweep wins (if swap then y else x) ys in
          IsBest x (best, (if swap then x else y) ∷ rest)
    IsBest-swap true x y ys e p q _ (b, le, rest) =
        let low = w.below_trans x y (sweep wins y ys).0 p q b (w.asymm y x q p e) le in
        (b, low, (low, rest))
    IsBest-swap false x y ys e p q (b, le, rest) _ =
        (b, le, (w.below_trans y x (sweep wins x ys).0 q p b e le, rest))

    sweep-IsBest : (x : A) (ys : List A) → P x → All P ys → IsBest x (sweep wins x ys)
    unfolding sweep
    sweep-IsBest x [] p h = (p, irrefl x p, tt)
    sweep-IsBest x (y ∷ ys) p (q, h) =
        IsBest-swap (wins y x) x y ys refl p q (sweep-IsBest x ys p h) (sweep-IsBest y ys q h)

    rounds-IsRanked : (n : ℕ) (xs : List A) → length xs ≤ n → All P xs → IsRanked (rounds wins n xs)
    unfolding rounds
    rounds-IsRanked zero [] fits h = tt
    rounds-IsRanked zero (x ∷ xs) fits h = absurd (omega arith)
    rounds-IsRanked (suc n) [] fits h = tt
    rounds-IsRanked (suc n) (x ∷ xs) fits (p, h) =
        let (b, le, rest) = sweep-IsBest x xs p h in
        (
          rounds-All (λ y. wins y (sweep wins x xs).0 ≡ false) n (sweep wins x xs).1 rest,
          rounds-IsRanked n (sweep wins x xs).1 (omega (arith, length-sweep x xs))
              (sweep-All P x xs p h).1,
        )

    -- The swap loop puts the list in order.
    pub exchange_sort-IsRanked : (xs : List A) → All P xs → IsRanked (exchange_sort wins xs)
    unfolding exchange_sort
    exchange_sort-IsRanked xs h = rounds-IsRanked (length xs) xs (omega arith) h

    below-All :
        (x y : A) (ys : List A)
        → P x
        → P y
        → All P ys
        → wins y x ≡ false
        → All (λ z. wins z y ≡ false) ys
        → All (λ z. wins z x ≡ false) ys
    below-All x y [] p q h e b = tt
    below-All x y (z ∷ ys) p q (r, h) e (c, b) =
        (w.below_trans z y x r q p c e, below-All x y ys p q h e b)

    place-IsRanked :
        (x : A) (xs : List A) → P x → All P xs → IsRanked xs → IsRanked (place wins x xs)
    unfolding place
    place-IsRanked x [] p h s = (tt, tt)
    place-IsRanked x (y ∷ ys) p (q, h) (b, s) = elim (Bool-cases (wins y x)) [
      | inl e ↦
          rw (e, place)
            (
              place-All (λ z. wins z y ≡ false) x ys (w.asymm y x q p e) b,
              place-IsRanked x ys p h s,
            )
      | inr e ↦ rw (e, place) ((e, below-All x y ys p q h e b), (b, s))
    ]

    pub sort_slice-IsRanked : (xs : List A) → All P xs → IsRanked (sort_slice wins xs)
    unfolding sort_slice
    sort_slice-IsRanked [] h = tt
    sort_slice-IsRanked (x ∷ xs) (p, h) =
        place-IsRanked x (sort_slice wins xs) p (sort_slice-All P xs h) (sort_slice-IsRanked xs h)
