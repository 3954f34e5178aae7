-- ===== src/Outcome/Action.antt =====
-- Code that writes to the store: it may fail, and what it wrote before stays written.
use ghost_vault.Prelude.{◌≡◌, refl}
use ghost_vault.Outcome.{Error, Result, ok, err}

abbrev pub Action : Type 0 → Type 0 → Type 0
Action S A = S → Result A × S

module _ {S A B : Type 0} where
  abbrev pub continue : Result A → (A → Action S B) → Action S B
  continue (ok a) f s = f a s
  continue (err e) f s = (err e, s)

  infixl 5 ◌>>=◌ ◌>>◌
  unfoldable pub ◌>>=◌ : Action S A → (A → Action S B) → Action S B
  ◌>>=◌ m f s = continue (m s).0 f (m s).1

  abbrev pub ◌>>◌ : Action S A → Action S B → Action S B
  m >> n = m >>= λ _. n

module _ {S A : Type 0} where
  abbrev pub pure : A → Action S A
  pure a s = (ok a, s)

  abbrev pub fail : Error → Action S A
  fail e s = (err e, s)

  abbrev pub lift : Result A → Action S A
  lift r s = (r, s)

  abbrev pub gets : (S → A) → Action S A
  gets f s = (ok (f s), s)

  -- `_ = m`: the error is dropped.
  abbrev pub ignore : Action S A → Action S (Unit {0})
  ignore m s = (ok tt, (m s).1)

abbrev pub modify : {S : Type 0} → (S → S) → Action S (Unit {0})
modify f s = (ok tt, f s)

module _ {S A B : Type 0} where
  -- What a successful chain says of its first step.
  pub bind-eq_ok :
      (m : Action S A) (f : A → Action S B) (s : S) {b : B}
      → ((m >>= f) s).0 ≡ ok b
      → (a : A) × ((m s).0 ≡ ok a) × ((m >>= f) s ≡ f a (m s).1)
  unfolding ◌>>=◌
  bind-eq_ok m f s {b} h = go (m s) h
    where
      go :
          (p : Result A × S)
          → (continue p.0 f p.1).0 ≡ ok b
          → (a : A) × (p.0 ≡ ok a) × (continue p.0 f p.1 ≡ f a p.1)
      go (ok a, s') h' = (a, refl, refl)
      go (err x, s') h' = absurd (cc h')
