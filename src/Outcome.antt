-- ===== src/Outcome.antt =====
-- Go's results `(value, error)`, and the state monad of code that writes to the store.
pub mod Action
use ghost_vault.Prelude.{ap, ◌≡◌, refl, Bool, true, false, Option, none, some}

pub data Error : Type 0 where
  store_failed embed_panic : Error
  vault_locked openai_required embed_failed empty_embedding search_failed not_found : Error
  empty_payload missing_dek open_failed source_failed empty_source : Error
  extract_failed hash_failed seal_failed insert_failed marshal_failed too_large : Error

pub data Result {ℓ} (A : Type ℓ) : Type ℓ where
  ok : A → Result A
  err : Error → Result A

module _ {ℓ κ} {A : Type ℓ} {B : Type κ} where
  infixl 5 ◌>>=◌
  abbrev pub ◌>>=◌ : Result A → (A → Result B) → Result B
  err x >>= next = err x
  ok v >>= next = next v

  -- What a successful chain says of its first step.
  pub bind-eq_ok :
      (first : Result A) (next : A → Result B) {w : B}
      → (first >>= next) ≡ ok w
      → (v : A) × (first ≡ ok v) × (next v ≡ ok w)
  bind-eq_ok (err x) next e = cc e
  bind-eq_ok (ok v) next e = (v, refl, e)

module _ {κ} {B : Type κ} where
  infixl 5 ◌>>◌
  abbrev pub ◌>>◌ : Result (Unit {0}) → Result B → Result B
  first >> next = first >>= λ _. next

pub ok-inj {ℓ} : {A : Type ℓ} {a b : A} → ok a ≡ ok b → a ≡ b
ok-inj h = cc h

-- Go on only where the test fails.
abbrev pub unless : Bool → Error → Result (Unit {0})
unless true e = err e
unless false e = ok tt

pub not_stopped : (stop : Bool) (e : Error) {t : Unit {0}} → unless stop e ≡ ok t → stop ≡ false
not_stopped true e h = cc
not_stopped false e h = refl

abbrev pub or_error {ℓ} : {A : Type ℓ} → Error → Option A → Result A
or_error e none = err e
or_error e (some a) = ok a

pub or_error-eq_ok {ℓ} :
    {A : Type ℓ} (e : Error) (found : Option A) {a : A} → or_error e found ≡ ok a → found ≡ some a
or_error-eq_ok e none h = cc h
or_error-eq_ok e (some a) h = ap some (ok-inj h)
