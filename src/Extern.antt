-- ===== src/Extern.antt =====
-- What the program takes from the language's floating point and from github.com/google/uuid.
use ghost_vault.Prelude.{ℕ, ◌≡◌, Bool, true, false, Option, none, some, [], ◌∷◌, Eq, Assoc}
use ghost_vault.Prelude.Int.{ℤ}
use ghost_vault.Text.{Text, trim_space}

-- `float64` with its comparisons; `eq x x` is false exactly when x is NaN. `lit n k` is the
-- constant n / 10^k.
pub record Float64 (F : Type 0) : Type 0 where
  pub lt : F → F → Bool
  pub eq : F → F → Bool
  pub add : F → F → F
  pub sub : F → F → F
  pub mul : F → F → F
  pub div : F → F → F
  pub lit : ℕ → ℕ → F

abbrev pub IsNumber : {F : Type 0} ⦃o : Float64 F⦄ → F → Type 0
IsNumber ⦃o⦄ x = o.eq x x ≡ true

-- The order of IEEE 754 numbers, as far as the proofs use it.
pub record IsOrdered {F : Type 0} (o : Float64 F) : Type 0 where
  pub lt_asymm : (x y : F) → o.lt x y ≡ true → o.lt y x ≡ false
  pub lt_trans : (x y z : F) → o.lt x y ≡ true → o.lt y z ≡ true → o.lt x z ≡ true
  pub lt_total :
      (x y : F)
      → o.eq x x ≡ true
      → o.eq y y ≡ true
      → o.lt x y ≡ false
      → o.eq x y ≡ false
      → o.lt y x ≡ true
  pub eq_lt : (x y : F) → o.eq x y ≡ true → o.lt x y ≡ false
  pub eq_symm : (x y : F) → o.eq x y ≡ true → o.eq y x ≡ true
  pub eq_trans : (x y z : F) → o.eq x y ≡ true → o.eq y z ≡ true → o.eq x z ≡ true
  pub lt_eq_trans : (x y z : F) → o.lt x y ≡ true → o.eq y z ≡ true → o.lt x z ≡ true
  pub eq_lt_trans : (x y z : F) → o.eq x y ≡ true → o.lt y z ≡ true → o.lt x z ≡ true

-- `uuid.UUID`: `before a b` is `a.String() < b.String()`, and `String` has one value for each id.
pub record Uuids (U : Type 0) : Type 0 where
  pub id_eq : Eq U
  pub before : U → U → Bool
  pub nil : U
  pub string : U → Text
  pub before_asymm : (a b : U) → before a b ≡ true → before b a ≡ false
  pub before_trans : (a b c : U) → before a b ≡ true → before b c ≡ true → before a c ≡ true
  pub before_total : (a b : U) → before a b ≡ false → before b a ≡ false → a ≡ b

instance abbrev pub eq_of_uuids : {U : Type 0} ⦃i : Uuids U⦄ → Eq U
eq_of_uuids ⦃i⦄ = i.id_eq

-- The JSON object `{"v", "a", "b", "k", "m"}` of a stored chunk; `none` is a nil map. A metadata
-- value is of any type V.
pub record Envelope (V : Type 0) : Type 0 where
  pub v : ℤ
  pub a : Text
  pub b : Text
  pub k : Text
  pub m : Option (Assoc Text V)

-- `omitempty`: an empty map is left out, and comes back as nil.
abbrev pub omit_empty : {V : Type 0} → Option (Assoc Text V) → Option (Assoc Text V)
omit_empty none = none
omit_empty (some []) = none
omit_empty (some (e ∷ m)) = some (e ∷ m)

-- `json.Marshal` and `json.Unmarshal` at that object, and `json.Unmarshal` of a metadata column.
pub record Json (V : Type 0) : Type 0 where
  pub marshal : Envelope V → Option Text
  pub unmarshal : Text → Option (Envelope V)
  pub unmarshal_map : Text → Option (Assoc Text V)

-- What encoding/json documents: an object begins with a brace and ends with one, and decoding it
-- gives the fields back.
pub record IsJson {V : Type 0} (j : Json V) : Type 0 where
  pub marshal_object :
      (w : Envelope V) (t : Text)
      → j.marshal w ≡ some t
      → (rest : Text) × (trim_space t ≡ b'{' ∷ rest)
  pub unmarshal-marshal :
      (w : Envelope V) (t : Text)
      → j.marshal w ≡ some t
      → j.unmarshal t ≡ some (record w { m = omit_empty w.m })
