-- ===== src/Tests/Data.antt =====
-- Instances of the interfaces at concrete types, and small inputs.
use ghost_vault.Prelude.{
  true, false, ℕ, zero, suc, ◌+◌, ◌-◌, ◌*◌, ◌/◌, ◌≡◌, refl, Option, none, some, [], ◌∷◌, ltb, leb,
  ◌==◌, nat_eq, arith, if◌then◌else◌, Assoc, length, take, drop, ◌++◌, ap, ◌&&◌,
}
use ghost_vault.Prelude.Int.{ℤ, pos, negsuc}
use ghost_vault.Text.{Text, is_space, trim_left, trim_right, trim_space, Casing}
use ghost_vault.Core.Ingest.Decoded.{IsColumn}
use ghost_vault.Extern.{Float64, IsOrdered, Uuids, Json, IsJson, Envelope, omit_empty}

-- Hundredths, whole.
instance abbrev pub nat_float : Float64 ℕ
nat_float = record {
  lt = ltb;
  eq = ◌==◌;
  add = ◌+◌;
  sub = ◌-◌;
  mul = λ a b. a * b / 100;
  div = λ a b. elim b [ zero ↦ 0 | suc n ↦ a * 100 / suc n ];
  lit = λ n k. elim k [ zero ↦ n * 100 | suc zero ↦ n * 10 | suc (suc k) ↦ n ];
}

pub nat_float-IsOrdered : IsOrdered nat_float
nat_float-IsOrdered = record {
  lt_asymm = λ x y h. ground arith;
  lt_trans = λ x y z h k. ground arith;
  lt_total = λ x y hx hy h k. ground arith;
  eq_lt = λ x y h. ground arith;
  eq_symm = λ x y h. ground arith;
  eq_trans = λ x y z h k. ground arith;
  lt_eq_trans = λ x y z h k. ground arith;
  eq_lt_trans = λ x y z h k. ground arith;
}

pub ltb-asymm : (a b : ℕ) → ltb a b ≡ true → ltb b a ≡ false
ltb-asymm a b h = ground arith

pub ltb_trans : (a b c : ℕ) → ltb a b ≡ true → ltb b c ≡ true → ltb a c ≡ true
ltb_trans a b c h k = ground arith

pub ltb-total : (a b : ℕ) → ltb a b ≡ false → ltb b a ≡ false → a ≡ b
ltb-total a b h k = ground arith

instance abbrev pub nat_uuids : Uuids ℕ
nat_uuids = record {
  id_eq = nat_eq;
  before = ltb;
  nil = 0;
  string = λ n. n ∷ [];
  before_asymm = ltb-asymm;
  before_trans = ltb_trans;
  before_total = ltb-total;
}

abbrev pub ascii_lower : ℕ → ℕ
ascii_lower c = if leb b'A' c && leb c b'Z' then c + 32 else c

pub ascii_lower_idem : (c : ℕ) → ascii_lower (ascii_lower c) ≡ ascii_lower c
ascii_lower_idem c = ground arith

pub ascii_lower_space : (c : ℕ) → is_space (ascii_lower c) ≡ is_space c
unfolding is_space
ascii_lower_space c = ground arith

instance abbrev pub ascii_casing : Casing
ascii_casing = record {
  lower = ascii_lower;
  lower_ascii = λ c h. refl;
  lower_idem = ascii_lower_idem;
  lower_space = ascii_lower_space;
}

-- A codec for objects without metadata: a brace, the version, two lengths, and the texts.
abbrev pub encoded : ℕ → Text → Text → Text → Text
encoded v a b k = b'{' ∷ v ∷ length a ∷ length b ∷ a ++ (b ++ k)

abbrev pub encode : ℤ → Text → Text → Text → Option (Assoc Text (Unit {0})) → Option Text
encode (pos v) a b k none = some (encoded v a b k)
encode (pos v) a b k (some []) = some (encoded v a b k)
encode (pos v) a b k (some (e ∷ m)) = none
encode (negsuc v) a b k m = none

abbrev pub decode : Text → Option (Envelope (Unit {0}))
decode (c ∷ v ∷ na ∷ nb ∷ s) =
    if c == b'{'
    then some (record {
      v = pos v;
      a = take na s;
      b = take nb (drop na s);
      k = drop nb (drop na s);
      m = none;
    })
    else none
decode _ = none

-- A metadata map with its number of entries first, and each key with its length.
abbrev pub encode_entries : Assoc Text (Unit {0}) → Text
encode_entries [] = []
encode_entries ((k, t) ∷ m) = length k ∷ k ++ encode_entries m

abbrev pub encode_map : Assoc Text (Unit {0}) → Text
encode_map m = length m ∷ encode_entries m

abbrev pub decode_entries : ℕ → Text → Assoc Text (Unit {0})
decode_entries zero s = []
decode_entries (suc n) [] = []
decode_entries (suc n) (k ∷ s) = (take k s, tt) ∷ decode_entries n (drop k s)

abbrev pub decode_map : Text → Option (Assoc Text (Unit {0}))
decode_map [] = none
decode_map (n ∷ s) = some (decode_entries n s)

abbrev pub test_json : Json (Unit {0})
test_json = record {
  marshal = λ w. encode w.v w.a w.b w.k w.m;
  unmarshal = decode;
  unmarshal_map = decode_map;
}

some-inj : {s t : Text} → some s ≡ some t → s ≡ t
some-inj h = cc h

take-append : (a b : Text) → take (length a) (a ++ b) ≡ a
take-append [] b = refl
take-append (c ∷ a) b = ap (◌∷◌ c) (take-append a b)

drop-append : (a b : Text) → drop (length a) (a ++ b) ≡ b
drop-append [] b = refl
drop-append (c ∷ a) b = drop-append a b

decode-encoded :
    (v : ℕ) (a b k : Text)
    → decode (encoded v a b k) ≡ some (record { v = pos v; a = a; b = b; k = k; m = none })
decode-encoded v a b k =
    simp (take-append a (b ++ k), drop-append a (b ++ k), take-append b k, drop-append b k)

encode-object :
    (v : ℤ) (a b k : Text) (m : Option (Assoc Text (Unit {0}))) (t : Text)
    → encode v a b k m ≡ some t
    → (rest : Text) × (trim_space t ≡ b'{' ∷ rest)
unfolding trim_space trim_left trim_right is_space
encode-object (pos v) a b k none t h = rw (← some-inj h) (_, refl)
encode-object (pos v) a b k (some []) t h = rw (← some-inj h) (_, refl)
encode-object (pos v) a b k (some (e ∷ m)) t h = cc h
encode-object (negsuc v) a b k m t h = cc h

decode-encode :
    (v : ℤ) (a b k : Text) (m : Option (Assoc Text (Unit {0}))) (t : Text)
    → encode v a b k m ≡ some t
    → decode t ≡ some (record { v = v; a = a; b = b; k = k; m = omit_empty m })
decode-encode (pos v) a b k none t h = rw (← some-inj h) (decode-encoded v a b k)
decode-encode (pos v) a b k (some []) t h = rw (← some-inj h) (decode-encoded v a b k)
decode-encode (pos v) a b k (some (e ∷ m)) t h = cc h
decode-encode (negsuc v) a b k m t h = cc h

pub test_json-IsJson : IsJson test_json
test_json-IsJson = record {
  marshal_object = λ w t h. encode-object w.v w.a w.b w.k w.m t h;
  unmarshal-marshal = λ w t h. decode-encode w.v w.a w.b w.k w.m t h;
}

decode-entries : (m : Assoc Text (Unit {0})) → decode_entries (length m) (encode_entries m) ≡ m
decode-entries [] = refl
decode-entries ((k, t) ∷ m) =
    rw (take-append k (encode_entries m), drop-append k (encode_entries m))
      (ap (λ n. (k, tt) ∷ n) (decode-entries m))

pub encode_map-IsColumn : IsColumn test_json encode_map
encode_map-IsColumn = record {
  reads = λ m. (length m, encode_entries m, refl, ap some (decode-entries m));
}
