-- ===== src/Tests/Keys.antt =====
-- Data keys at concrete inputs, with a cipher that marks a text with the first byte of its key.
use ghost_vault.Prelude.{
  ℕ, ◌≤◌, ◌<◌, ◌≡◌, ◌≢◌, refl, Bool, true, false, ◌==◌, ==_iff, if◌then◌else◌, Option, some, none,
  List, [], ◌∷◌, length, zero, suc, arith, ap,
}
use ghost_vault.Text.{Text, codes}
use ghost_vault.Crypto.{
  open_failed, invalid_ciphertext, Attempt, returned, failed, panicked, Aead, Primitives,
  WrappedDek, new_dek, wrap_dek, unwrap_dek, open_blob, seal_chunk, open_chunk, ◌>>=◌,
}
use ghost_vault.Crypto.Wrapping.{IsAead, IsPrimitives, IsFull, unwrap_safe, open-seal_chunk}

-- The first n entries, filled up with zeros.
abbrev pub fit : ℕ → List ℕ → List ℕ
fit zero bs = []
fit (suc n) [] = 0 ∷ fit n []
fit (suc n) (b ∷ bs) = b ∷ fit n bs

length-fit : (n : ℕ) (bs : List ℕ) → length (fit n bs) ≡ n
length-fit zero bs = refl
length-fit (suc n) [] = ap suc (length-fit n [])
length-fit (suc n) (b ∷ bs) = ap suc (length-fit n bs)

abbrev mark_of : List ℕ → ℕ
mark_of [] = 0
mark_of (b ∷ bs) = b

abbrev read_marked : ℕ → List ℕ → Attempt (List ℕ)
read_marked mark [] = failed open_failed
read_marked mark (b ∷ bs) = if b == mark then returned bs else failed open_failed

read_marked_safe : (mark : ℕ) (c : List ℕ) → read_marked mark c ≢ panicked
read_marked_safe mark [] e = cc e
read_marked_safe mark (b ∷ bs) e = go (b == mark) e
  where
    go : (t : Bool) → (if t then returned bs else failed open_failed) ≢ panicked
    go true e = cc e
    go false e = cc e

abbrev marking : ℕ → Aead
marking mark = record {
  seal = λ nonce plain. if length nonce == 24 then some (mark ∷ plain) else none;
  unseal = λ nonce c. if length nonce == 24 then read_marked mark c else panicked;
}

marking-IsAead : (mark : ℕ) → IsAead (marking mark)
marking-IsAead mark = record {
  unseal-seal = λ nonce plain h.
      let e = (==_iff (length nonce) 24).1 h in
      (mark ∷ plain, rw e refl, rw (e, (==_iff mark mark).1 refl) refl);
  unseal_safe =
      λ nonce c h. let e = (==_iff (length nonce) 24).1 h in rw e (read_marked_safe mark c);
}

abbrev derive : Text → ℕ → ℕ → ℕ → Option (List ℕ)
derive password zero threads size = none
derive password (suc t) zero size = none
derive password (suc t) (suc p) size = some (fit size password)

derives :
    (password : Text) (time threads size : ℕ)
    → 1 ≤ time
    → 1 ≤ threads
    → (k : List ℕ) × (derive password time threads size ≡ some k) × (length k ≡ size)
derives password zero threads size h h' = absurd (omega (arith, h))
derives password (suc t) zero size h h' = absurd (omega (arith, h'))
derives password (suc t) (suc p) size h h' = (fit size password, refl, length-fit size password)

abbrev pub marked : Primitives
marked = record {
  id_key = λ password salt time memory threads size. derive password time threads size;
  new_x = λ key. if length key == 32 then some (marking (mark_of key)) else none;
  read_full = λ i n. some (fit n (i ∷ []));
}

pub marked-IsPrimitives : IsPrimitives marked
marked-IsPrimitives = record {
  derives = λ password salt time memory threads size. derives password time threads size;
  takes_key = λ key h.
      (marking (mark_of key), rw ((==_iff (length key) 32).1 h) refl, marking-IsAead (mark_of key));
}

pub marked-IsFull : IsFull marked
marked-IsFull = record { reads = λ i n. (fit n (i ∷ []), refl, length-fit n (i ∷ [])) }

abbrev short_blob : WrappedDek
short_blob = record {
  salt = [];
  time_cost = 3;
  memory_kb = 65536;
  parallelism = 4;
  blob = 1 ∷ 2 ∷ [];
}

unwrap_safe_example :
    (unwrap_dek marked (codes "secret") short_blob ≢ panicked)
    × (2 < 24 → unwrap_dek marked (codes "secret") short_blob ≡ failed invalid_ciphertext)
unwrap_safe_example =
    unwrap_safe marked marked-IsPrimitives (codes "secret") short_blob (omega arith) (omega arith)

open-seal_chunk_example :
    (dek : List ℕ) × (w : WrappedDek) × (nonce : List ℕ) × (c : List ℕ) × (new_dek marked
      ≡ returned dek)
    × (wrap_dek marked (codes "secret") dek ≡ returned w)
    × (seal_chunk marked dek (codes "hello vault") ≡ returned (nonce, c))
    × ((unwrap_dek marked (codes "secret") w >>= λ key. open_chunk marked key nonce c)
        ≡ returned (codes "hello vault"))
open-seal_chunk_example =
    open-seal_chunk marked marked-IsPrimitives marked-IsFull (codes "secret") (codes "hello vault")

-- Another password does not open the blob.
unwrap_other_password :
    (wrap_dek marked (codes "secret") (5 ∷ []) >>= unwrap_dek marked (codes "wrong"))
    ≡ failed invalid_ciphertext
unfolding wrap_dek unwrap_dek open_blob
unwrap_other_password = refl
