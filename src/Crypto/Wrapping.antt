-- ===== src/Crypto/Wrapping.antt =====
-- internal/crypto/vault.go: what is wrapped or sealed is had back, and a stored blob causes no panic.
use ghost_vault.Prelude.{
  ℕ, ◌≤◌, ◌<◌, ◌≡◌, ◌≢◌, refl, Bool, true, false, ltb, if◌then◌else◌, some, List, ◌++◌, [], ◌∷◌,
  length, take, drop, zero, suc, arith, length-append, length-take, ap,
}
use ghost_vault.Text.{Text}
use ghost_vault.Crypto.{
  invalid_ciphertext, Attempt, returned, failed, panicked, or_invalid, open_blob, Aead, Primitives,
  WrappedDek, new_dek, wrap_dek, unwrap_dek, seal_chunk, open_chunk, ◌>>=◌,
}

-- What chacha20poly1305 documents of a cipher with nonces of 24 bytes.
pub record IsAead (a : Aead) : Type 0 where
  pub unseal-seal :
      (nonce plain : List ℕ)
      → length nonce ≡ 24
      → (c : List ℕ) × (a.seal nonce plain ≡ some c) × (a.unseal nonce c ≡ returned plain)
  pub unseal_safe : (nonce c : List ℕ) → length nonce ≡ 24 → a.unseal nonce c ≢ panicked

-- What the libraries document: argon2 panics only at no rounds or no threads, and a cipher takes
-- keys of 32 bytes.
pub record IsPrimitives (lib : Primitives) : Type 0 where
  pub derives :
      (password : Text) (salt : List ℕ) (time memory threads size : ℕ)
      → 1 ≤ time
      → 1 ≤ threads
      → (k : List ℕ) × (lib.id_key password salt time memory threads size ≡ some k)
        × (length k ≡ size)
  pub takes_key :
      (key : List ℕ) → length key ≡ 32 → (a : Aead) × (lib.new_x key ≡ some a) × IsAead a

-- The source of random bytes does not fail.
pub record IsFull (lib : Primitives) : Type 0 where
  pub reads : (i n : ℕ) → (b : List ℕ) × (lib.read_full i n ≡ some b) × (length b ≡ n)

take-append_exact : (n : ℕ) (xs ys : List ℕ) → length xs ≡ n → take n (xs ++ ys) ≡ xs
take-append_exact zero [] ys h = refl
take-append_exact zero (x ∷ xs) ys h = absurd (omega (arith, h))
take-append_exact (suc n) [] ys h = absurd (omega (arith, h))
take-append_exact (suc n) (x ∷ xs) ys h = ap (◌∷◌ x) (take-append_exact n xs ys (omega (arith, h)))

drop-append_exact : (n : ℕ) (xs ys : List ℕ) → length xs ≡ n → drop n (xs ++ ys) ≡ ys
drop-append_exact zero [] ys h = refl
drop-append_exact zero (x ∷ xs) ys h = absurd (omega (arith, h))
drop-append_exact (suc n) [] ys h = absurd (omega (arith, h))
drop-append_exact (suc n) (x ∷ xs) ys h = drop-append_exact n xs ys (omega (arith, h))

not_short : (n : ℕ) (xs ys : List ℕ) → length xs ≡ n → ltb (length (xs ++ ys)) n ≡ false
not_short n xs ys h = let e = length-append xs ys in ground (arith, h, e)

or_invalid_safe : (r : Attempt (List ℕ)) → r ≢ panicked → or_invalid r ≢ panicked
or_invalid_safe (returned a) h e = cc e
or_invalid_safe (failed x) h e = cc e
or_invalid_safe panicked h e = h refl

open_short :
    (aead : Aead) (blob : List ℕ)
    → length blob < 24
    → open_blob aead blob ≡ failed invalid_ciphertext
unfolding open_blob
open_short aead blob short =
    let e : ltb (length blob) 24 ≡ true = ground (arith, short) in rw e refl

length-take_whole : (n : ℕ) (xs : List ℕ) → ltb (length xs) n ≡ false → length (take n xs) ≡ n
length-take_whole n xs h = let e = length-take n xs in ground (arith, h, e)

parted_safe :
    (aead : Aead) (n : ℕ) (blob : List ℕ) (b : Bool)
    → ((nonce c : List ℕ) → length nonce ≡ n → aead.unseal nonce c ≢ panicked)
    → ltb (length blob) n ≡ b
    → (if b
        then failed invalid_ciphertext
        else or_invalid (aead.unseal (take n blob) (drop n blob)))
      ≢ panicked
parted_safe aead n blob true safe h = λ e. cc e
parted_safe aead n blob false safe h =
    or_invalid_safe _ (safe (take n blob) (drop n blob) (length-take_whole n blob h))

open_blob_safe : (aead : Aead) (blob : List ℕ) → IsAead aead → open_blob aead blob ≢ panicked
unfolding open_blob
open_blob_safe aead blob cipher =
    parted_safe aead 24 blob (ltb (length blob) 24) cipher.unseal_safe refl

open_blob-append :
    (aead : Aead) (nonce c : List ℕ)
    → length nonce ≡ 24
    → open_blob aead (nonce ++ c) ≡ or_invalid (aead.unseal nonce c)
unfolding open_blob
open_blob-append aead nonce c h =
    rw (not_short 24 nonce c h, take-append_exact 24 nonce c h, drop-append_exact 24 nonce c h) refl

module _ (lib : Primitives) (laws : IsPrimitives lib) where
  pub wrapped_for_argon :
      IsFull lib
      → (password : Text) (dek : List ℕ)
      → (w : WrappedDek) × (wrap_dek lib password dek ≡ returned w)
        × (unwrap_dek lib password w ≡ returned dek)
        × (w.parallelism ≡ 4)
  unfolding wrap_dek unwrap_dek
  wrapped_for_argon full password dek =
      let (salt, e₁, _) = full.reads 0 16 in
      let (kek, e₂, size) = laws.derives password salt 3 65536 4 32 (omega arith) (omega arith) in
      let (aead, e₃, cipher) = laws.takes_key kek size in
      let (nonce, e₄, nonce_size) = full.reads 1 24 in
      let (c, e₅, e₆) = cipher.unseal-seal nonce dek nonce_size in
      (
        record {
          salt = salt;
          time_cost = 3;
          memory_kb = 65536;
          parallelism = 4;
          blob = nonce ++ c;
        },
        rw (e₁, e₂, e₃, e₄, e₅) refl,
        rw (e₂, e₃, open_blob-append aead nonce c nonce_size, e₆) refl,
        refl,
      )

  -- Where the source of random bytes does not fail, a data key is wrapped, and the same password has
  -- it back.
  unwrap-wrap :
      IsFull lib
      → (password : Text) (dek : List ℕ)
      → (w : WrappedDek) × (wrap_dek lib password dek ≡ returned w)
        × (unwrap_dek lib password w ≡ returned dek)
  unwrap-wrap full password dek =
      let (w, wrapped, unwrapped, _) = wrapped_for_argon full password dek in
      (w, wrapped, unwrapped)

  -- Whatever the stored blob and salt are, unwrapping does not panic if at least one round and one
  -- thread are stored, and a blob shorter than a nonce is refused as invalid.
  pub unwrap_safe :
      (password : Text) (w : WrappedDek)
      → 1 ≤ w.time_cost
      → 1 ≤ w.parallelism
      → (unwrap_dek lib password w ≢ panicked)
        × (length w.blob < 24 → unwrap_dek lib password w ≡ failed invalid_ciphertext)
  unfolding unwrap_dek
  unwrap_safe password w rounds threads =
      let (kek, e₂, size) =
        laws.derives password w.salt w.time_cost w.memory_kb w.parallelism 32 rounds threads in
      let (aead, e₃, cipher) = laws.takes_key kek size in
      (
        rw (e₂, e₃) (open_blob_safe aead w.blob cipher),
        λ short. rw (e₂, e₃) (open_short aead w.blob short),
      )

  -- Where the source of random bytes does not fail, a text that is sealed with a new data key can be
  -- read, at its nonce and ciphertext, with the key that the password unwraps later.
  pub open-seal_chunk :
      IsFull lib
      → (password : Text) (plaintext : List ℕ)
      → (dek : List ℕ) × (w : WrappedDek) × (nonce : List ℕ) × (c : List ℕ) × (new_dek lib
          ≡ returned dek)
        × (wrap_dek lib password dek ≡ returned w)
        × (seal_chunk lib dek plaintext ≡ returned (nonce, c))
        × ((unwrap_dek lib password w >>= λ key. open_chunk lib key nonce c) ≡ returned plaintext)
  unfolding new_dek seal_chunk open_chunk
  open-seal_chunk full password plaintext =
      let (dek, e₁, size) = full.reads 0 32 in
      let (aead, e₂, cipher) = laws.takes_key dek size in
      let (nonce, e₃, nonce_size) = full.reads 0 24 in
      let (c, e₄, e₅) = cipher.unseal-seal nonce plaintext nonce_size in
      let (w, wrapped, unwrapped) = unwrap-wrap full password dek in
      (dek, w, nonce, c, rw e₁ refl, wrapped, rw (e₂, e₃, e₄) refl, rw (unwrapped, e₂) e₅)
