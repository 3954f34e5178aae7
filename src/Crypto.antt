-- ===== src/Crypto.antt =====
-- internal/crypto/vault.go: the data key of a vault, wrapped with a key that argon2 derives from the
-- password, and the sealing of texts with the data key. Bytes are numbers.
pub mod Wrapping
use ghost_vault.Prelude.{ℕ, ltb, if◌then◌else◌, Option, none, some, List, ◌++◌, length, take, drop}
use ghost_vault.Text.{Text}

pub data CryptoError : Type 0 where
  read_failed bad_key invalid_ciphertext open_failed : CryptoError

-- A panic of a library is a result of its own.
pub data Attempt (A : Type 0) : Type 0 where
  returned : A → Attempt A
  failed : CryptoError → Attempt A
  panicked : Attempt A

module _ {A : Type 0} {B : Type 0} where
  infixl 5 ◌>>=◌
  abbrev pub ◌>>=◌ : Attempt A → (A → Attempt B) → Attempt B
  returned a >>= next = next a
  failed e >>= next = failed e
  panicked >>= next = panicked

abbrev pub or_failed : {A : Type 0} → CryptoError → Option A → Attempt A
or_failed e none = failed e
or_failed e (some a) = returned a

abbrev pub or_panicked : {A : Type 0} → Option A → Attempt A
or_panicked none = panicked
or_panicked (some a) = returned a

-- `cipher.AEAD` without additional data. Both panic at a nonce of a wrong length, where `seal` gives
-- none.
pub record Aead : Type 0 where
  pub seal : List ℕ → List ℕ → Option (List ℕ)
  pub unseal : List ℕ → List ℕ → Attempt (List ℕ)

-- `argon2.IDKey password salt time memory threads size`, where none is a panic;
-- `chacha20poly1305.NewX`, where none is an error; and `io.ReadFull(rand.Reader, b)`, the i-th of a
-- call, for n bytes.
pub record Primitives : Type 0 where
  pub id_key : Text → List ℕ → ℕ → ℕ → ℕ → ℕ → Option (List ℕ)
  pub new_x : List ℕ → Option Aead
  pub read_full : ℕ → ℕ → Option (List ℕ)

pub record WrappedDek : Type 0 where
  pub salt : List ℕ
  pub time_cost : ℕ
  pub memory_kb : ℕ
  pub parallelism : ℕ
  pub blob : List ℕ

abbrev pub dek_size : ℕ
dek_size = 32

abbrev pub x_nonce_size : ℕ
x_nonce_size = 24

abbrev pub argon_time : ℕ
argon_time = 3

abbrev pub argon_memory_kb : ℕ
argon_memory_kb = 65536

abbrev pub argon_threads : ℕ
argon_threads = 4

-- Every error of `Open` becomes ErrInvalidCiphertext.
abbrev pub or_invalid : Attempt (List ℕ) → Attempt (List ℕ)
or_invalid (returned plain) = returned plain
or_invalid (failed e) = failed invalid_ciphertext
or_invalid panicked = panicked

-- The nonce and the ciphertext of a blob, opened.
unfoldable pub open_blob : Aead → List ℕ → Attempt (List ℕ)
open_blob aead blob =
    if ltb (length blob) x_nonce_size
    then failed invalid_ciphertext
    else or_invalid (aead.unseal (take x_nonce_size blob) (drop x_nonce_size blob))

module _ (lib : Primitives) where
  unfoldable pub new_dek : Attempt (List ℕ)
  new_dek = or_failed read_failed (lib.read_full 0 dek_size)

  unfoldable pub wrap_dek : Text → List ℕ → Attempt WrappedDek
  wrap_dek password dek = do
    salt ← or_failed read_failed (lib.read_full 0 16)
    kek ← or_panicked (lib.id_key password salt argon_time argon_memory_kb argon_threads dek_size)
    aead ← or_failed bad_key (lib.new_x kek)
    nonce ← or_failed read_failed (lib.read_full 1 x_nonce_size)
    ciphertext ← or_panicked (aead.seal nonce dek)
    returned (record {
      salt = salt;
      time_cost = argon_time;
      memory_kb = argon_memory_kb;
      parallelism = argon_threads;
      blob = nonce ++ ciphertext;
    })

  unfoldable pub unwrap_dek : Text → WrappedDek → Attempt (List ℕ)
  unwrap_dek password w = do
    kek ← or_panicked (lib.id_key password w.salt w.time_cost w.memory_kb w.parallelism dek_size)
    aead ← or_failed bad_key (lib.new_x kek)
    open_blob aead w.blob

  unfoldable pub seal_chunk : List ℕ → List ℕ → Attempt (List ℕ × List ℕ)
  seal_chunk dek plaintext = do
    aead ← or_failed bad_key (lib.new_x dek)
    nonce ← or_failed read_failed (lib.read_full 0 x_nonce_size)
    ciphertext ← or_panicked (aead.seal nonce plaintext)
    returned (nonce, ciphertext)

  unfoldable pub open_chunk : List ℕ → List ℕ → List ℕ → Attempt (List ℕ)
  open_chunk dek nonce ciphertext = do
    aead ← or_failed bad_key (lib.new_x dek)
    aead.unseal nonce ciphertext
