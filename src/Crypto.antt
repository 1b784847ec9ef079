-- ===== src/Crypto.antt =====
-- The cryptographic calls of crypto_utils.c (include/crypto_utils.h) as the session layers use them.
-- What OpenSSL and liboqs compute is a parameter, a record of functions; a draw of randomness is a
-- number that the caller supplies. `none` is the failure return of a call.
pub mod Toy
pub mod Results
use qsafe.Base.{
  ℕ, ◌/◌, ◌%◌, ◌^◌, ◌≡◌, ◌≤◌, Bool, true, Option, none, some, [], ◌∷◌, Bytes, IsByte, All,
  if◌then◌else◌, ◌==◌, length,
}

-- `crypto_error_t` without CRYPTO_SUCCESS.
pub data Error : Type 0 where
  file_io memory crypto invalid_input integrity : Error

pub data Result {ℓ} (A : Type ℓ) : Type ℓ where
  ok : A → Result A
  err : Error → Result A

pub record Primitives : Type 0 where
  -- `crypto_hkdf_sha256(ikm, salt, info, out_len)`
  pub hkdf : Bytes → Bytes → Bytes → ℕ → Option Bytes
  -- `crypto_hmac_sha256(key, data)`
  pub hmac : Bytes → Bytes → Option Bytes
  -- `crypto_x25519_keypair`: the secret and the public key
  pub x25519_keypair : ℕ → Option (Bytes × Bytes)
  -- `crypto_x25519_dh(sec, peer_pub)`
  pub x25519_dh : Bytes → Bytes → Option Bytes
  -- `crypto_gcm_seal_aad(key, nonce, aad, pt)`: ciphertext and tag
  pub gcm_seal : Bytes → Bytes → Bytes → Bytes → Option (Bytes × Bytes)
  -- `crypto_gcm_open_aad(key, nonce, aad, ct, tag)`
  pub gcm_open : Bytes → Bytes → Bytes → Bytes → Bytes → Option Bytes
  -- `OQS_KEM_keypair`: the public and the secret key
  pub kem_keypair : ℕ → Option (Bytes × Bytes)
  -- `OQS_KEM_encaps(pub)`: ciphertext and shared secret
  pub kem_encaps : ℕ → Bytes → Option (Bytes × Bytes)
  -- `OQS_KEM_decaps(ct, sec)`
  pub kem_decaps : Bytes → Bytes → Option Bytes
  -- `RAND_bytes(len)`
  pub rand_bytes : ℕ → ℕ → Option Bytes

-- AEAD as documented: what was sealed opens under the same key, nonce and header, the ciphertext
-- has the size of the plaintext and the tag has 16 bytes.
pub record IsAead (p : Primitives) : Type 0 where
  pub open_seal :
      (key nonce aad pt ct tag : Bytes)
      → p.gcm_seal key nonce aad pt ≡ some (ct, tag)
      → p.gcm_open key nonce aad ct tag ≡ some pt
  pub tag_size :
      (key nonce aad pt ct tag : Bytes)
      → p.gcm_seal key nonce aad pt ≡ some (ct, tag)
      → length tag ≡ 16
  pub ct_size :
      (key nonce aad pt ct tag : Bytes)
      → p.gcm_seal key nonce aad pt ≡ some (ct, tag)
      → length ct ≡ length pt

-- X25519 as documented: two sides with each other's public key agree.
abbrev pub Agrees : Primitives → Type 0
Agrees p =
    (draw draw' : ℕ) (sec pub_key sec' pub_key' : Bytes)
    → p.x25519_keypair draw ≡ some (sec, pub_key)
    → p.x25519_keypair draw' ≡ some (sec', pub_key')
    → p.x25519_dh sec pub_key' ≡ p.x25519_dh sec' pub_key

-- ML-KEM as documented: the secret key of a pair recovers what was encapsulated to its public key.
abbrev pub Decapsulates : Primitives → Type 0
Decapsulates p =
    (draw draw' : ℕ) (pk sk ct ss : Bytes)
    → p.kem_keypair draw ≡ some (pk, sk)
    → p.kem_encaps draw' pk ≡ some (ct, ss)
    → p.kem_decaps ct sk ≡ some ss

-- `RAND_bytes` as documented: it fills the buffer with bytes.
abbrev pub FillsBytes : Primitives → Type 0
FillsBytes p = (draw n : ℕ) (out : Bytes) → p.rand_bytes draw n ≡ some out → All IsByte out

-- `crypto_seal_at_rest(passphrase, plain)` with its random draw, and `crypto_open_at_rest`.
pub record Envelope : Type 0 where
  pub seal_at_rest : ℕ → Bytes → Bytes → Result Bytes
  pub open_at_rest : Bytes → Bytes → Result Bytes

-- The envelope as documented: what was sealed under a passphrase opens under it.
abbrev pub Opens : Envelope → Type 0
Opens env =
    (draw : ℕ) (passphrase plain blob : Bytes)
    → env.seal_at_rest draw passphrase plain ≡ ok blob
    → env.open_at_rest passphrase blob ≡ ok plain

-- The object representation of a C struct, which the compiler chooses: the bytes of a value, and the
-- value that `sizeof` bytes stand for once they are copied over one.
pub record Layout (A : Type 0) : Type 0 where
  pub size_of : ℕ
  pub bytes_of : A → Bytes
  pub value_of : Bytes → A

-- A struct sealed as its raw bytes, and read back if the size is right.
unfoldable pub seal_raw : {A : Type 0} → Envelope → Layout A → ℕ → Bytes → A → Result Bytes
seal_raw env layout draw passphrase a = env.seal_at_rest draw passphrase (layout.bytes_of a)

abbrev pub whole_raw : {A : Type 0} → Layout A → Bytes → Result A
whole_raw layout plain =
    if length plain == layout.size_of then ok (layout.value_of plain) else err Error.integrity

unfoldable pub open_raw : {A : Type 0} → Envelope → Layout A → Bytes → Bytes → Result A
open_raw env layout passphrase blob = elim (env.open_at_rest passphrase blob) [
  | err e ↦ err e
  | ok plain ↦ whole_raw layout plain
]

-- A representation as documented: it has the size of the type and holds the value.
pub record IsLayout {A : Type 0} (layout : Layout A) : Type 0 where
  pub sized : (a : A) → length (layout.bytes_of a) ≡ layout.size_of
  pub holds : (a : A) → layout.value_of (layout.bytes_of a) ≡ a

-- ML-DSA of liboqs: `OQS_SIG_keypair` (public and secret key), `OQS_SIG_sign` and `OQS_SIG_verify`.
pub record Signatures : Type 0 where
  pub sig_keypair : ℕ → Option (Bytes × Bytes)
  pub sig_sign : ℕ → Bytes → Bytes → Option Bytes
  pub sig_verify : Bytes → Bytes → Bytes → Bool

abbrev pub qsafe_sig_pub_size : ℕ
qsafe_sig_pub_size = 2592

abbrev pub qsafe_sig_max_size : ℕ
qsafe_sig_max_size = 4627

-- Signatures as documented: what the secret key of a pair signed verifies under the public key, and
-- has at most the maximal size.
pub record IsSigner (q : Signatures) : Type 0 where
  pub verify_sign :
      (draw draw' : ℕ) (pk sk msg sig : Bytes)
      → q.sig_keypair draw ≡ some (pk, sk)
      → q.sig_sign draw' msg sk ≡ some sig
      → q.sig_verify msg sig pk ≡ true
  pub sig_size :
      (draw : ℕ) (msg sk sig : Bytes)
      → q.sig_sign draw msg sk ≡ some sig
      → length sig ≤ qsafe_sig_max_size

-- `crypto_sig_keypair_raw`, `crypto_sig_sign_buf` and `crypto_sig_verify_buf`.
unfoldable pub sig_keypair_raw : Signatures → ℕ → Result (Bytes × Bytes)
sig_keypair_raw q draw = elim (q.sig_keypair draw) [ none ↦ err Error.crypto | some keys ↦ ok keys ]

unfoldable pub sig_sign_buf : Signatures → ℕ → Bytes → Bytes → Result Bytes
sig_sign_buf q draw msg sk = elim (q.sig_sign draw msg sk) [
  | none ↦ err Error.crypto
  | some sig ↦ ok sig
]

unfoldable pub sig_verify_buf : Signatures → Bytes → Bytes → Bytes → Result (Unit {0})
sig_verify_buf q msg sig pk = if q.sig_verify msg sig pk then ok tt else err Error.integrity

abbrev pub aes_key_size : ℕ
aes_key_size = 32

abbrev pub aes_gcm_nonce_size : ℕ
aes_gcm_nonce_size = 12

abbrev pub aes_gcm_tag_size : ℕ
aes_gcm_tag_size = 16

abbrev pub x25519_key_size : ℕ
x25519_key_size = 32

-- `crypto_frame_nonce`: three zero bytes, the counter in eight bytes, high byte first, and the flag.
unfoldable pub frame_nonce : ℕ → Bool → Bytes
frame_nonce counter last =
    0
    ∷ 0
    ∷ 0
    ∷ (counter / 2 ^ 56 % 256)
    ∷ (counter / 2 ^ 48 % 256)
    ∷ (counter / 2 ^ 40 % 256)
    ∷ (counter / 2 ^ 32 % 256)
    ∷ (counter / 2 ^ 24 % 256)
    ∷ (counter / 2 ^ 16 % 256)
    ∷ (counter / 2 ^ 8 % 256)
    ∷ (counter % 256)
    ∷ (if last then 1 else 0)
    ∷ []
