-- ===== src/Ratchet/Kdf.antt =====
-- The key schedule of ratchet.c: `kdf_rk`, `kdf_ck` and the initial header keys.
use qsafe.Base.{
  ◌*◌, Bool, Option, none, some, [], ◌++◌, ◌>>=◌, Bytes, codes, if◌then◌else◌, take, drop,
}
use qsafe.Crypto.{Primitives, aes_key_size}

abbrev pub label_rk : Bytes
label_rk = codes "Veil-RK-v1"

abbrev pub label_ck_next : Bytes
label_ck_next = codes "Veil-CK-next"

abbrev pub label_ck_msg : Bytes
label_ck_msg = codes "Veil-CK-msg"

abbrev pub label_hka : Bytes
label_hka = codes "Veil-HE-HKA-v1"

abbrev pub label_nhkb : Bytes
label_nhkb = codes "Veil-HE-NHKB-v1"

-- The optional ML-KEM secret that `kdf_rk` appends to the DH output.
abbrev pub ikm_of : Bytes → Option Bytes → Bytes
ikm_of dh_out none = dh_out
ikm_of dh_out (some kem_ss) = dh_out ++ kem_ss

-- `kdf_rk`: the new root key, the chain key and, if it is asked for, the next header key.
unfoldable pub kdf_rk :
    Primitives → Bytes → Bytes → Option Bytes → Bool → Option (Bytes × Bytes × Bytes)
kdf_rk p rk dh_out kem_ss with_nhk = do
  okm ←
      p.hkdf (ikm_of dh_out kem_ss) rk label_rk
        (if with_nhk then 3 * aes_key_size else 2 * aes_key_size)
  some (
    take aes_key_size okm,
    take aes_key_size (drop aes_key_size okm),
    take aes_key_size (drop (2 * aes_key_size) okm),
  )

-- `kdf_ck`: the next chain key and the message key.
unfoldable pub kdf_ck : Primitives → Bytes → Option (Bytes × Bytes)
kdf_ck p ck = do
  mk ← p.hkdf ck [] label_ck_msg aes_key_size
  ck' ← p.hkdf ck [] label_ck_next aes_key_size
  some (ck', mk)

-- `derive_he_hdr_keys`
unfoldable pub derive_he_hdr_keys : Primitives → Bytes → Option (Bytes × Bytes)
derive_he_hdr_keys p sk = do
  hka ← p.hkdf sk [] label_hka aes_key_size
  nhkb ← p.hkdf sk [] label_nhkb aes_key_size
  some (hka, nhkb)
