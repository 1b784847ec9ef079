-- ===== src/Ratchet/Header.antt =====
-- The wire headers of ratchet.c, in clear and as the plaintext of an encrypted header.
use qsafe.Base.{
  ℕ, ◌+◌, ◌≡◌, subst, [], ◌∷◌, ◌++◌, ◌==◌, if◌then◌else◌, length, get_or, take, drop,
  take-append_length, drop-append_length, drop-append_past, append_assoc, append-nil, Bytes, IsU32,
  put_u32, get_u32, get_u32-put_u32, length-put_u32, arith,
}
use qsafe.Crypto.{x25519_key_size}
use qsafe.Ratchet.State.{ratchet_mlkem_pk, ratchet_mlkem_ct, Session}

abbrev pub ratchet_hdr_size : ℕ
ratchet_hdr_size = 1 + 1 + x25519_key_size + 4 + 4

abbrev pub ratchet_pq_hdr_size : ℕ
ratchet_pq_hdr_size = ratchet_hdr_size + ratchet_mlkem_pk + 1 + ratchet_mlkem_ct

abbrev pub ratchet_he_hdrpt : ℕ
ratchet_he_hdrpt = x25519_key_size + 4 + 4

abbrev pub ratchet_he_hdr_size : ℕ
ratchet_he_hdr_size = 12 + ratchet_he_hdrpt + 16

abbrev pub type_classical : ℕ
type_classical = 0x02

abbrev pub type_pq_full : ℕ
type_pq_full = 0x03

abbrev pub type_pq_lite : ℕ
type_pq_lite = 0x04

-- `ratchet_hdr_size(s)`
unfoldable pub session_hdr_size : Session → ℕ
session_hdr_size s =
    if s.he then ratchet_he_hdr_size else if s.pq then ratchet_pq_hdr_size else ratchet_hdr_size

-- `ratchet_hdr_size_of`
unfoldable pub ratchet_hdr_size_of : Bytes → ℕ
ratchet_hdr_size_of hdr =
    if get_or hdr 1 0 == type_pq_full then ratchet_pq_hdr_size else ratchet_hdr_size

unfoldable pub hdr_build : ℕ → Bytes → ℕ → ℕ → Bytes
hdr_build type dh_pub pn n = 1 ∷ type ∷ (dh_pub ++ (put_u32 pn ++ put_u32 n))

-- `hdr_parse`: the ratchet key, PN and N.
unfoldable pub hdr_parse : Bytes → Bytes × ℕ × ℕ
hdr_parse hdr = (take x25519_key_size (drop 2 hdr), get_u32 (drop 34 hdr), get_u32 (drop 38 hdr))

unfoldable pub he_hdr_build : Bytes → ℕ → ℕ → Bytes
he_hdr_build dh_pub pn n = dh_pub ++ (put_u32 pn ++ put_u32 n)

unfoldable pub he_hdr_parse : Bytes → Bytes × ℕ × ℕ
he_hdr_parse hpt = (take x25519_key_size hpt, get_u32 (drop 32 hpt), get_u32 (drop 36 hpt))

-- The three fields behind any first part of 32 bytes.
pub header_fields :
    (dh_pub : Bytes) (pn n : ℕ) (rest : Bytes)
    → length dh_pub ≡ x25519_key_size
    → IsU32 pn
    → IsU32 n
    → let fields = dh_pub ++ (put_u32 pn ++ (put_u32 n ++ rest)) in
      (take x25519_key_size fields ≡ dh_pub)
      × (get_u32 (drop 32 fields) ≡ pn)
      × (get_u32 (drop 36 fields) ≡ n)
header_fields dh_pub pn n rest h hp hn = (
  take-append_length dh_pub _ 32 h,
  rw (drop-append_length dh_pub (put_u32 pn ++ (put_u32 n ++ rest)) 32 h)
      (get_u32-put_u32 pn (put_u32 n ++ rest) hp),
  rw
      (
        drop-append_past dh_pub (put_u32 pn ++ (put_u32 n ++ rest)) 36 4 (omega arith),
        drop-append_length (put_u32 pn) (put_u32 n ++ rest) 4 (length-put_u32 pn),
      )
      (get_u32-put_u32 n rest hn),
)

-- The header that is built is parsed to what it was built from, for a ratchet key of 32 bytes and
-- 32-bit counters: in clear, whatever follows it, and as the plaintext of an encrypted header.
pub parse-build :
    (type : ℕ) (dh_pub : Bytes) (pn n : ℕ) (rest : Bytes)
    → length dh_pub ≡ x25519_key_size
    → IsU32 pn
    → IsU32 n
    → (hdr_parse (hdr_build type dh_pub pn n ++ rest) ≡ (dh_pub, pn, n))
      × (he_hdr_parse (he_hdr_build dh_pub pn n) ≡ (dh_pub, pn, n))
unfolding hdr_parse hdr_build he_hdr_parse he_hdr_build
parse-build type dh_pub pn n rest h hp hn =
    let (d, p, q) = header_fields dh_pub pn n rest h hp hn in
    let (d', p', q') = header_fields dh_pub pn n [] h hp hn in
    (
      rw (append_assoc dh_pub (put_u32 pn ++ put_u32 n) rest, append_assoc (put_u32 pn))
          (λ i. (d i, p i, q i)),
      subst (λ t. he_hdr_parse (dh_pub ++ (put_u32 pn ++ t)) ≡ (dh_pub, pn, n))
          (append-nil (put_u32 n)) (λ i. (d' i, p' i, q' i)),
    )
