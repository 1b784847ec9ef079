-- ===== src/Ratchet/Message.antt =====
-- Messages of ratchet.c: `ratchet_encrypt` and `ratchet_decrypt`, without and with header encryption.
use qsafe.Base.{
  ℕ, ◌+◌, ◌-◌, ◌%◌, ◌^◌, Bool, false, ◌&&◌, ◌||◌, not, Option, none, some, List, [], ◌∷◌, ◌++◌, ltb,
  ◌==◌, if◌then◌else◌, length, get_or, take, drop, replicate, Bytes, bytes_eq,
}
use qsafe.Crypto.{
  Error, Result, ok, err, Primitives, aes_gcm_tag_size, aes_gcm_nonce_size, frame_nonce,
}
use qsafe.Ratchet.State.{
  SkippedKey, Session, Action, pure, attempt, modify, fail_if, ◌>>=◌, ◌>>◌, ratchet_mlkem_pk,
  ratchet_mlkem_ct,
}
use qsafe.Ratchet.Kdf.{kdf_ck}
use qsafe.Ratchet.Header.{
  ratchet_hdr_size, ratchet_he_hdrpt, type_classical, type_pq_full, type_pq_lite, hdr_build,
  he_hdr_build, he_hdr_parse,
}
use qsafe.Ratchet.Skip.{shift_place, skip_message_keys}
use qsafe.Ratchet.Step.{Draws, KemHeader, dh_ratchet}

abbrev pub int32_max : ℕ
int32_max = 2147483647

-- The type byte of the next message.
unfoldable pub message_type : Session → ℕ
message_type s =
    if not s.pq then type_classical else if s.kem.send_full then type_pq_full else type_pq_lite

-- What a full message appends to the header.
unfoldable pub kem_fields : Session → Bytes
kem_fields s =
    s.kem.kem_pk
    ++ ((if s.kem.have_ct then 1 else 0)
        ∷ (if s.kem.have_ct then s.kem.pend_ct else replicate ratchet_mlkem_ct 0))

unfoldable pub message_header : Session → Bytes
unfolding message_type kem_fields
message_header s =
    let hdr = hdr_build (message_type s) s.dhs_pub s.pn s.ns in
    if message_type s == type_pq_full then hdr ++ kem_fields s else hdr

abbrev pub advance_sending : Bytes → Session → Session
advance_sending ck s = record s { cks = ck }

abbrev pub count_sent : Session → Session
count_sent s = record s { ns = (s.ns + 1) % 2 ^ 32 }

-- Seal the body under the message key with the header as AAD: `out`, which ends in the tag.
unfoldable pub seal_body : Primitives → Bytes → ℕ → Bytes → Bytes → Option Bytes
seal_body p mk n hdr pt = elim (p.gcm_seal mk (frame_nonce n false) hdr pt) [
  | none ↦ none
  | some (ct, tag) ↦ some (ct ++ tag)
]

-- `he_header_seal`: nonce, ciphertext and tag.
unfoldable pub he_header_seal : Primitives → ℕ → Bytes → Bytes → Option Bytes
he_header_seal p draw hk hpt = elim (p.rand_bytes draw aes_gcm_nonce_size) [
  | none ↦ none
  | some nonce ↦ elim (p.gcm_seal hk nonce [] hpt) [
    | none ↦ none
    | some (ct, tag) ↦ some (nonce ++ (ct ++ tag))
  ]
]

-- `he_header_open`
unfoldable pub he_header_open : Primitives → Bytes → Bytes → Option Bytes
he_header_open p hk hdr =
    p.gcm_open hk (take aes_gcm_nonce_size hdr) []
      (take ratchet_he_hdrpt (drop aes_gcm_nonce_size hdr))
      (drop (aes_gcm_nonce_size + ratchet_he_hdrpt) hdr)

-- `ratchet_encrypt_he`: the header and the body.
unfoldable pub ratchet_encrypt_he : Primitives → ℕ → Bytes → Action (Bytes × Bytes)
unfolding he_header_seal seal_body
ratchet_encrypt_he p draw pt s =
    (do
      fail_if (not s.have_cks || not s.header.have_hks) Error.invalid_input
      fail_if (ltb int32_max (length pt)) Error.invalid_input
      (ck, mk) ← attempt (kdf_ck p s.cks) Error.crypto
      modify (advance_sending ck)
      hdr ←
          attempt (he_header_seal p draw s.header.hks (he_hdr_build s.dhs_pub s.pn s.ns))
            Error.crypto
      out ← attempt (seal_body p mk s.ns hdr pt) Error.crypto
      modify count_sent
      pure (hdr, out))
      s

-- `ratchet_encrypt` of a session without header encryption. The chain key advances before the
-- body is sealed, and the message number after.
unfoldable pub ratchet_encrypt_clear : Primitives → Bytes → Action (Bytes × Bytes)
unfolding message_header seal_body
ratchet_encrypt_clear p pt s =
    (do
      fail_if (not s.have_cks) Error.invalid_input
      fail_if (ltb int32_max (length pt)) Error.invalid_input
      (ck, mk) ← attempt (kdf_ck p s.cks) Error.crypto
      modify (advance_sending ck)
      out ← attempt (seal_body p mk s.ns (message_header s) pt) Error.crypto
      modify count_sent
      pure (message_header s, out))
      s

unfoldable pub ratchet_encrypt : Primitives → ℕ → Bytes → Action (Bytes × Bytes)
unfolding ratchet_encrypt_he ratchet_encrypt_clear
ratchet_encrypt p draw pt s =
    if s.he then ratchet_encrypt_he p draw pt s else ratchet_encrypt_clear p pt s

-- `open_with_mk`. The cast of the body's length to `int` is left out: up to 2^31 - 1 bytes it changes
-- nothing.
unfoldable pub open_with_mk : Primitives → Bytes → ℕ → Bytes → Bytes → Result Bytes
open_with_mk p mk n hdr ct =
    if ltb (length ct) aes_gcm_tag_size
    then err Error.invalid_input
    else elim (p.gcm_open mk (frame_nonce n false) hdr (take body ct) (drop body ct)) [
      | none ↦ err Error.integrity
      | some pt ↦ ok pt
    ]
  where
    body : ℕ
    body = length ct - aes_gcm_tag_size

abbrev pub lift : {A : Type 0} → Result A → Action A
lift r s = (r, s)

abbrev pub count_received : Session → Session
count_received s = record s { nr = (s.nr + 1) % 2 ^ 32 }

abbrev pub advance_receiving : Bytes → Session → Session
advance_receiving ck s = record s { ckr = ck }

-- What a full header carries behind the first 42 bytes.
unfoldable pub kem_header : Bytes → Option KemHeader
kem_header hdr =
    if get_or hdr 1 0 == type_pq_full
    then some (record {
      kem_pk = take ratchet_mlkem_pk (drop ratchet_hdr_size hdr);
      have_ct = not (get_or hdr (ratchet_hdr_size + ratchet_mlkem_pk) 0 == 0);
      kem_ct = take ratchet_mlkem_ct (drop (ratchet_hdr_size + ratchet_mlkem_pk + 1) hdr);
    })
    else none

-- The version and type bytes that a session accepts.
unfoldable pub header_fits : Session → Bytes → Bool
header_fits s hdr =
    get_or hdr 0 0 == 1
    && (if s.pq
        then get_or hdr 1 0 == type_pq_full || get_or hdr 1 0 == type_pq_lite
        else get_or hdr 1 0 == type_classical)

-- Step 2: a new ratchet key ends the current chain and steps the ratchet.
unfoldable pub new_epoch : Primitives → Draws → Bytes → Bytes → ℕ → Action (Unit {0})
new_epoch p draws hdr dh pn s =
    if not s.have_dhr || not (bytes_eq dh s.dhr)
    then (do skip_message_keys p pn; dh_ratchet p draws dh (kem_header hdr)) s
    else (ok tt, s)

-- The stored entry whose header key opens the header to the entry's own key and number. An entry
-- whose header key does not open it, or opens it to another message, is passed over.
unfoldable pub find_skipped_he : Primitives → Bytes → List SkippedKey → Option (ℕ × SkippedKey)
find_skipped_he p hdr [] = none
find_skipped_he p hdr (e ∷ rest) =
    let later = shift_place (find_skipped_he p hdr rest) in
    elim (he_header_open p e.hk hdr) [
      | none ↦ later
      | some hpt ↦
          let (dh, pn, n) = he_hdr_parse hpt in
          if n == e.n && bytes_eq dh e.dh_pub then some (0, e) else later
    ]
