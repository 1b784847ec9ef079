-- ===== src/Ratchet/Init.antt =====
-- Session establishment of ratchet.c: the classical, post-quantum and header-encryption variants.
use qsafe.Base.{true, false, none, ℕ, Bytes}
use qsafe.Crypto.{Error, Result, ok, err, Primitives}
use qsafe.Ratchet.State.{Session, Action, attempt, modify, ◌>>=◌, ◌>>◌, zero_session}
use qsafe.Ratchet.Kdf.{kdf_rk, derive_he_hdr_keys}
use qsafe.Ratchet.Step.{kem_keygen}

-- What the caller is given: `*out` on success, and nothing otherwise.
abbrev pub created : Result (Unit {0}) × Session → Result Session
created (ok _, s) = ok s
created (err e, _) = err e

-- The key pair and the peer's key of an initiator.
abbrev pub initiator_keys : Primitives → ℕ → Bytes → Action (Unit {0})
initiator_keys p draw peer_dh_pub = do
  (sec, pub_key) ← attempt (p.x25519_keypair draw) Error.crypto
  modify (λ s. record s { dhs_sec = sec; dhs_pub = pub_key; dhr = peer_dh_pub; have_dhr = true })

abbrev pub initiator_chain : Primitives → Bytes → Action (Unit {0})
initiator_chain p sk s =
    (do
      dh_out ← attempt (p.x25519_dh s.dhs_sec s.dhr) Error.crypto
      (rk, ck, nhk) ← attempt (kdf_rk p sk dh_out none false) Error.crypto
      modify (λ t. record t { rk = rk; cks = ck; have_cks = true }))
      s

unfoldable pub ratchet_init_initiator : Primitives → ℕ → Bytes → Bytes → Result Session
ratchet_init_initiator p draw sk peer_dh_pub =
    created ((do initiator_keys p draw peer_dh_pub; initiator_chain p sk) zero_session)

unfoldable pub ratchet_init_responder : Bytes → Bytes → Bytes → Session
ratchet_init_responder sk self_dh_pub self_dh_sec = record zero_session {
  dhs_sec = self_dh_sec;
  dhs_pub = self_dh_pub;
  rk = sk;
}

-- The post-quantum variants: an ML-KEM key pair for a session that was established.
unfoldable pub ratchet_pq_init_initiator : Primitives → ℕ → ℕ → Bytes → Bytes → Result Session
unfolding ratchet_init_initiator kem_keygen
ratchet_pq_init_initiator p draw kem_draw sk peer_dh_pub =
    elim (ratchet_init_initiator p draw sk peer_dh_pub) [
      | err e ↦ err e
      | ok s ↦ created (
          kem_keygen p kem_draw
            (record s { pq = true; kem = record (s.kem) { send_full = true; advertised = true } }))
    ]

unfoldable pub ratchet_pq_init_responder : Primitives → ℕ → Bytes → Bytes → Bytes → Result Session
unfolding ratchet_init_responder kem_keygen
ratchet_pq_init_responder p kem_draw sk self_dh_pub self_dh_sec = created (
    kem_keygen p kem_draw
      (record (ratchet_init_responder sk self_dh_pub self_dh_sec) { pq = true }))

abbrev pub initiator_chain_he : Primitives → Bytes → Action (Unit {0})
initiator_chain_he p sk s =
    (do
      dh_out ← attempt (p.x25519_dh s.dhs_sec s.dhr) Error.crypto
      (rk, ck, nhk) ← attempt (kdf_rk p sk dh_out none true) Error.crypto
      modify (λ t. record t {
        rk = rk;
        cks = ck;
        have_cks = true;
        header = record (t.header) { nhks = nhk; have_nhks = true };
      }))
      s

unfoldable pub ratchet_he_init_initiator : Primitives → ℕ → Bytes → Bytes → Result Session
unfolding derive_he_hdr_keys
ratchet_he_init_initiator p draw sk peer_dh_pub = created (
    (do
      initiator_keys p draw peer_dh_pub
      initiator_chain_he p sk
      (hka, nhkb) ← attempt (derive_he_hdr_keys p sk) Error.crypto
      modify (λ s. record s {
        he = true;
        header = record (s.header) { hks = hka; have_hks = true; nhkr = nhkb; have_nhkr = true };
      }))
      zero_session)

unfoldable pub ratchet_he_init_responder : Primitives → Bytes → Bytes → Bytes → Result Session
unfolding derive_he_hdr_keys ratchet_init_responder
ratchet_he_init_responder p sk self_dh_pub self_dh_sec = created (
    (do
      (hka, nhkb) ← attempt (derive_he_hdr_keys p sk) Error.crypto
      modify (λ s. record s {
        he = true;
        header = record (s.header) { nhks = nhkb; have_nhks = true; nhkr = hka; have_nhkr = true };
      }))
      (ratchet_init_responder sk self_dh_pub self_dh_sec))
