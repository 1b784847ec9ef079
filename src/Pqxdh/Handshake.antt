-- ===== src/Pqxdh/Handshake.antt =====
-- Both sides of the handshake of pqxdh.c, over the session establishment of ratchet.c.
use qsafe.Base.{
  put_u64, ℕ, ◌-◌, ◌%◌, ◌^◌, Bool, true, false, not, Option, none, some, List, [], ◌∷◌, ◌++◌, ltb,
  ◌==◌, if◌then◌else◌, Bytes, bytes_eq,
}
use qsafe.Crypto.{Error, Result, ok, err, Primitives, Signatures, aes_key_size}
use qsafe.Crypto.Results.{◌>>=◌, ◌>>◌, need, refuse_if}
use qsafe.Ratchet.State.{Session}
use qsafe.Ratchet.Init.{
  ratchet_init_initiator, ratchet_init_responder, ratchet_pq_init_initiator,
  ratchet_pq_init_responder,
}
use qsafe.Pqxdh.State.{
  OneTime, Identity, Bundle, Initial, label_sk, label_spk, label_pqk, label_opk, label_iddh,
  label_omac,
}
use qsafe.Pqxdh.Identity.{verify_labeled, opk_signed_bytes}

abbrev pub pq_byte : Bool → ℕ
pq_byte true = 1
pq_byte false = 0

-- `opening_mac_bytes`
unfoldable pub opening_mac_bytes : Initial → Bytes
opening_mac_bytes m =
    m.ik_sig_pk
    ++ (m.ik_dh_pk ++ (m.ek_pk ++ (m.pq_ct ++ (put_u64 m.opk_id ++ (pq_byte m.pq ∷ [])))))

-- `derive_open_mac_key` and `derive_sk`
unfoldable pub derive_open_mac_key : Primitives → Bytes → Result Bytes
derive_open_mac_key p sk = need (p.hkdf sk [] label_omac aes_key_size) Error.crypto

unfoldable pub derive_sk : Primitives → Bytes → Result Bytes
derive_sk p legs = need (p.hkdf legs [] label_sk aes_key_size) Error.crypto

-- The tag of an opening message under the session secret.
unfoldable pub opening_tag : Primitives → Bytes → Initial → Result Bytes
unfolding derive_open_mac_key
opening_tag p sk m = do
  mac_key ← derive_open_mac_key p sk
  need (p.hmac mac_key (opening_mac_bytes m)) Error.crypto

abbrev pub verify_opk : Signatures → Bundle → Result (Unit {0})
verify_opk q peer =
    if peer.have_opk
    then verify_labeled q label_opk (opk_signed_bytes peer.opk_id peer.opk_pk) peer.opk_sig
        peer.ik_sig_pk
    else ok tt

-- The signatures that the initiator checks before it uses a bundle.
unfoldable pub verify_bundle : Signatures → Bundle → Result (Unit {0})
verify_bundle q peer = do
  verify_labeled q label_spk peer.spk_pk peer.spk_sig peer.ik_sig_pk
  verify_labeled q label_pqk peer.pqk_pk peer.pqk_sig peer.ik_sig_pk
  verify_labeled q label_iddh peer.ik_dh_pk peer.ik_dh_cert peer.ik_sig_pk
  verify_opk q peer

abbrev pub dh : Primitives → Bytes → Bytes → Result Bytes
dh p sec peer = need (p.x25519_dh sec peer) Error.crypto

-- The fourth leg, if the bundle has a one-time prekey.
abbrev pub opk_leg : Primitives → Bytes → Bundle → Result Bytes
opk_leg p ek_sk peer = if peer.have_opk then dh p ek_sk peer.opk_pk else ok []

-- The legs of the initiator, in order.
unfoldable pub initiator_legs : Primitives → Identity → Bytes → Bundle → Result Bytes
initiator_legs p self ek_sk peer = do
  dh1 ← dh p self.ik_dh_sk peer.spk_pk
  dh2 ← dh p ek_sk peer.ik_dh_pk
  dh3 ← dh p ek_sk peer.spk_pk
  dh4 ← opk_leg p ek_sk peer
  ok (dh1 ++ (dh2 ++ (dh3 ++ dh4)))

-- The session of each side on the derived secret.
unfoldable pub initiator_session : Primitives → (ℕ → ℕ) → Bool → Bytes → Bytes → Result Session
initiator_session p draw pq sk spk_pk =
    if pq
    then ratchet_pq_init_initiator p (draw 2) (draw 3) sk spk_pk
    else ratchet_init_initiator p (draw 2) sk spk_pk

unfoldable pub responder_session : Primitives → ℕ → Bool → Bytes → Identity → Result Session
responder_session p draw pq sk self =
    if pq
    then ratchet_pq_init_responder p draw sk self.spk_pk self.spk_sk
    else ok (ratchet_init_responder sk self.spk_pk self.spk_sk)

-- The opening message before its tag. An `opk_id` of -1 says that there was no prekey.
abbrev pub opening : Identity → Bundle → Bytes → Bytes → Bool → Initial
opening self peer ek_pk pq_ct pq = record {
  ik_sig_pk = self.ik_sig_pk;
  ik_dh_pk = self.ik_dh_pk;
  ik_dh_cert = self.ik_dh_cert;
  ek_pk = ek_pk;
  pq_ct = pq_ct;
  opk_id = if peer.have_opk then peer.opk_id else 2 ^ 64 - 1;
  pq = pq;
  mac = [];
}

-- `pqxdh_initiator`
unfoldable pub pqxdh_initiator :
    Primitives → Signatures → (ℕ → ℕ) → Identity → Bundle → Bool → Result (Initial × Session)
unfolding derive_sk
pqxdh_initiator p q draw self peer pq = do
  verify_bundle q peer
  (ek_sk, ek_pk) ← need (p.x25519_keypair (draw 0)) Error.crypto
  legs ← initiator_legs p self ek_sk peer
  (pq_ct, pq_ss) ← need (p.kem_encaps (draw 1) peer.pqk_pk) Error.crypto
  sk ← derive_sk p (legs ++ pq_ss)
  session ← initiator_session p draw pq sk peer.spk_pk
  mac ← opening_tag p sk (opening self peer ek_pk pq_ct pq)
  ok (record (opening self peer ek_pk pq_ct pq) { mac = mac }, session)

-- The loop that looks for the named prekey: the first entry with that id.
abbrev pub find_opk : List OneTime → ℕ → Option OneTime
find_opk [] id = none
find_opk (o ∷ l) id = if o.id == id then some o else find_opk l id

-- The fourth leg of the responder. The id is non-negative when its top bit is clear, and is cast to
-- 32 bits for the search.
abbrev pub named_leg : Primitives → Option OneTime → Bytes → Result Bytes
named_leg p none ek_pk = err Error.invalid_input
named_leg p (some o) ek_pk = dh p o.sk ek_pk

abbrev pub responder_opk_leg : Primitives → Identity → Initial → Result Bytes
responder_opk_leg p self msg =
    if ltb msg.opk_id (2 ^ 63)
    then named_leg p (find_opk self.opk (msg.opk_id % 2 ^ 32)) msg.ek_pk
    else ok []

unfoldable pub responder_legs : Primitives → Identity → Initial → Result Bytes
responder_legs p self msg = do
  dh1 ← dh p self.spk_sk msg.ik_dh_pk
  dh2 ← dh p self.ik_dh_sk msg.ek_pk
  dh3 ← dh p self.spk_sk msg.ek_pk
  dh4 ← responder_opk_leg p self msg
  ok (dh1 ++ (dh2 ++ (dh3 ++ dh4)))

-- The check of the tag under the derived secret.
unfoldable pub check_opening : Primitives → Bytes → Initial → Result (Unit {0})
unfolding opening_tag
check_opening p sk msg = do
  want ← opening_tag p sk msg
  refuse_if (not (bytes_eq want msg.mac)) Error.integrity

-- `pqxdh_responder`
unfoldable pub pqxdh_responder : Primitives → Signatures → ℕ → Identity → Initial → Result Session
unfolding derive_sk
pqxdh_responder p q draw self msg = do
  verify_labeled q label_iddh msg.ik_dh_pk msg.ik_dh_cert msg.ik_sig_pk
  legs ← responder_legs p self msg
  pq_ss ← need (p.kem_decaps msg.pq_ct self.pqk_sk) Error.integrity
  sk ← derive_sk p (legs ++ pq_ss)
  check_opening p sk msg
  responder_session p draw msg.pq sk self
