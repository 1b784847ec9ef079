-- ===== src/Ratchet/Step.antt =====
-- The DH ratchet steps of ratchet.c: `dh_ratchet` with its ML-KEM part, and `dh_ratchet_he`.
use qsafe.Base.{
  ℕ, ◌+◌, ◌%◌, ◌^◌, Bool, true, false, ◌||◌, not, Option, none, some, ◌==◌, if◌then◌else◌, Bytes,
}
use qsafe.Crypto.{Error, Result, ok, Primitives}
use qsafe.Ratchet.State.{Session, Action, pure, gets, attempt, modify, ◌>>=◌, ◌>>◌}
use qsafe.Ratchet.Kdf.{kdf_rk}

-- The random draws of one step: the DH key pair, the ML-KEM key pair, the encapsulation.
pub record Draws : Type 0 where
  pub dh : ℕ
  pub kem : ℕ
  pub encaps : ℕ

-- What a full (0x03) header carries.
pub record KemHeader : Type 0 where
  pub kem_pk : Bytes
  pub have_ct : Bool
  pub kem_ct : Bytes

abbrev pub ratchet_kem_every : ℕ
ratchet_kem_every = 8

-- `kem_keygen`
unfoldable pub kem_keygen : Primitives → ℕ → Action (Unit {0})
kem_keygen p draw = do
  (pk, sk) ← attempt (p.kem_keypair draw) Error.crypto
  modify (λ s. record s { kem = record (s.kem) { kem_pk = pk; kem_sk = sk } })

abbrev pub start_epoch : Bytes → Session → Session
start_epoch new_dhr s = record s { pn = s.ns; ns = 0; nr = 0; dhr = new_dhr; have_dhr = true }

-- The ML-KEM secret of a direction, if there is one.
abbrev pub recv_secret : Session → Option Bytes
recv_secret s = if s.kem.have_kss_recv then some s.kem.kss_recv else none

abbrev pub send_secret : Session → Option Bytes
send_secret s = if s.kem.have_kss_send then some s.kem.kss_send else none

-- Learn the peer's ML-KEM key from a full message, and its secret if it carries one.
unfoldable pub receive_kem : Primitives → Option KemHeader → Action (Unit {0})
receive_kem p none s = (ok tt, s)
receive_kem p (some h) s = if s.pq then learn else (ok tt, s)
  where
    s' : Session
    s' = record s { kem = record (s.kem) { kem_r = h.kem_pk; have_kem_r = true } }

    learn : Result (Unit {0}) × Session
    learn =
        if h.have_ct
        then (do
          ss ← attempt (p.kem_decaps s.kem.kem_sk h.kem_ct) Error.crypto
          modify (λ t. record t { kem = record (t.kem) { kss_recv = ss; have_kss_recv = true } }))
            s'
        else (ok tt, s')

-- Derive the receiving chain from the key that the peer announced.
unfoldable pub receive_chain : Primitives → Action (Unit {0})
receive_chain p s =
    (do
      dh_out ← attempt (p.x25519_dh s.dhs_sec s.dhr) Error.crypto
      (rk, ck, nhk) ← attempt (kdf_rk p s.rk dh_out (recv_secret s) false) Error.crypto
      modify (λ t. record t { rk = rk; ckr = ck; have_ckr = true }))
      s

unfoldable pub rotate_dh : Primitives → ℕ → Action (Unit {0})
rotate_dh p draw = do
  (sec, pub_key) ← attempt (p.x25519_keypair draw) Error.crypto
  modify (λ s. record s { dhs_sec = sec; dhs_pub = pub_key })

-- Encapsulate a fresh secret to the peer's key, if it is known.
unfoldable pub encapsulate : Primitives → ℕ → Action (Unit {0})
encapsulate p draw s =
    if s.kem.have_kem_r
    then (do
      (ct, ss) ← attempt (p.kem_encaps draw s.kem.kem_r) Error.crypto
      modify (λ t. record t {
        kem = record (t.kem) { pend_ct = ct; kss_send = ss; have_kss_send = true; have_ct = true };
      }))
        s
    else (ok tt, s)

abbrev pub counts_step : Session → Session
counts_step s = record s { kem = record (s.kem) { send_steps = (s.kem.send_steps + 1) % 2 ^ 32 } }

abbrev pub is_rotation : Session → Bool
is_rotation s = s.kem.send_steps % ratchet_kem_every == 0

abbrev pub set_run : Bool → Session → Session
set_run full s = record s { kem = record (s.kem) { send_full = full; have_ct = false } }

abbrev pub set_advertised : Session → Session
set_advertised s = record s { kem = record (s.kem) { advertised = true } }

-- The cadence: a new ML-KEM key pair on every eighth step, and a full run then or if our key was
-- never advertised.
unfoldable pub send_kem : Primitives → Draws → Action (Unit {0})
unfolding kem_keygen encapsulate
send_kem p draws s =
    if s.pq
    then (do
      modify counts_step
      must_advertise ← gets (λ t. not t.kem.advertised)
      rotate ← gets is_rotation
      if rotate then kem_keygen p draws.kem else pure tt
      modify (set_run (rotate || must_advertise))
      if rotate || must_advertise
          then (do modify set_advertised; encapsulate p draws.encaps)
          else pure tt)
        s
    else (ok tt, s)

unfoldable pub send_chain : Primitives → Action (Unit {0})
send_chain p s =
    (do
      dh_out ← attempt (p.x25519_dh s.dhs_sec s.dhr) Error.crypto
      (rk, ck, nhk) ← attempt (kdf_rk p s.rk dh_out (send_secret s) false) Error.crypto
      modify (λ t. record t { rk = rk; cks = ck; have_cks = true }))
      s

-- `dh_ratchet`; `full` is what a full message carries, and `none` for any other.
unfoldable pub dh_ratchet : Primitives → Draws → Bytes → Option KemHeader → Action (Unit {0})
unfolding receive_kem receive_chain rotate_dh send_kem send_chain
dh_ratchet p draws new_dhr full = do
  modify (start_epoch new_dhr)
  receive_kem p full
  receive_chain p
  rotate_dh p draws.dh
  send_kem p draws
  send_chain p

-- The next header keys become the current ones.
abbrev pub promote : Session → Session
promote s = record s {
  header = record (s.header) {
    hks = s.header.nhks;
    have_hks = s.header.have_nhks;
    hkr = s.header.nhkr;
    have_hkr = s.header.have_nhkr;
  };
}

-- A chain step of `dh_ratchet_he`, which mixes no ML-KEM secret.
unfoldable pub receive_chain_he : Primitives → Action (Unit {0})
receive_chain_he p s =
    (do
      dh_out ← attempt (p.x25519_dh s.dhs_sec s.dhr) Error.crypto
      (rk, ck, nhk) ← attempt (kdf_rk p s.rk dh_out none true) Error.crypto
      modify (λ t. record t {
        rk = rk;
        ckr = ck;
        have_ckr = true;
        header = record (t.header) { nhkr = nhk; have_nhkr = true };
      }))
      s

unfoldable pub send_chain_he : Primitives → Action (Unit {0})
send_chain_he p s =
    (do
      dh_out ← attempt (p.x25519_dh s.dhs_sec s.dhr) Error.crypto
      (rk, ck, nhk) ← attempt (kdf_rk p s.rk dh_out none true) Error.crypto
      modify (λ t. record t {
        rk = rk;
        cks = ck;
        have_cks = true;
        header = record (t.header) { nhks = nhk; have_nhks = true };
      }))
      s

unfoldable pub dh_ratchet_he : Primitives → ℕ → Bytes → Action (Unit {0})
unfolding receive_chain_he rotate_dh send_chain_he
dh_ratchet_he p draw new_dhr = do
  modify (start_epoch new_dhr)
  modify promote
  receive_chain_he p
  rotate_dh p draw
  send_chain_he p
