-- ===== src/Pqxdh/Identity.antt =====
-- Identities and what they publish, in pqxdh.c. The sizes that liboqs reports are taken to be those
-- of ML-KEM-1024, which the code checks. The draws of randomness are numbered in the code's order.
use qsafe.Base.{
  ℕ, zero, suc, ◌+◌, ◌*◌, false, none, some, List, [], ◌∷◌, ◌++◌, get_elem?, replicate, Bytes,
  get_u32, put_u32,
}
use qsafe.Crypto.{
  Error, Result, ok, err, Primitives, Envelope, Layout, seal_raw, open_raw, Signatures,
  sig_keypair_raw, sig_sign_buf, sig_verify_buf, x25519_key_size,
}
use qsafe.Crypto.Results.{◌>>=◌, need}
use qsafe.Pqxdh.State.{
  OneTime, Identity, Bundle, label_spk, label_pqk, label_opk, label_iddh, pqxdh_opk_pool,
}

-- `sign_labeled` and `verify_labeled`: a label stands before what is signed.
unfoldable pub sign_labeled : Signatures → ℕ → Bytes → Bytes → Bytes → Result Bytes
unfolding sig_sign_buf
sign_labeled q draw label msg sk = sig_sign_buf q draw (label ++ msg) sk

unfoldable pub verify_labeled : Signatures → Bytes → Bytes → Bytes → Bytes → Result (Unit {0})
unfolding sig_verify_buf
verify_labeled q label msg sig pk = sig_verify_buf q (label ++ msg) sig pk

-- `opk_signed_bytes`
abbrev pub opk_signed_bytes : ℕ → Bytes → Bytes
opk_signed_bytes opk_id opk_pk = put_u32 opk_id ++ opk_pk

-- One round of the loop that fills the pool.
abbrev pub new_one_time : Primitives → (ℕ → ℕ) → ℕ → Result OneTime
new_one_time p draw i = do
  (sk, pk) ← need (p.x25519_keypair (draw (4 + 2 * i))) Error.crypto
  idb ← need (p.rand_bytes (draw (5 + 2 * i)) 4) Error.crypto
  ok (record { id = get_u32 idb; pk = pk; sk = sk })

unfoldable pub opk_loop : Primitives → (ℕ → ℕ) → ℕ → ℕ → Result (List OneTime)
opk_loop p draw zero i = ok []
opk_loop p draw (suc rounds) i = do
  o ← new_one_time p draw i
  rest ← opk_loop p draw rounds (i + 1)
  ok (o ∷ rest)

-- `pqxdh_identity_generate`
unfoldable pub pqxdh_identity_generate : Primitives → Signatures → (ℕ → ℕ) → Result Identity
unfolding sig_keypair_raw
pqxdh_identity_generate p q draw = do
  (ik_sig_pk, ik_sig_sk) ← sig_keypair_raw q (draw 0)
  (ik_dh_sk, ik_dh_pk) ← need (p.x25519_keypair (draw 1)) Error.crypto
  cert ← sign_labeled q (draw 2) label_iddh ik_dh_pk ik_sig_sk
  (spk_sk, spk_pk) ← need (p.x25519_keypair (draw 3)) Error.crypto
  opk ← opk_loop p draw pqxdh_opk_pool 0
  (pqk_pk, pqk_sk) ← need (p.kem_keypair (draw (4 + 2 * pqxdh_opk_pool))) Error.crypto
  ok (record {
    ik_sig_pk = ik_sig_pk;
    ik_sig_sk = ik_sig_sk;
    ik_dh_pk = ik_dh_pk;
    ik_dh_sk = ik_dh_sk;
    spk_pk = spk_pk;
    spk_sk = spk_sk;
    pqk_pk = pqk_pk;
    pqk_sk = pqk_sk;
    ik_dh_cert = cert;
    opk = opk;
  })

-- `pqxdh_publish_bundle`: the base bundle, without a one-time prekey.
unfoldable pub pqxdh_publish_bundle : Signatures → (ℕ → ℕ) → Identity → Result Bundle
pqxdh_publish_bundle q draw id = do
  spk_sig ← sign_labeled q (draw 0) label_spk id.spk_pk id.ik_sig_sk
  pqk_sig ← sign_labeled q (draw 1) label_pqk id.pqk_pk id.ik_sig_sk
  ok (record {
    ik_sig_pk = id.ik_sig_pk;
    ik_dh_pk = id.ik_dh_pk;
    ik_dh_cert = id.ik_dh_cert;
    spk_pk = id.spk_pk;
    spk_sig = spk_sig;
    pqk_pk = id.pqk_pk;
    pqk_sig = pqk_sig;
    have_opk = false;
    opk_id = 0;
    opk_pk = replicate x25519_key_size 0;
    opk_sig = [];
  })

-- The signed entry for one prekey of the pool: its id, its public key and the signature.
abbrev pub sign_one_time : Signatures → ℕ → Bytes → OneTime → Result (ℕ × Bytes × Bytes)
sign_one_time q draw sk o = do
  sig ← sign_labeled q draw label_opk (opk_signed_bytes o.id o.pk) sk
  ok (o.id, o.pk, sig)

-- `pqxdh_opk_public`
unfoldable pub pqxdh_opk_public : Signatures → ℕ → Identity → ℕ → Result (ℕ × Bytes × Bytes)
pqxdh_opk_public q draw id index = elim (get_elem? id.opk index) [
  | none ↦ err Error.invalid_input
  | some o ↦ sign_one_time q draw id.ik_sig_sk o
]

-- `pqxdh_identity_serialize` and `pqxdh_identity_deserialize`: the raw struct under the passphrase.
unfoldable pub pqxdh_identity_serialize :
    Envelope → Layout Identity → ℕ → Bytes → Identity → Result Bytes
unfolding seal_raw
pqxdh_identity_serialize = seal_raw

unfoldable pub pqxdh_identity_deserialize :
    Envelope → Layout Identity → Bytes → Bytes → Result Identity
unfolding open_raw
pqxdh_identity_deserialize = open_raw
