-- ===== src/Pqxdh/Keys.antt =====
-- What pqxdh_identity_generate of pqxdh.c gives, and what a published bundle proves.
use qsafe.Base.{
  ℕ, zero, suc, ◌+◌, ◌*◌, ◌≡◌, refl, ap, subst, true, false, some, List, ◌++◌, if◌then◌else◌,
  length, All, Bytes, IsU32, get_u32-lt, arith,
}
use qsafe.Crypto.{FillsBytes, Error, ok, Primitives, Signatures, IsSigner, sig_keypair_raw}
use qsafe.Crypto.Results.{need, >>=-eq_ok, need-eq_ok, ok_inj}
use qsafe.Pqxdh.State.{
  OneTime, Identity, Bundle, label_spk, label_pqk, label_opk, label_iddh, pqxdh_opk_pool,
}
use qsafe.Pqxdh.Identity.{
  sign_labeled, verify_labeled, opk_signed_bytes, new_one_time, opk_loop, pqxdh_identity_generate,
  pqxdh_publish_bundle,
}

-- A pair that the X25519 key generation gives for some draw.
abbrev pub DhPair : Primitives → Bytes → Bytes → Type 0
DhPair p sec pub_key = (draw : ℕ) × (p.x25519_keypair draw ≡ some (sec, pub_key))

-- A signature under a label that the key pair's secret half made.
abbrev pub SignedBy : Signatures → Bytes → Bytes → Bytes → Bytes → Type 0
SignedBy q label msg sk sig = (draw : ℕ) × (sign_labeled q draw label msg sk ≡ ok sig)

-- One prekey of a pool: its secret key belongs to its public key, and its id has 32 bits.
abbrev pub IsOneTime : Primitives → OneTime → Type 0
IsOneTime p o = DhPair p o.sk o.pk × IsU32 o.id

-- A well-formed identity: each secret key belongs to its public key, the certificate on the identity
-- DH key is signed by the signing key.
pub record IsIdentity (p : Primitives) (q : Signatures) (id : Identity) : Type 0 where
  pub sig_draw : ℕ
  pub sig_pair : q.sig_keypair sig_draw ≡ some (id.ik_sig_pk, id.ik_sig_sk)
  pub dh_pair : DhPair p id.ik_dh_sk id.ik_dh_pk
  pub cert : SignedBy q label_iddh id.ik_dh_pk id.ik_sig_sk id.ik_dh_cert
  pub spk_pair : DhPair p id.spk_sk id.spk_pk
  pub kem_draw : ℕ
  pub kem_pair : p.kem_keypair kem_draw ≡ some (id.pqk_pk, id.pqk_sk)
  pub pool : All (IsOneTime p) id.opk

new_one_time-IsOneTime :
    (p : Primitives) (draw : ℕ → ℕ) (i : ℕ) {o : OneTime}
    → FillsBytes p
    → new_one_time p draw i ≡ ok o
    → IsOneTime p o
new_one_time-IsOneTime p draw i {o} random h =
    let (keys, made, rest) =
      >>=-eq_ok (need (p.x25519_keypair (draw (4 + 2 * i))) Error.crypto) _ h in
    let (idb, drawn, end) =
      >>=-eq_ok (need (p.rand_bytes (draw (5 + 2 * i)) 4) Error.crypto) _ rest in
    let filled = need-eq_ok (p.rand_bytes (draw (5 + 2 * i)) 4) Error.crypto drawn in
    subst (IsOneTime p) (ok_inj end) (
      (draw (4 + 2 * i), need-eq_ok (p.x25519_keypair (draw (4 + 2 * i))) Error.crypto made),
      get_u32-lt idb (random (draw (5 + 2 * i)) 4 idb filled),
    )

-- A pool of prekeys as long as the rounds that filled it.
abbrev Pool : Primitives → ℕ → List OneTime → Type 0
Pool p n l = All (IsOneTime p) l × (length l ≡ n)

opk_loop-Pool :
    (p : Primitives) (draw : ℕ → ℕ) (rounds i : ℕ) {l : List OneTime}
    → FillsBytes p
    → opk_loop p draw rounds i ≡ ok l
    → Pool p rounds l
unfolding opk_loop
opk_loop-Pool p draw zero i {l} random h = subst (Pool p 0) (ok_inj h) (tt, refl)
opk_loop-Pool p draw (suc rounds) i {l} random h =
    let (o, made, rest) = >>=-eq_ok (new_one_time p draw i) _ h in
    let (l', more, end) = >>=-eq_ok (opk_loop p draw rounds (i + 1)) _ rest in
    let ih = opk_loop-Pool p draw rounds (i + 1) random more in
    subst (Pool p (suc rounds)) (ok_inj end)
      ((new_one_time-IsOneTime p draw i random made, ih.0), ap suc ih.1)

sig_keypair-eq_ok :
    (q : Signatures) (draw : ℕ) {keys : Bytes × Bytes}
    → sig_keypair_raw q draw ≡ ok keys
    → q.sig_keypair draw ≡ some keys
unfolding sig_keypair_raw
sig_keypair-eq_ok q draw h = ground arith

-- A generated identity is well formed: when `pqxdh_identity_generate` succeeds, each secret key
-- belongs to its public key, the certificate on the identity DH key is signed under its label by
-- the signing key, the pool holds 64 prekeys, and their ids have 32 bits.
pub generate-IsIdentity :
    (p : Primitives) (q : Signatures) (draw : ℕ → ℕ) {id : Identity}
    → FillsBytes p
    → pqxdh_identity_generate p q draw ≡ ok id
    → IsIdentity p q id × (length id.opk ≡ pqxdh_opk_pool)
unfolding pqxdh_identity_generate
generate-IsIdentity p q draw {id} random h =
    let (sig, sig_made, h₁) = >>=-eq_ok (sig_keypair_raw q (draw 0)) _ h in
    let (dh, dh_made, h₂) = >>=-eq_ok (need (p.x25519_keypair (draw 1)) Error.crypto) _ h₁ in
    let (cert, signed, h₃) = >>=-eq_ok (sign_labeled q (draw 2) label_iddh dh.1 sig.1) _ h₂ in
    let (spk, spk_made, h₄) = >>=-eq_ok (need (p.x25519_keypair (draw 3)) Error.crypto) _ h₃ in
    let (opk, filled, h₅) = >>=-eq_ok (opk_loop p draw pqxdh_opk_pool 0) _ h₄ in
    let (kem, kem_made, h₆) =
      >>=-eq_ok (need (p.kem_keypair (draw (4 + 2 * pqxdh_opk_pool))) Error.crypto) _ h₅ in
    let filled_pool = opk_loop-Pool p draw pqxdh_opk_pool 0 random filled in
    subst (λ (id : Identity). IsIdentity p q id × (length id.opk ≡ pqxdh_opk_pool)) (ok_inj h₆)
      (
        record {
          sig_draw = draw 0;
          sig_pair = sig_keypair-eq_ok q (draw 0) sig_made;
          dh_pair = (draw 1, need-eq_ok (p.x25519_keypair (draw 1)) Error.crypto dh_made);
          cert = (draw 2, signed);
          spk_pair = (draw 3, need-eq_ok (p.x25519_keypair (draw 3)) Error.crypto spk_made);
          kem_draw = draw (4 + 2 * pqxdh_opk_pool);
          kem_pair =
              need-eq_ok (p.kem_keypair (draw (4 + 2 * pqxdh_opk_pool))) Error.crypto kem_made;
          pool = filled_pool.0;
        },
        filled_pool.1,
      )

-- What the secret half signed under a label verifies under the public half and that label.
pub verify-SignedBy :
    (q : Signatures) (draw : ℕ) (pk sk label msg sig : Bytes)
    → IsSigner q
    → q.sig_keypair draw ≡ some (pk, sk)
    → SignedBy q label msg sk sig
    → verify_labeled q label msg sig pk ≡ ok tt
unfolding sign_labeled verify_labeled
verify-SignedBy q draw pk sk label msg sig signer pair (draw', signed) =
    ground (arith, signer.verify_sign draw draw' pk sk (label ++ msg) sig pair)

-- What a bundle holds of an identity: its public keys, and signatures that its signing key made.
pub record Publishes (q : Signatures) (id : Identity) (b : Bundle) : Type 0 where
  pub same_sig_pk : b.ik_sig_pk ≡ id.ik_sig_pk
  pub same_dh_pk : b.ik_dh_pk ≡ id.ik_dh_pk
  pub same_cert : b.ik_dh_cert ≡ id.ik_dh_cert
  pub same_spk_pk : b.spk_pk ≡ id.spk_pk
  pub same_pqk_pk : b.pqk_pk ≡ id.pqk_pk
  pub spk_signed : SignedBy q label_spk b.spk_pk id.ik_sig_sk b.spk_sig
  pub pqk_signed : SignedBy q label_pqk b.pqk_pk id.ik_sig_sk b.pqk_sig

pub publish-Publishes :
    (q : Signatures) (draw : ℕ → ℕ) (id : Identity) {b : Bundle}
    → pqxdh_publish_bundle q draw id ≡ ok b
    → Publishes q id b × (b.have_opk ≡ false)
unfolding pqxdh_publish_bundle
publish-Publishes q draw id {b} h =
    let (spk_sig, spk_signed, h₁) =
      >>=-eq_ok (sign_labeled q (draw 0) label_spk id.spk_pk id.ik_sig_sk) _ h in
    let (pqk_sig, pqk_signed, h₂) =
      >>=-eq_ok (sign_labeled q (draw 1) label_pqk id.pqk_pk id.ik_sig_sk) _ h₁ in
    subst (λ (b : Bundle). Publishes q id b × (b.have_opk ≡ false)) (ok_inj h₂)
      (
        record {
          same_sig_pk = refl;
          same_dh_pk = refl;
          same_cert = refl;
          same_spk_pk = refl;
          same_pqk_pk = refl;
          spk_signed = (draw 0, spk_signed);
          pqk_signed = (draw 1, pqk_signed);
        },
        refl,
      )

-- The relay hands out a bundle with one signed prekey.
abbrev pub with_opk : Bundle → ℕ × Bytes × Bytes → Bundle
with_opk b (id, pk, sig) = record b { have_opk = true; opk_id = id; opk_pk = pk; opk_sig = sig }

-- The prekey part of a bundle: none, or one that the identity's signing key signed.
abbrev pub OpkSigned : Signatures → Identity → Bundle → Type 0
OpkSigned q id b =
    if b.have_opk
    then SignedBy q label_opk (opk_signed_bytes b.opk_id b.opk_pk) id.ik_sig_sk b.opk_sig
    else Unit {0}
