-- ===== src/Pqxdh/Served.antt =====
-- The bundles that the publishing calls of pqxdh.c make pass the initiator's checks.
use qsafe.Base.{
  ℕ, ◌≡◌, refl, ◌∙◌, sym, ap, subst, Bool, true, false, some, if◌then◌else◌, get_elem?, Bytes,
  Option-cases, inl, inr, arith,
}
use qsafe.Crypto.{Result, ok, Primitives, Signatures, IsSigner}
use qsafe.Crypto.Results.{>>=-eq_ok, ok_inj}
use qsafe.Pqxdh.State.{OneTime, Identity, Bundle, label_spk, label_pqk, label_opk, label_iddh}
use qsafe.Pqxdh.Identity.{
  sign_labeled, opk_signed_bytes, pqxdh_publish_bundle, pqxdh_opk_public, sign_one_time,
}
use qsafe.Pqxdh.Handshake.{verify_bundle}
use qsafe.Pqxdh.Keys.{
  SignedBy, IsIdentity, Publishes, publish-Publishes, with_opk, OpkSigned, verify-SignedBy,
}

-- What a relay can hand out for an identity: the base bundle, or the base bundle with one signed
-- prekey of the pool.
pub data Served (q : Signatures) (id : Identity) : Bundle → Type 0 where
  bare : (draw : ℕ → ℕ) {b : Bundle} → pqxdh_publish_bundle q draw id ≡ ok b → Served q id b
  prekeyed :
      (draw : ℕ → ℕ) (draw' i : ℕ) {b : Bundle} (e : ℕ × Bytes × Bytes)
      → pqxdh_publish_bundle q draw id ≡ ok b
      → pqxdh_opk_public q draw' id i ≡ ok e
      → Served q id (with_opk b e)

-- The prekey of a bundle stands in the pool.
abbrev pub InPool : Identity → Bundle → Type 0
InPool id b =
    (i : ℕ) × (o : OneTime) × (get_elem? id.opk i ≡ some o) × (o.id ≡ b.opk_id) × (o.pk ≡ b.opk_pk)

pub record ServedFacts (q : Signatures) (id : Identity) (b : Bundle) : Type 0 where
  pub publishes : Publishes q id b
  pub opk_signed : OpkSigned q id b
  pub in_pool : b.have_opk ≡ true → InPool id b

opk_public-eq_ok :
    (q : Signatures) (draw : ℕ) (id : Identity) (i : ℕ) {e : ℕ × Bytes × Bytes}
    → pqxdh_opk_public q draw id i ≡ ok e
    → (o : OneTime) × (get_elem? id.opk i ≡ some o)
      × (o.id ≡ e.0)
      × (o.pk ≡ e.1)
      × SignedBy q label_opk (opk_signed_bytes e.0 e.1) id.ik_sig_sk e.2
unfolding pqxdh_opk_public
opk_public-eq_ok q draw id i {e} h = elim (Option-cases (get_elem? id.opk i)) [
  | inl outside ↦ absurd (ground arith)
  | inr (o, inside) ↦
      let run : sign_one_time q draw id.ik_sig_sk o ≡ ok e = rw (inside, pqxdh_opk_public) at h in
      let (sig, signed, end) =
        >>=-eq_ok (sign_labeled q draw label_opk (opk_signed_bytes o.id o.pk) id.ik_sig_sk) _ run in
      subst
        (λ (e : ℕ × Bytes × Bytes).
          (o : OneTime) × (get_elem? id.opk i ≡ some o)
          × (o.id ≡ e.0)
          × (o.pk ≡ e.1)
          × SignedBy q label_opk (opk_signed_bytes e.0 e.1) id.ik_sig_sk e.2)
        (ok_inj end) (o, inside, refl, refl, (draw, signed))
]

pub served_facts :
    (q : Signatures) (id : Identity) {b : Bundle} → Served q id b → ServedFacts q id b
served_facts q id {b} (bare draw made) =
    let (publishes, no_opk) = publish-Publishes q draw id made in
    record {
      publishes = publishes;
      opk_signed =
          subst
            (λ (t : Bool).
              if t
              then SignedBy q label_opk (opk_signed_bytes b.opk_id b.opk_pk) id.ik_sig_sk b.opk_sig
              else Unit {0})
            (sym no_opk) tt;
      in_pool = λ have. absurd (cc (have, no_opk));
    }
served_facts q id (prekeyed draw draw' i e made signed) =
    let (publishes, no_opk) = publish-Publishes q draw id made in
    let (o, inside, same_id, same_pk, opk_signed) = opk_public-eq_ok q draw' id i signed in
    record {
      publishes = record {
        same_sig_pk = publishes.same_sig_pk;
        same_dh_pk = publishes.same_dh_pk;
        same_cert = publishes.same_cert;
        same_spk_pk = publishes.same_spk_pk;
        same_pqk_pk = publishes.same_pqk_pk;
        spk_signed = publishes.spk_signed;
        pqk_signed = publishes.pqk_signed;
      };
      opk_signed = opk_signed;
      in_pool = λ have. (i, o, inside, same_id, same_pk);
    }

-- A check that is made only if there is a prekey.
opk_check :
    {S : Type 0} (have : Bool) {check : Result (Unit {0})}
    → (S → check ≡ ok tt)
    → (if have then S else Unit {0})
    → (if have then check else ok tt) ≡ ok tt
opk_check true passes signed = passes signed
opk_check false passes signed = refl

-- A served bundle passes the initiator's checks: with signatures as documented, whatever the
-- publishing calls made for a well-formed identity, with or without a one-time prekey, is accepted
-- by `verify_bundle`.
pub verify-Served :
    (p : Primitives) (q : Signatures) (id : Identity) {b : Bundle}
    → IsSigner q
    → IsIdentity p q id
    → Served q id b
    → verify_bundle q b ≡ ok tt
unfolding verify_bundle
verify-Served p q id {b} signer good served =
    let f = served_facts q id served in
    let g = f.publishes in
    let pair : q.sig_keypair good.sig_draw ≡ some (b.ik_sig_pk, id.ik_sig_sk) =
      good.sig_pair ∙ ap (λ (k : Bytes). some (k, id.ik_sig_sk)) (sym g.same_sig_pk) in
    let cert : SignedBy q label_iddh b.ik_dh_pk id.ik_sig_sk b.ik_dh_cert = (
      good.cert.0,
      ap (λ (m : Bytes). sign_labeled q good.cert.0 label_iddh m id.ik_sig_sk) g.same_dh_pk
          ∙ good.cert.1
          ∙ ap ok (sym g.same_cert),
    ) in
    let passes = verify-SignedBy q good.sig_draw b.ik_sig_pk id.ik_sig_sk in
    let spk = passes label_spk b.spk_pk b.spk_sig signer pair g.spk_signed in
    let pqk = passes label_pqk b.pqk_pk b.pqk_sig signer pair g.pqk_signed in
    let iddh = passes label_iddh b.ik_dh_pk b.ik_dh_cert signer pair cert in
    rw (spk, pqk, iddh)
      (opk_check b.have_opk
        (λ signed.
          passes label_opk (opk_signed_bytes b.opk_id b.opk_pk) b.opk_sig signer pair signed)
        f.opk_signed)
