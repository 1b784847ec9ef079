-- ===== src/Pqxdh/Agreement.antt =====
-- Both sides of the handshake of pqxdh.c reach one session secret.
use qsafe.Base.{
  ℕ, zero, suc, ◌-◌, ◌%◌, ◌^◌, ◌≡◌, ◌≢◌, refl, ◌∙◌, not, sym, ap, subst, Bool, Bool-cases, true,
  Option, some, List, [], ◌∷◌, ◌++◌, if◌then◌else◌, ltb, lt→ltb, ==_refl, get_elem?, All, Bytes,
  bytes_eq, bytes_eq_refl, inl, inr, some_inj, arith,
}
use qsafe.Crypto.{Error, Result, ok, Primitives, Signatures, IsSigner, Agrees, Decapsulates}
use qsafe.Crypto.Results.{◌>>=◌, need, refuse_if, >>=-eq_ok, need-eq_ok, ok_inj}
use qsafe.Ratchet.State.{Session}
use qsafe.Pqxdh.State.{OneTime, Identity, Bundle, Initial, label_iddh}
use qsafe.Pqxdh.Identity.{verify_labeled}
use qsafe.Pqxdh.Handshake.{
  dh, opk_leg, initiator_legs, initiator_session, responder_session, opening, opening_tag,
  derive_sk, find_opk, responder_opk_leg, responder_legs, check_opening, verify_bundle,
  pqxdh_initiator, pqxdh_responder, opening_mac_bytes,
}
use qsafe.Pqxdh.Keys.{DhPair, IsOneTime, IsIdentity, verify-SignedBy}
use qsafe.Pqxdh.Served.{Served, InPool, served_facts}

-- No two prekeys of a pool have the same id.
abbrev pub DistinctIds : List OneTime → Type 0
DistinctIds [] = Unit
DistinctIds (o ∷ l) = All (λ (o' : OneTime). o.id ≢ o'.id) l × DistinctIds l

pub All-get_elem? :
    {A : Type 0} (P : A → Type 0) (l : List A) (i : ℕ) {a : A}
    → All P l
    → get_elem? l i ≡ some a
    → P a
All-get_elem? P [] i h e = cc
All-get_elem? P (x ∷ l) zero h e = subst P (some_inj e) h.0
All-get_elem? P (x ∷ l) (suc i) h e = All-get_elem? P l i h.1 e

-- The search finds a prekey of the pool by its id.
find_opk-get_elem? :
    (l : List OneTime) (i : ℕ) {o : OneTime}
    → DistinctIds l
    → get_elem? l i ≡ some o
    → find_opk l o.id ≡ some o
find_opk-get_elem? [] i d e = cc
find_opk-get_elem? (x ∷ l) zero {o} d e =
    subst (λ (y : OneTime). find_opk (x ∷ l) y.id ≡ some y) (some_inj e) (rw (==_refl x.id))
find_opk-get_elem? (x ∷ l) (suc i) {o} d e =
    let differs : x.id ≢ o.id = All-get_elem? (λ (o' : OneTime). x.id ≢ o'.id) l i d.0 e in
    ground (arith, find_opk-get_elem? l i d.1 e)

-- One leg, from both ends.
dh-swap :
    (p : Primitives) (sec pub_key sec' pub_key' : Bytes) {out : Bytes}
    → Agrees p
    → DhPair p sec pub_key
    → DhPair p sec' pub_key'
    → dh p sec pub_key' ≡ ok out
    → dh p sec' pub_key ≡ ok out
dh-swap p sec pub_key sec' pub_key' agrees (d, own) (d', own') h =
    ap (λ (o : Option Bytes). need o Error.crypto)
      (sym (agrees d d' sec pub_key sec' pub_key' own own'))
    ∙ h

module _ (p : Primitives) (q : Signatures) (agrees : Agrees p) (b : Identity)
    (good : IsIdentity p q b) (distinct : DistinctIds b.opk) where
  -- The prekey leg.
  opk_leg-swap :
      (ek_sk ek_pk : Bytes) (bundle : Bundle) (msg : Initial) {out : Bytes}
      → DhPair p ek_sk ek_pk
      → msg.ek_pk ≡ ek_pk
      → msg.opk_id ≡ (if bundle.have_opk then bundle.opk_id else 2 ^ 64 - 1)
      → (bundle.have_opk ≡ true → InPool b bundle)
      → opk_leg p ek_sk bundle ≡ ok out
      → responder_opk_leg p b msg ≡ ok out
  opk_leg-swap ek_sk ek_pk bundle msg {out} pair same_ek same_id in_pool h =
      elim (Bool-cases bundle.have_opk) [
        | inl have ↦
            let (i, o, inside, id_is, pk_is) = in_pool have in
            let (o_pair, small) = All-get_elem? (IsOneTime p) b.opk i good.pool inside in
            let named : msg.opk_id ≡ o.id = same_id ∙ rw have (sym id_is) in
            let found : find_opk b.opk (o.id % 2 ^ 32) ≡ some o =
              ap (find_opk b.opk) (omega arith) ∙ find_opk-get_elem? b.opk i distinct inside in
            let leg : dh p ek_sk o.pk ≡ ok out = ap (dh p ek_sk) pk_is ∙ (rw have at h) in
            let swapped : dh p o.sk ek_pk ≡ ok out =
              dh-swap p ek_sk ek_pk o.sk o.pk agrees pair o_pair leg in
            let below : ltb o.id (2 ^ 63) ≡ true = lt→ltb o.id (2 ^ 63) (omega arith) in
            rw (named, same_ek) (rw (below, found) swapped)
        | inr no_opk ↦
            let named : msg.opk_id ≡ 2 ^ 64 - 1 = same_id ∙ rw no_opk refl in
            rw named (rw no_opk at h)
      ]

  -- All legs.
  legs-swap :
      (self : Identity) (ek_sk ek_pk : Bytes) (bundle : Bundle) (msg : Initial) {out : Bytes}
      → DhPair p self.ik_dh_sk self.ik_dh_pk
      → DhPair p ek_sk ek_pk
      → bundle.spk_pk ≡ b.spk_pk
      → bundle.ik_dh_pk ≡ b.ik_dh_pk
      → (bundle.have_opk ≡ true → InPool b bundle)
      → msg.ik_dh_pk ≡ self.ik_dh_pk
      → msg.ek_pk ≡ ek_pk
      → msg.opk_id ≡ (if bundle.have_opk then bundle.opk_id else 2 ^ 64 - 1)
      → initiator_legs p self ek_sk bundle ≡ ok out
      → responder_legs p b msg ≡ ok out
  unfolding initiator_legs responder_legs
  legs-swap self ek_sk ek_pk bundle msg ik_pair ek_pair same_spk same_ik in_pool msg_ik msg_ek
        msg_id h =
      let (out₁, made₁, h₁) = >>=-eq_ok (dh p self.ik_dh_sk bundle.spk_pk) _ h in
      let (out₂, made₂, h₂) = >>=-eq_ok (dh p ek_sk bundle.ik_dh_pk) _ h₁ in
      let (out₃, made₃, h₃) = >>=-eq_ok (dh p ek_sk bundle.spk_pk) _ h₂ in
      let (out₄, made₄, h₄) = >>=-eq_ok (opk_leg p ek_sk bundle) _ h₃ in
      let leg₁ : dh p b.spk_sk msg.ik_dh_pk ≡ ok out₁ =
        ap (dh p b.spk_sk) msg_ik
        ∙ dh-swap p self.ik_dh_sk self.ik_dh_pk b.spk_sk b.spk_pk agrees ik_pair good.spk_pair
            (ap (dh p self.ik_dh_sk) (sym same_spk) ∙ made₁) in
      let leg₂ : dh p b.ik_dh_sk msg.ek_pk ≡ ok out₂ =
        ap (dh p b.ik_dh_sk) msg_ek
        ∙ dh-swap p ek_sk ek_pk b.ik_dh_sk b.ik_dh_pk agrees ek_pair good.dh_pair
            (ap (dh p ek_sk) (sym same_ik) ∙ made₂) in
      let leg₃ : dh p b.spk_sk msg.ek_pk ≡ ok out₃ =
        ap (dh p b.spk_sk) msg_ek
        ∙ dh-swap p ek_sk ek_pk b.spk_sk b.spk_pk agrees ek_pair good.spk_pair
            (ap (dh p ek_sk) (sym same_spk) ∙ made₃) in
      let leg₄ = opk_leg-swap ek_sk ek_pk bundle msg ek_pair msg_ek msg_id in_pool made₄ in
      rw (leg₁, leg₂, leg₃, leg₄) h₄

check_opening-own :
    (p : Primitives) (sk : Bytes) (m : Initial) {tag : Bytes}
    → opening_tag p sk m ≡ ok tag
    → check_opening p sk (record m { mac = tag }) ≡ ok tt
unfolding check_opening opening_tag opening_mac_bytes
check_opening-own p sk m {tag} made =
    let tag_check : Bytes → Result (Unit {0}) =
      λ want. refuse_if (not (bytes_eq want tag)) Error.integrity in
    ap (λ (r : Result Bytes). r >>= tag_check) made
    ∙ ap (λ (t : Bool). refuse_if (not t) Error.integrity) (bytes_eq_refl tag)

-- What one successful call of `pqxdh_initiator` made.
pub record Opened (p : Primitives) (draw : ℕ → ℕ) (self : Identity) (peer : Bundle) (pq : Bool)
    (msg : Initial) (s : Session) : Type 0 where
  pub ek_sk : Bytes
  pub ek_pk : Bytes
  pub legs : Bytes
  pub pq_ct : Bytes
  pub pq_ss : Bytes
  pub sk : Bytes
  pub tag : Bytes
  pub ek_made : need (p.x25519_keypair (draw 0)) Error.crypto ≡ ok (ek_sk, ek_pk)
  pub legs_made : initiator_legs p self ek_sk peer ≡ ok legs
  pub sealed : need (p.kem_encaps (draw 1) peer.pqk_pk) Error.crypto ≡ ok (pq_ct, pq_ss)
  pub derived : derive_sk p (legs ++ pq_ss) ≡ ok sk
  pub started : initiator_session p draw pq sk peer.spk_pk ≡ ok s
  pub tagged : opening_tag p sk (opening self peer ek_pk pq_ct pq) ≡ ok tag
  pub msg_is : msg ≡ record (opening self peer ek_pk pq_ct pq) { mac = tag }

initiator-Opened :
    (p : Primitives) (q : Signatures) (draw : ℕ → ℕ) (self : Identity) (peer : Bundle) (pq : Bool)
    {msg : Initial} {s : Session}
    → pqxdh_initiator p q draw self peer pq ≡ ok (msg, s)
    → Opened p draw self peer pq msg s
unfolding pqxdh_initiator
initiator-Opened p q draw self peer pq {msg} {s} h =
    let (_, verified, h₁) = >>=-eq_ok (verify_bundle q peer) _ h in
    let (ek, ek_made, h₂) = >>=-eq_ok (need (p.x25519_keypair (draw 0)) Error.crypto) _ h₁ in
    let (legs, legs_made, h₃) = >>=-eq_ok (initiator_legs p self ek.0 peer) _ h₂ in
    let (enc, sealed, h₄) =
      >>=-eq_ok (need (p.kem_encaps (draw 1) peer.pqk_pk) Error.crypto) _ h₃ in
    let (sk, derived, h₅) = >>=-eq_ok (derive_sk p (legs ++ enc.1)) _ h₄ in
    let (session, started, h₆) = >>=-eq_ok (initiator_session p draw pq sk peer.spk_pk) _ h₅ in
    let (tag, tagged, end) = >>=-eq_ok (opening_tag p sk (opening self peer ek.1 enc.0 pq)) _ h₆ in
    record {
      ek_sk = ek.0;
      ek_pk = ek.1;
      legs = legs;
      pq_ct = enc.0;
      pq_ss = enc.1;
      sk = sk;
      tag = tag;
      ek_made = ek_made;
      legs_made = legs_made;
      sealed = sealed;
      derived = derived;
      started = started ∙ λ i. ok ((ok_inj end i).1);
      tagged = tagged;
      msg_is = λ i. (sym (ok_inj end) i).0;
    }

-- The responder accepts what the steps of the initiator made.
responder-run :
    (p : Primitives) (q : Signatures) (draw : ℕ) (b : Identity) (msg : Initial)
    {legs pq_ss sk : Bytes}
    → verify_labeled q label_iddh msg.ik_dh_pk msg.ik_dh_cert msg.ik_sig_pk ≡ ok tt
    → responder_legs p b msg ≡ ok legs
    → p.kem_decaps msg.pq_ct b.pqk_sk ≡ some pq_ss
    → derive_sk p (legs ++ pq_ss) ≡ ok sk
    → check_opening p sk msg ≡ ok tt
    → pqxdh_responder p q draw b msg ≡ responder_session p draw msg.pq sk b
unfolding pqxdh_responder
responder-run p q draw b msg cert legs opened derived accepted =
    rw (cert, legs, opened, derived, accepted) refl

-- Both sides agree. Let the responder's and the initiator's identities be well formed and the ids in
-- the responder's pool distinct, and let the initiator use a bundle that was served for the
-- responder, with or without a one-time prekey, over signatures, X25519 and ML-KEM as documented.
-- When `pqxdh_initiator` succeeds, there is one session secret from which both sessions start: the
-- initiator's is the one established on it, and `pqxdh_responder` on the opening message gives
-- exactly what the session establishment of the responder gives on it, in the same ratchet mode.
pub responder-initiator :
    (p : Primitives) (q : Signatures) (draw : ℕ → ℕ) (draw' : ℕ) (a b : Identity) (bundle : Bundle)
    (pq : Bool) (msg : Initial) (s : Session)
    → IsSigner q
    → Agrees p
    → Decapsulates p
    → IsIdentity p q a
    → IsIdentity p q b
    → DistinctIds b.opk
    → Served q b bundle
    → pqxdh_initiator p q draw a bundle pq ≡ ok (msg, s)
    → (sk : Bytes) × (initiator_session p draw pq sk b.spk_pk ≡ ok s)
      × (pqxdh_responder p q draw' b msg ≡ responder_session p draw' pq sk b)
responder-initiator p q draw draw' a b bundle pq msg s signer agrees decaps good_a good_b distinct
      served h =
    let f = served_facts q b served in
    let g = f.publishes in
    let o = initiator-Opened p q draw a bundle pq h in
    let sent = record (opening a bundle o.ek_pk o.pq_ct pq) { mac = o.tag } in
    let ek_pair : DhPair p o.ek_sk o.ek_pk =
      (draw 0, need-eq_ok (p.x25519_keypair (draw 0)) Error.crypto o.ek_made) in
    let ct_pair : p.kem_encaps (draw 1) b.pqk_pk ≡ some (o.pq_ct, o.pq_ss) =
      ap (p.kem_encaps (draw 1)) (sym g.same_pqk_pk)
      ∙ need-eq_ok (p.kem_encaps (draw 1) bundle.pqk_pk) Error.crypto o.sealed in
    let cert =
      verify-SignedBy q good_a.sig_draw a.ik_sig_pk a.ik_sig_sk label_iddh a.ik_dh_pk a.ik_dh_cert
        signer good_a.sig_pair good_a.cert in
    let same_legs =
      legs-swap p q agrees b good_b distinct a o.ek_sk o.ek_pk bundle sent good_a.dh_pair ek_pair
        g.same_spk_pk g.same_dh_pk f.in_pool refl refl refl o.legs_made in
    let opened : p.kem_decaps o.pq_ct b.pqk_sk ≡ some o.pq_ss =
      decaps good_b.kem_draw (draw 1) b.pqk_pk b.pqk_sk o.pq_ct o.pq_ss good_b.kem_pair ct_pair in
    let run =
      responder-run p q draw' b sent cert same_legs opened o.derived
        (check_opening-own p o.sk (opening a bundle o.ek_pk o.pq_ct pq) o.tagged) in
    (
      o.sk,
      ap (initiator_session p draw pq o.sk) (sym g.same_spk_pk) ∙ o.started,
      ap (pqxdh_responder p q draw' b) o.msg_is ∙ run,
    )
