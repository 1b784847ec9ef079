-- ===== src/Pqxdh/Binding.antt =====
-- What the checks of pqxdh.c establish: the signatures of a bundle, and the tag of an opening message.
use qsafe.Base.{
  put_u64, put_u64_inj, length-put_u64, ℕ, ◌^◌, ◌<◌, ◌≡◌, ◌≢◌, ◌⊎◌, inl, inr, refl, ◌∙◌, sym, ap,
  ap₂, Bool, Bool-cases, not, true, false, some, ◌++◌, if◌then◌else◌, length, Bytes, bytes_eq,
  bytes_eq_refl, bytes_eq→eq, some_inj, append_inj_left, arith,
}
use qsafe.Crypto.{Error, Result, ok, Primitives, Signatures, qsafe_sig_pub_size}
use qsafe.Crypto.Results.{◌>>=◌, need, >>=-eq_ok, need-eq_ok, refuse_if-eq_ok, ok_inj}
use qsafe.Ratchet.State.{Session}
use qsafe.Pqxdh.State.{Identity, Bundle, Initial, label_spk, label_pqk, label_opk, label_iddh}
use qsafe.Pqxdh.Identity.{verify_labeled, opk_signed_bytes}
use qsafe.Pqxdh.Handshake.{
  pq_byte, opening_mac_bytes, derive_open_mac_key, verify_bundle, derive_sk, responder_legs,
  check_opening, pqxdh_initiator, pqxdh_responder,
}

-- The sizes of the fields under the tag.
pub record OpeningFits (m : Initial) : Type 0 where
  pub sig_pk_size : length m.ik_sig_pk ≡ qsafe_sig_pub_size
  pub dh_size : length m.ik_dh_pk ≡ 32
  pub ek_size : length m.ek_pk ≡ 32
  pub ct_size : length m.pq_ct ≡ 1568
  pub id_small : m.opk_id < 2 ^ 64

pq_byte_inj : (a b : Bool) → pq_byte a ≡ pq_byte b → a ≡ b
pq_byte_inj true true h = refl
pq_byte_inj true false h = absurd (omega arith)
pq_byte_inj false true h = absurd (omega arith)
pq_byte_inj false false h = refl

-- The fields that the tag covers are the same in two openings.
pub record SameOpening (m m' : Initial) : Type 0 where
  pub same_sig_pk : m.ik_sig_pk ≡ m'.ik_sig_pk
  pub same_dh_pk : m.ik_dh_pk ≡ m'.ik_dh_pk
  pub same_ek : m.ek_pk ≡ m'.ek_pk
  pub same_ct : m.pq_ct ≡ m'.pq_ct
  pub same_id : m.opk_id ≡ m'.opk_id
  pub same_pq : m.pq ≡ m'.pq

-- The tagged bytes determine each field.
pub opening_mac_bytes_inj :
    (m m' : Initial)
    → OpeningFits m
    → OpeningFits m'
    → opening_mac_bytes m ≡ opening_mac_bytes m'
    → SameOpening m m'
unfolding opening_mac_bytes
opening_mac_bytes_inj m m' f f' h =
    let (sig, h₁) =
      append_inj_left m.ik_sig_pk m'.ik_sig_pk (f.sig_pk_size ∙ sym f'.sig_pk_size) h in
    let (dh, h₂) = append_inj_left m.ik_dh_pk m'.ik_dh_pk (f.dh_size ∙ sym f'.dh_size) h₁ in
    let (ek, h₃) = append_inj_left m.ek_pk m'.ek_pk (f.ek_size ∙ sym f'.ek_size) h₂ in
    let (ct, h₄) = append_inj_left m.pq_ct m'.pq_ct (f.ct_size ∙ sym f'.ct_size) h₃ in
    let (id, h₅) =
      append_inj_left (put_u64 m.opk_id) (put_u64 m'.opk_id)
        (length-put_u64 m.opk_id ∙ sym (length-put_u64 m'.opk_id)) h₄ in
    record {
      same_sig_pk = sig;
      same_dh_pk = dh;
      same_ek = ek;
      same_ct = ct;
      same_id = put_u64_inj m.opk_id m'.opk_id f.id_small f'.id_small id;
      same_pq = pq_byte_inj m.pq m'.pq (cc);
    }

-- Two different openings with one tag under one key: a collision of HMAC-SHA256.
abbrev pub Collides : Primitives → Initial → Initial → Type 0
Collides p m m' =
    (key : Bytes) × (tag : Bytes) × (p.hmac key (opening_mac_bytes m) ≡ some tag)
    × (p.hmac key (opening_mac_bytes m') ≡ some tag)
    × (opening_mac_bytes m ≢ opening_mac_bytes m')

-- What an accepted opening shows.
record Accepted (p : Primitives) (b : Identity) (m : Initial) : Type 0 where
  legs : Bytes
  pq_ss : Bytes
  sk : Bytes
  key : Bytes
  legs_made : responder_legs p b m ≡ ok legs
  opened : p.kem_decaps m.pq_ct b.pqk_sk ≡ some pq_ss
  derived : derive_sk p (legs ++ pq_ss) ≡ ok sk
  key_made : derive_open_mac_key p sk ≡ ok key
  tagged : p.hmac key (opening_mac_bytes m) ≡ some m.mac

check_opening-eq_ok :
    (p : Primitives) (sk : Bytes) (m : Initial)
    → check_opening p sk m ≡ ok tt
    → (key : Bytes) × (derive_open_mac_key p sk ≡ ok key)
      × (p.hmac key (opening_mac_bytes m) ≡ some m.mac)
unfolding check_opening
check_opening-eq_ok p sk m h =
    let (want, made, checked) =
      >>=-eq_ok
        (derive_open_mac_key p sk >>= λ k. need (p.hmac k (opening_mac_bytes m)) Error.crypto) _
        h in
    let (key, key_made, tagged) = >>=-eq_ok (derive_open_mac_key p sk) _ made in
    let same : bytes_eq want m.mac ≡ true =
      ground (arith, refuse_if-eq_ok (not (bytes_eq want m.mac)) Error.integrity checked) in
    (
      key,
      key_made,
      need-eq_ok (p.hmac key (opening_mac_bytes m)) Error.crypto tagged
          ∙ ap some (bytes_eq→eq want m.mac same),
    )

responder-Accepted :
    (p : Primitives) (q : Signatures) (draw : ℕ) (b : Identity) (m : Initial) {s : Session}
    → pqxdh_responder p q draw b m ≡ ok s
    → Accepted p b m
unfolding pqxdh_responder
responder-Accepted p q draw b m h =
    let (_, cert, h₁) =
      >>=-eq_ok (verify_labeled q label_iddh m.ik_dh_pk m.ik_dh_cert m.ik_sig_pk) _ h in
    let (legs, legs_made, h₂) = >>=-eq_ok (responder_legs p b m) _ h₁ in
    let (pq_ss, opened, h₃) =
      >>=-eq_ok (need (p.kem_decaps m.pq_ct b.pqk_sk) Error.integrity) _ h₂ in
    let (sk, derived, h₄) = >>=-eq_ok (derive_sk p (legs ++ pq_ss)) _ h₃ in
    let (_, checked, h₅) = >>=-eq_ok (check_opening p sk m) _ h₄ in
    let (key, key_made, tagged) = check_opening-eq_ok p sk m checked in
    record {
      legs = legs;
      pq_ss = pq_ss;
      sk = sk;
      key = key;
      legs_made = legs_made;
      opened = need-eq_ok (p.kem_decaps m.pq_ct b.pqk_sk) Error.integrity opened;
      derived = derived;
      key_made = key_made;
      tagged = tagged;
    }

-- A message with another claimed identity or another ratchet mode.
abbrev pub tampered : Initial → Bytes → Bytes → Bool → Initial
tampered m sig_pk cert pq = record m { ik_sig_pk = sig_pk; ik_dh_cert = cert; pq = pq }

-- The tag admits no downgrade. Let a responder accept an opening message, and also the message with
-- its signing identity, certificate or ratchet mode replaced, the rest and the tag being the same.
-- Then the signing identity and the mode are the same in both, unless the two messages are a
-- collision of HMAC-SHA256 under one key.
pub responder_no_downgrade :
    (p : Primitives) (q : Signatures) (draw draw' : ℕ) (b : Identity) (m : Initial)
    (sig_pk cert : Bytes) (pq : Bool) {s s' : Session}
    → OpeningFits m
    → length sig_pk ≡ qsafe_sig_pub_size
    → pqxdh_responder p q draw b m ≡ ok s
    → pqxdh_responder p q draw' b (tampered m sig_pk cert pq) ≡ ok s'
    → ((sig_pk ≡ m.ik_sig_pk) × (pq ≡ m.pq)) ⊎ Collides p m (tampered m sig_pk cert pq)
unfolding responder_legs
responder_no_downgrade p q draw draw' b m sig_pk cert pq f size h h' =
    let m' = tampered m sig_pk cert pq in
    let a = responder-Accepted p q draw b m h in
    let a' = responder-Accepted p q draw' b m' h' in
    let same_legs : a.legs ≡ a'.legs = ok_inj (sym a.legs_made ∙ a'.legs_made) in
    let same_ss : a.pq_ss ≡ a'.pq_ss = some_inj (sym a.opened ∙ a'.opened) in
    let same_sk : a.sk ≡ a'.sk = ok_inj (
      sym a.derived ∙ ap₂ (λ (l k : Bytes). derive_sk p (l ++ k)) same_legs same_ss ∙ a'.derived) in
    let same_key : a.key ≡ a'.key =
      ok_inj (sym a.key_made ∙ ap (derive_open_mac_key p) same_sk ∙ a'.key_made) in
    let tagged' : p.hmac a.key (opening_mac_bytes m') ≡ some m.mac =
      ap (λ k. p.hmac k (opening_mac_bytes m')) same_key ∙ a'.tagged in
    let f' : OpeningFits m' = record {
      sig_pk_size = size;
      dh_size = f.dh_size;
      ek_size = f.ek_size;
      ct_size = f.ct_size;
      id_small = f.id_small;
    } in
    elim (Bool-cases (bytes_eq (opening_mac_bytes m') (opening_mac_bytes m))) [
      | inl same ↦
          let o =
            opening_mac_bytes_inj m' m f' f
              (bytes_eq→eq (opening_mac_bytes m') (opening_mac_bytes m) same) in
          inl (o.same_sig_pk, o.same_pq)
      | inr other ↦ inr (
        a.key,
        m.mac,
        a.tagged,
        tagged',
        λ e. differ (opening_mac_bytes m) (opening_mac_bytes m') e other,
      )
    ]
  where
    differ : (x y : Bytes) → x ≡ y → bytes_eq y x ≡ false → ⊥
    differ x y e h = cc (bytes_eq_refl x, ap (bytes_eq y) e, ap (λ t. bytes_eq t x) e)

-- A signature that the code accepts under a label.
abbrev pub Verifies : Signatures → Bytes → Bytes → Bytes → Bytes → Type 0
Verifies q label msg sig pk = q.sig_verify (label ++ msg) sig pk ≡ true

verify_labeled-eq_ok :
    (q : Signatures) (label msg sig pk : Bytes)
    → verify_labeled q label msg sig pk ≡ ok tt
    → Verifies q label msg sig pk
unfolding verify_labeled
verify_labeled-eq_ok q label msg sig pk h = ground arith

-- The prekey of a bundle, if it has one, is signed.
abbrev pub OpkVerifies : Signatures → Bundle → Type 0
OpkVerifies q b =
    if b.have_opk
    then Verifies q label_opk (opk_signed_bytes b.opk_id b.opk_pk) b.opk_sig b.ik_sig_pk
    else Unit {0}

opk_check-Verifies :
    {S : Type 0} (have : Bool) {check : Result (Unit {0})}
    → (check ≡ ok tt → S)
    → (if have then check else ok tt) ≡ ok tt
    → (if have then S else Unit {0})
opk_check-Verifies true found h = found h
opk_check-Verifies false found h = tt

-- The initiator fails closed: when `pqxdh_initiator` succeeds, the signatures of the bundle on the
-- signed prekey, on the ML-KEM prekey, on the identity DH key and, if there is one, on the one-time
-- prekey with its id verify under their labels and the one signing key of the bundle.
pub initiator_verified :
    (p : Primitives) (q : Signatures) (draw : ℕ → ℕ) (self : Identity) (b : Bundle) (pq : Bool)
    {msg : Initial} {s : Session}
    → pqxdh_initiator p q draw self b pq ≡ ok (msg, s)
    → Verifies q label_spk b.spk_pk b.spk_sig b.ik_sig_pk
      × Verifies q label_pqk b.pqk_pk b.pqk_sig b.ik_sig_pk
      × Verifies q label_iddh b.ik_dh_pk b.ik_dh_cert b.ik_sig_pk
      × OpkVerifies q b
unfolding pqxdh_initiator verify_bundle
initiator_verified p q draw self b pq {msg} {s} h =
    let (_, verified, _) = >>=-eq_ok (verify_bundle q b) _ h in
    let (_, spk, h₁) =
      >>=-eq_ok (verify_labeled q label_spk b.spk_pk b.spk_sig b.ik_sig_pk) _ verified in
    let (_, pqk, h₂) = >>=-eq_ok (verify_labeled q label_pqk b.pqk_pk b.pqk_sig b.ik_sig_pk) _ h₁ in
    let (_, iddh, h₃) =
      >>=-eq_ok (verify_labeled q label_iddh b.ik_dh_pk b.ik_dh_cert b.ik_sig_pk) _ h₂ in
    (
      verify_labeled-eq_ok q label_spk b.spk_pk b.spk_sig b.ik_sig_pk spk,
      verify_labeled-eq_ok q label_pqk b.pqk_pk b.pqk_sig b.ik_sig_pk pqk,
      verify_labeled-eq_ok q label_iddh b.ik_dh_pk b.ik_dh_cert b.ik_sig_pk iddh,
      opk_check-Verifies b.have_opk
          (verify_labeled-eq_ok q label_opk (opk_signed_bytes b.opk_id b.opk_pk) b.opk_sig
            b.ik_sig_pk)
          h₃,
    )
