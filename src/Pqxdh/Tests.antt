-- ===== src/Pqxdh/Tests.antt =====
-- Runs of pqxdh.c's functions over the stand-ins.
use qsafe.Base.{
  get_u32, ℕ, zero, suc, ◌+◌, ◌*◌, ◌≡◌, ◌⊎◌, refl, Bool, true, false, none, List, [], ◌∷◌, ◌++◌,
  length, replicate, length-replicate, get_u32, Bytes, bytes_eq, arith,
}
use qsafe.Crypto.{Result, ok, err}
use qsafe.Crypto.Toy.{
  toy_sign, toy, toy-Agrees, toy-Decapsulates, toy-FillsBytes, toy_signatures, toy-IsSigner,
}
use qsafe.Ratchet.State.{Session, zero_session}
use qsafe.Ratchet.Kdf.{kdf_rk}
use qsafe.Ratchet.Init.{
  ratchet_init_initiator, ratchet_init_responder, ratchet_pq_init_initiator,
  ratchet_pq_init_responder,
}
use qsafe.Ratchet.Step.{Draws, dh_ratchet}
use qsafe.Ratchet.Chain.{Follows}
use qsafe.Pqxdh.State.{
  pqxdh_opk_pool, OneTime, Identity, Bundle, Initial, label_iddh, label_spk, label_pqk,
}
use qsafe.Pqxdh.Identity.{
  verify_labeled, sign_labeled, opk_loop, pqxdh_identity_generate, pqxdh_publish_bundle,
  pqxdh_opk_public,
}
use qsafe.Pqxdh.Handshake.{
  pqxdh_initiator, pqxdh_responder, initiator_session, responder_session, verify_bundle,
  initiator_legs, responder_legs, derive_sk, opening_tag, opening_mac_bytes, check_opening,
}
use qsafe.Pqxdh.Keys.{IsIdentity, generate-IsIdentity, with_opk}
use qsafe.Pqxdh.Served.{Served, prekeyed, verify-Served}
use qsafe.Pqxdh.Agreement.{DistinctIds, responder-initiator}
use qsafe.Pqxdh.FirstStep.{handshake-Follows}
use qsafe.Pqxdh.Binding.{
  OpeningFits, Collides, Verifies, OpkVerifies, tampered, responder_no_downgrade,
  initiator_verified,
}

abbrev one_time : ℕ → OneTime
one_time i = record { id = i * 0x01010101; pk = replicate 32 i; sk = replicate 32 i }

-- An identity whose keys are drawn from one number, with two prekeys.
abbrev identity_of : ℕ → Identity
identity_of d = record {
  ik_sig_pk = replicate 2592 d;
  ik_sig_sk = replicate 2592 d;
  ik_dh_pk = replicate 32 d;
  ik_dh_sk = replicate 32 d;
  spk_pk = replicate 32 (d + 1);
  spk_sk = replicate 32 (d + 1);
  pqk_pk = replicate 1568 d;
  pqk_sk = replicate 3168 d;
  ik_dh_cert = toy_sign (replicate 2592 d) (label_iddh ++ replicate 32 d);
  opk = one_time 7 ∷ one_time 8 ∷ [];
}

identity_of-IsIdentity : (d : ℕ) → IsIdentity toy toy_signatures (identity_of d)
unfolding sign_labeled
identity_of-IsIdentity d = record {
  sig_draw = d;
  sig_pair = refl;
  dh_pair = (d, refl);
  cert = (0, refl);
  spk_pair = (d + 1, refl);
  kem_draw = d;
  kem_pair = refl;
  pool = (((7, refl), omega arith), (((8, refl), omega arith), tt));
}

abbrev alice : Identity
alice = identity_of 3

abbrev bob : Identity
bob = identity_of 5

bob-DistinctIds : DistinctIds bob.opk
bob-DistinctIds = omega arith

abbrev draws : ℕ → ℕ
draws n = n + 20

-- What a call that cannot fail here gave.
abbrev given {ℓ} : {A : Type ℓ} → A → Result A → A
given a (ok b) = b
given a (err e) = a

abbrev no_bundle : Bundle
no_bundle = record {
  ik_sig_pk = [];
  ik_dh_pk = [];
  ik_dh_cert = [];
  spk_pk = [];
  spk_sig = [];
  pqk_pk = [];
  pqk_sig = [];
  have_opk = false;
  opk_id = 0;
  opk_pk = [];
  opk_sig = [];
}

abbrev bob_base : Bundle
bob_base = given no_bundle (pqxdh_publish_bundle toy_signatures draws bob)

abbrev bob_entry : ℕ × Bytes × Bytes
bob_entry = given (0, [], []) (pqxdh_opk_public toy_signatures 9 bob 1)

abbrev bob_bundle : Bundle
bob_bundle = with_opk bob_base bob_entry

base_published : pqxdh_publish_bundle toy_signatures draws bob ≡ ok bob_base
unfolding pqxdh_publish_bundle sign_labeled
base_published = refl

entry_published : pqxdh_opk_public toy_signatures 9 bob 1 ≡ ok bob_entry
unfolding pqxdh_opk_public sign_labeled
entry_published = refl

bob-Served : Served toy_signatures bob bob_bundle
bob-Served = prekeyed draws 9 1 bob_entry base_published entry_published

verify-Served_example : verify_bundle toy_signatures bob_bundle ≡ ok tt
verify-Served_example =
    verify-Served toy toy_signatures bob toy-IsSigner (identity_of-IsIdentity 5) bob-Served

abbrev no_opening : Initial
no_opening = record {
  ik_sig_pk = [];
  ik_dh_pk = [];
  ik_dh_cert = [];
  ek_pk = [];
  pq_ct = [];
  opk_id = 0;
  pq = false;
  mac = [];
}

-- The handshake in either mode, with what each side gets.
abbrev opened : Bool → Initial × Session
opened pq =
    given (no_opening, zero_session) (pqxdh_initiator toy toy_signatures draws alice bob_bundle pq)

abbrev answered : Bool → Session
answered pq = given zero_session (pqxdh_responder toy toy_signatures 30 bob (opened pq).0)

opened_runs :
    (pq : Bool) → pqxdh_initiator toy toy_signatures draws alice bob_bundle pq ≡ ok (opened pq)
unfolding pqxdh_publish_bundle sign_labeled pqxdh_opk_public pqxdh_initiator verify_bundle
    initiator_legs derive_sk initiator_session opening_tag ratchet_init_initiator
    ratchet_pq_init_initiator kdf_rk zero_session verify_labeled opening_mac_bytes bytes_eq
opened_runs true = refl
opened_runs false = refl

answered_runs :
    (pq : Bool) → pqxdh_responder toy toy_signatures 30 bob (opened pq).0 ≡ ok (answered pq)
unfolding pqxdh_publish_bundle sign_labeled pqxdh_opk_public pqxdh_initiator verify_bundle
    initiator_legs derive_sk initiator_session opening_tag ratchet_init_initiator
    ratchet_pq_init_initiator kdf_rk zero_session verify_labeled opening_mac_bytes bytes_eq
    pqxdh_responder responder_legs check_opening responder_session ratchet_init_responder
    ratchet_pq_init_responder
answered_runs true = refl
answered_runs false = refl

responder-initiator_example :
    (sk : Bytes) × (initiator_session toy draws true sk bob.spk_pk ≡ ok (opened true).1)
    × (pqxdh_responder toy toy_signatures 30 bob (opened true).0
        ≡ responder_session toy 30 true sk bob)
responder-initiator_example =
    responder-initiator toy toy_signatures draws 30 alice bob bob_bundle true (opened true).0
      (opened true).1 toy-IsSigner toy-Agrees toy-Decapsulates (identity_of-IsIdentity 3)
      (identity_of-IsIdentity 5) bob-DistinctIds bob-Served (opened_runs true)

abbrev step_draws : Draws
step_draws = record { dh = 40; kem = 41; encaps = 42 }

abbrev toy_chain : Bytes → Bytes × Bytes
toy_chain ck = (ck, ck)

abbrev stepped : Session
stepped = (dh_ratchet toy step_draws (opened false).1.dhs_pub none (answered false)).1

initiator_verified_example :
    Verifies toy_signatures label_spk bob_bundle.spk_pk bob_bundle.spk_sig bob_bundle.ik_sig_pk
    × Verifies toy_signatures label_pqk bob_bundle.pqk_pk bob_bundle.pqk_sig bob_bundle.ik_sig_pk
    × Verifies toy_signatures label_iddh bob_bundle.ik_dh_pk bob_bundle.ik_dh_cert
        bob_bundle.ik_sig_pk
    × OpkVerifies toy_signatures bob_bundle
initiator_verified_example =
    initiator_verified toy toy_signatures draws alice bob_bundle true (opened_runs true)

-- The stand-in for HMAC has collisions, so that the flipped mode passes here.
abbrev flipped : Initial
flipped = tampered (opened true).0 alice.ik_sig_pk alice.ik_dh_cert false

abbrev flipped_answer : Session
flipped_answer = given zero_session (pqxdh_responder toy toy_signatures 30 bob flipped)

flipped_runs : pqxdh_responder toy toy_signatures 30 bob flipped ≡ ok flipped_answer
unfolding pqxdh_publish_bundle sign_labeled pqxdh_opk_public pqxdh_initiator verify_bundle
    initiator_legs derive_sk initiator_session opening_tag ratchet_init_initiator
    ratchet_pq_init_initiator kdf_rk zero_session verify_labeled opening_mac_bytes bytes_eq
    pqxdh_responder responder_legs check_opening responder_session ratchet_init_responder
    ratchet_pq_init_responder
flipped_runs = refl

stepped_runs :
    dh_ratchet toy step_draws (opened false).1.dhs_pub none (answered false) ≡ (ok tt, stepped)
unfolding pqxdh_publish_bundle sign_labeled pqxdh_opk_public pqxdh_initiator verify_bundle
    initiator_legs derive_sk initiator_session opening_tag ratchet_init_initiator
    ratchet_pq_init_initiator kdf_rk zero_session verify_labeled opening_mac_bytes bytes_eq
    pqxdh_responder responder_legs check_opening responder_session ratchet_init_responder
    ratchet_pq_init_responder dh_ratchet
stepped_runs = refl

handshake-Follows_example :
    ((opened false).1.have_cks ≡ true)
    × ((opened false).1.ns ≡ 0)
    × Follows toy_chain (opened false).1.cks (opened false).1.dhs_pub stepped
    × (stepped.skipped ≡ [])
handshake-Follows_example =
    handshake-Follows toy toy_signatures toy_chain draws 30 step_draws none alice bob bob_bundle
      (opened false).0 (opened false).1 (answered false) stepped toy-IsSigner toy-Agrees
      toy-Decapsulates (identity_of-IsIdentity 3) (identity_of-IsIdentity 5) bob-DistinctIds
      bob-Served (opened_runs false) (answered_runs false) stepped_runs

opened-OpeningFits : OpeningFits (opened true).0
unfolding pqxdh_publish_bundle sign_labeled pqxdh_opk_public pqxdh_initiator verify_bundle
    initiator_legs derive_sk initiator_session opening_tag ratchet_init_initiator
    ratchet_pq_init_initiator kdf_rk zero_session verify_labeled opening_mac_bytes bytes_eq
    pqxdh_responder responder_legs check_opening responder_session ratchet_init_responder
    ratchet_pq_init_responder
opened-OpeningFits = record {
  sig_pk_size = refl;
  dh_size = refl;
  ek_size = refl;
  ct_size = refl;
  id_small = omega arith;
}

responder_no_downgrade_example :
    ((alice.ik_sig_pk ≡ (opened true).0.ik_sig_pk) × (false ≡ (opened true).0.pq))
    ⊎ Collides toy (opened true).0 flipped
responder_no_downgrade_example =
    responder_no_downgrade toy toy_signatures 30 30 bob (opened true).0 alice.ik_sig_pk
      alice.ik_dh_cert false opened-OpeningFits (length-replicate {A = ℕ} 2592 3)
      (answered_runs true) flipped_runs

-- A whole generated identity.
abbrev pool_from : ℕ → ℕ → List OneTime
pool_from zero i = []
pool_from (suc n) i =
    record {
      id = (5 + 2 * i) * 0x01010101;
      pk = replicate 32 (4 + 2 * i);
      sk = replicate 32 (4 + 2 * i);
    }
    ∷ pool_from n (i + 1)

abbrev generated : Identity
generated = record {
  ik_sig_pk = replicate 2592 0;
  ik_sig_sk = replicate 2592 0;
  ik_dh_pk = replicate 32 1;
  ik_dh_sk = replicate 32 1;
  spk_pk = replicate 32 3;
  spk_sk = replicate 32 3;
  pqk_pk = replicate 1568 132;
  pqk_sk = replicate 3168 132;
  ik_dh_cert = toy_sign (replicate 2592 0) (label_iddh ++ replicate 32 1);
  opk = pool_from 64 0;
}

generated_runs : pqxdh_identity_generate toy toy_signatures (λ n. n) ≡ ok generated
unfolding pqxdh_identity_generate sign_labeled opk_loop get_u32
generated_runs = refl

generate-IsIdentity_example :
    IsIdentity toy toy_signatures generated × (length generated.opk ≡ pqxdh_opk_pool)
generate-IsIdentity_example =
    generate-IsIdentity toy toy_signatures (λ n. n) toy-FillsBytes generated_runs
