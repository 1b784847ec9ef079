-- ===== src/Ratchet/Tests.antt =====
-- Runs of ratchet.c's functions with stand-ins for the cryptography.
use qsafe.Base.{
  ℕ, ◌+◌, ◌≡◌, refl, true, false, Option, none, some, [], ◌∷◌, ◌++◌, ◌==◌, if◌then◌else◌, replicate,
  Bytes, arith,
}
use qsafe.Crypto.{Error, Result, ok, err, Primitives}
use qsafe.Crypto.Toy.{fill, toy_tag, toy, toy-IsAead, toy-Agrees}
use qsafe.Ratchet.State.{Session, zero_session}
use qsafe.Ratchet.Kdf.{kdf_ck, kdf_rk, label_ck_next, label_ck_msg}
use qsafe.Ratchet.Header.{hdr_build, hdr_parse, he_hdr_build, he_hdr_parse, parse-build}
use qsafe.Ratchet.Skip.{skip_too_far, skip_message_keys}
use qsafe.Ratchet.Step.{Draws, dh_ratchet}
use qsafe.Ratchet.Message.{seal_body, ratchet_encrypt, message_header}
use qsafe.Ratchet.Decrypt.{ratchet_decrypt}
use qsafe.Ratchet.Init.{ratchet_init_initiator, ratchet_init_responder}
use qsafe.Ratchet.Store.{stored_key, stored_key-nil}
use qsafe.Ratchet.Chain.{Computes, chain_key, message_key, Follows, Skipped, skip_message_keys_lem}
use qsafe.Ratchet.Frames.{chain_header}
use qsafe.Ratchet.Delivery.{awaits, decrypt-delivers, decrypt-replay}
use qsafe.Ratchet.Bounds.{IsBounded, session-IsBounded}
use qsafe.Ratchet.Sending.{decrypt-encrypt, decrypt_atomic, encrypt_failed_seal}
use qsafe.Crypto.Toy.{toy_envelope, toy-Opens}
use qsafe.Ratchet.AtRest.{pack, ratchet_session_serialize, ratchet_session_deserialize}
use qsafe.Ratchet.RoundTrip.{AtRestFits, session_deserialize-serialize}
use qsafe.Ratchet.Bootstrap.{step-Follows_initiator}

-- The same with an AES-GCM that fails on the empty plaintext.
abbrev some_seal : Bytes → Bytes → Option (Bytes × Bytes)
some_seal key [] = none
some_seal key (b ∷ pt) = some (b ∷ pt, toy_tag key)

abbrev broken : Primitives
broken = record toy { gcm_seal = λ key nonce aad pt. some_seal key pt }

abbrev toy_step : Bytes → Bytes × Bytes
toy_step ck = (fill (label_ck_next ++ ck) 32, fill (label_ck_msg ++ ck) 32)

toy-Computes : Computes toy toy_step
unfolding kdf_ck
toy-Computes ck = refl

-- A session that follows the chain of the ratchet key 9, with nothing received yet.
abbrev first_key : Bytes
first_key = replicate 32 5

abbrev peer_key : Bytes
peer_key = replicate 32 9

abbrev receiver : Session
receiver = record zero_session { dhr = peer_key; have_dhr = true; have_ckr = true; ckr = first_key }

receiver-Follows : Follows toy_step first_key peer_key receiver
unfolding zero_session chain_key
receiver-Follows = record {
  clear = refl;
  classical = refl;
  peer_known = refl;
  peer = refl;
  ready = refl;
  at = refl;
  small = omega arith;
  distinct = tt;
  stored = λ m k e. absurd (cc (stored_key-nil peer_key m, e));
}

-- The same session two messages on.
abbrev later : Session
later = record receiver { nr = 2; ckr = chain_key toy_step first_key 2 }

later-Follows : Follows toy_step first_key peer_key later
unfolding zero_session
later-Follows = record {
  clear = refl;
  classical = refl;
  peer_known = refl;
  peer = refl;
  ready = refl;
  at = refl;
  small = omega arith;
  distinct = tt;
  stored = λ m k e. absurd (cc (stored_key-nil peer_key m, e));
}

abbrev draws : Draws
draws = record { dh = 4; kem = 5; encaps = 6 }

abbrev hello : Bytes
hello = 104 ∷ 105 ∷ []

receiver-awaits : awaits peer_key receiver 2 ≡ true
unfolding zero_session awaits
receiver-awaits = refl

later-spent : awaits peer_key later 0 ≡ false
unfolding zero_session awaits stored_key
later-spent = refl

receiver-near : skip_too_far receiver 2 ≡ false
unfolding zero_session
receiver-near = refl

abbrev sealed_two : Bytes
sealed_two = hello ++ toy_tag (message_key toy_step first_key 2)

sealed :
    seal_body toy (message_key toy_step first_key 2) 2 (chain_header peer_key 0 2) hello
    ≡ some sealed_two
unfolding seal_body
sealed = refl

decrypt-delivers_example :
    (s' : Session) × (ratchet_decrypt toy draws (chain_header peer_key 0 2) sealed_two receiver
      ≡ (ok hello, s'))
    × Follows toy_step first_key peer_key s'
    × ((m : ℕ) → awaits peer_key s' m ≡ (if m == 2 then false else awaits peer_key receiver m))
decrypt-delivers_example =
    decrypt-delivers toy toy-IsAead toy_step toy-Computes first_key peer_key 2 0 draws sealed_two
      hello receiver refl (omega arith) (omega arith) receiver-Follows receiver-awaits
      (λ _. receiver-near) sealed

decrypt-replay_example :
    ratchet_decrypt toy draws (chain_header peer_key 0 0) sealed_two later
    ≡ (err Error.integrity, later)
decrypt-replay_example =
    decrypt-replay toy toy-IsAead toy_step toy-Computes first_key peer_key 0 0 draws sealed_two
      later refl (omega arith) (omega arith) later-Follows later-spent

skip_message_keys_lem_example :
    (s' : Session) × (skip_message_keys toy 2 receiver ≡ (ok tt, s'))
    × Skipped toy_step first_key toy toy-Computes peer_key receiver s' 2
unfolding zero_session
skip_message_keys_lem_example =
    skip_message_keys_lem toy_step first_key toy toy-Computes peer_key receiver 2 receiver-Follows
      (omega arith) (omega arith) receiver-near

receiver-IsBounded : IsBounded receiver
unfolding zero_session
receiver-IsBounded = record {
  stored = omega arith;
  ns_small = omega arith;
  nr_small = omega arith;
  pn_small = omega arith;
}

session-IsBounded_example :
    IsBounded (ratchet_decrypt toy draws (chain_header peer_key 0 2) sealed_two receiver).1
    × IsBounded (ratchet_encrypt toy 7 hello receiver).1
session-IsBounded_example =
    session-IsBounded toy draws 7 (chain_header peer_key 0 2) sealed_two hello receiver
      receiver-IsBounded

-- The other end: a session that sends along the chain.
abbrev sender : Session
sender = record zero_session { dhs_pub = peer_key; have_cks = true; cks = first_key }

abbrev sent_header : Bytes
sent_header = message_header sender

abbrev sent_body : Bytes
sent_body = hello ++ toy_tag (toy_step first_key).1

abbrev sender_after : Session
sender_after = record sender { cks = (toy_step first_key).0; ns = 1 }

sender_sent : ratchet_encrypt toy 7 hello sender ≡ (ok (sent_header, sent_body), sender_after)
unfolding zero_session ratchet_encrypt kdf_ck
sender_sent = refl

sender-clear : (sender.he ≡ false) × (sender.pq ≡ false) × (sender.pn ≡ 0) × (sender.ns ≡ 0)
unfolding zero_session
sender-clear = (refl, refl, refl, refl)

receiver-awaits_first : awaits peer_key receiver 0 ≡ true
unfolding zero_session awaits
receiver-awaits_first = refl

receiver-near_first : skip_too_far receiver 0 ≡ false
unfolding zero_session
receiver-near_first = refl

decrypt-encrypt_example :
    (sender_after.ns ≡ sender.ns + 1)
    × (sender_after.cks ≡ chain_key toy_step first_key sender_after.ns)
    × (r' : Session) × (ratchet_decrypt toy draws sent_header sent_body receiver ≡ (ok hello, r'))
    × Follows toy_step first_key peer_key r'
unfolding zero_session chain_key
decrypt-encrypt_example =
    decrypt-encrypt toy toy_step first_key 7 draws hello sent_header sent_body sender sender_after
      receiver toy-IsAead toy-Computes sender-clear.0 sender-clear.1 refl refl (omega arith)
      (omega arith) receiver-Follows receiver-awaits_first (λ _. receiver-near_first) sender_sent

junk_refused :
    (ratchet_decrypt toy draws (2 ∷ 2 ∷ []) sealed_two receiver).0 ≡ err Error.invalid_input
unfolding ratchet_decrypt zero_session
junk_refused = refl

decrypt_atomic_example : (ratchet_decrypt toy draws (2 ∷ 2 ∷ []) sealed_two receiver).1 ≡ receiver
decrypt_atomic_example = decrypt_atomic toy draws (2 ∷ 2 ∷ []) sealed_two receiver junk_refused

broken-Computes : Computes broken toy_step
unfolding kdf_ck
broken-Computes ck = refl

broken_fails :
    seal_body broken
      (message_key toy_step first_key sender.ns)
      sender.ns
      (chain_header sender.dhs_pub sender.pn sender.ns)
      []
    ≡ none
unfolding seal_body
broken_fails = refl

abbrev late_body : Bytes
late_body = hello ++ toy_tag (toy_step (toy_step first_key).0).1

abbrev late_sender : Session
late_sender = record sender { cks = (toy_step (toy_step first_key).0).0; ns = 1 }

sent_late :
    ratchet_encrypt broken 7 hello (ratchet_encrypt broken 7 [] sender).1
    ≡ (ok (sent_header, late_body), late_sender)
unfolding zero_session ratchet_encrypt kdf_ck
sent_late = refl

encrypt_failed_seal_example :
    ((ratchet_encrypt broken 7 [] sender).0 ≡ err Error.crypto)
    × (sent_header ≡ chain_header sender.dhs_pub sender.pn sender.ns)
    × (seal_body broken (message_key toy_step first_key (sender.ns + 1)) sender.ns sent_header hello
        ≡ some late_body)
unfolding zero_session chain_key
encrypt_failed_seal_example =
    encrypt_failed_seal broken toy_step first_key 7 7 [] hello sent_header late_body sender
      late_sender broken-Computes refl refl refl refl (omega arith) broken_fails sent_late

-- The session that a call made.
abbrev made : Result Session → Session
made (ok s) = s
made (err e) = zero_session

abbrev responder_key : Bytes
responder_key = replicate 32 4

abbrev initiator : Session
initiator = made (ratchet_init_initiator toy 3 first_key responder_key)

initiator_made : ratchet_init_initiator toy 3 first_key responder_key ≡ ok initiator
unfolding ratchet_init_initiator kdf_rk
initiator_made = refl

abbrev stepped : Session
stepped =
    (dh_ratchet toy draws initiator.dhs_pub none
      (ratchet_init_responder first_key responder_key responder_key)).1

responder_stepped :
    dh_ratchet toy draws initiator.dhs_pub none
      (ratchet_init_responder first_key responder_key responder_key)
    ≡ (ok tt, stepped)
unfolding ratchet_init_initiator kdf_rk dh_ratchet ratchet_init_responder zero_session
responder_stepped = refl

step-Follows_initiator_example :
    (initiator.ns ≡ 0)
    × (initiator.have_cks ≡ true)
    × Follows toy_step initiator.cks initiator.dhs_pub stepped
    × (stepped.skipped ≡ [])
step-Follows_initiator_example =
    step-Follows_initiator toy toy_step draws 3 4 first_key responder_key responder_key none
      initiator stepped toy-Agrees refl initiator_made responder_stepped

parse-build_example :
    (hdr_parse (hdr_build 2 peer_key 3 4 ++ hello) ≡ (peer_key, 3, 4))
    × (he_hdr_parse (he_hdr_build peer_key 3 4) ≡ (peer_key, 3, 4))
parse-build_example = parse-build 2 peer_key 3 4 hello refl (omega arith) (omega arith)

-- A session with a stored key.
abbrev keeping : Session
keeping = record receiver {
  nr = 1;
  skipped = record { dh_pub = peer_key; n = 0; mk = first_key; hk = replicate 32 0 } ∷ [];
}

keeping-AtRestFits : AtRestFits keeping
unfolding zero_session
keeping-AtRestFits = record {
  clear = refl;
  no_header = refl;
  rk_size = refl;
  sec_size = refl;
  pub_size = refl;
  dhr_size = refl;
  cks_size = refl;
  ckr_size = refl;
  ns_small = omega arith;
  nr_small = omega arith;
  pn_small = omega arith;
  few = omega arith;
  entries = ((refl, omega arith, refl, refl), tt);
  kem_part = refl;
}

keeping_sealed : ratchet_session_serialize toy_envelope 3 keeping hello ≡ ok (pack keeping)
unfolding ratchet_session_serialize zero_session
keeping_sealed = refl

session_deserialize-serialize_example :
    ratchet_session_deserialize toy_envelope (pack keeping) hello ≡ ok keeping
session_deserialize-serialize_example =
    session_deserialize-serialize toy_envelope 3 keeping hello (pack keeping) toy-Opens
      keeping-AtRestFits keeping_sealed
