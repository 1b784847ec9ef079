-- ===== src/Group/Tests.antt =====
-- Runs of group.c's functions with stand-ins for the cryptography.
use qsafe.Base.{
  ℕ, ◌+◌, ◌≡◌, refl, true, false, [], ◌∷◌, ◌++◌, leb, ◌==◌, if◌then◌else◌, take, drop, replicate,
  length-replicate, Bytes, bytes_eq, put_u32, get_u32, put_u16, get_u16, arith,
}
use qsafe.Crypto.{Error, ok, err}
use qsafe.Crypto.Toy.{
  fill, toy_tag, toy, toy-IsAead, toy_signatures, toy-IsSigner, toy_envelope, toy-Opens,
}
use qsafe.Ratchet.Chain.{chain_key}
use qsafe.Group.State.{
  Sender, Receiver, g_kdf_ck, label_group_ck, label_group_msg, group_skip_loop, group_skipped_find,
  group_entry, group_sender_distribution, group_receiver_init,
}
use qsafe.Group.Message.{group_encrypt, group_decrypt, group_frame}
use qsafe.Group.AtRest.{group_receiver_serialize, group_receiver_deserialize, pack_receiver}
use qsafe.Group.Store.{group_stored-nil}
use qsafe.Group.Chain.{GroupComputes, group_awaits, Tracks}
use qsafe.Group.Delivery.{group_decrypt-encrypt, group_decrypt_once}
use qsafe.Group.Safety.{Fits, group_decrypt_atomic, group_decrypt-Fits}
use qsafe.Group.RoundTrip.{receiver_init-distribution, FieldsFit, deserialize-serialize}

abbrev group_step : Bytes → Bytes × Bytes
group_step ck = (fill (label_group_ck ++ ck) 32, fill (label_group_msg ++ ck) 32)

toy-GroupComputes : GroupComputes toy group_step
unfolding g_kdf_ck
toy-GroupComputes ck = refl

abbrev start : Bytes
start = replicate 32 5

abbrev alice : Sender
alice = record { ck = start; index = 0; sig_pk = replicate 2592 1; sig_sk = replicate 2592 1 }

abbrev bob : Receiver
bob = record { ck = start; index = 0; sig_pk = replicate 2592 1; skipped = [] }

bob-Tracks : Tracks group_step start bob
unfolding chain_key
bob-Tracks = record {
  at = refl;
  small = omega arith;
  unrepeated = tt;
  stored = λ m k e. absurd (cc (group_stored-nil m, e));
}

bob-awaits : group_awaits bob 0 ≡ true
unfolding group_awaits
bob-awaits = refl

abbrev hi : Bytes
hi = 104 ∷ 105 ∷ []

abbrev hi_frame : Bytes
hi_frame =
    put_u32 0
    ++ (put_u16 6 ++ ((1 ∷ 1 ∷ 0 ∷ 0 ∷ 0 ∷ 0 ∷ []) ++ (hi ++ toy_tag (group_step start).1)))

abbrev alice_after : Sender
alice_after = record alice { ck = (group_step start).0; index = 1 }

alice_sent : group_encrypt toy toy_signatures 7 hi alice ≡ (ok hi_frame, alice_after)
unfolding group_encrypt g_kdf_ck group_frame put_u32 put_u16
alice_sent = refl

group_decrypt-encrypt_example :
    (alice_after.index ≡ alice.index + 1)
    × (alice_after.ck ≡ chain_key group_step start alice_after.index)
    × (r' : Receiver) × (group_decrypt toy toy_signatures hi_frame bob ≡ (ok hi, r'))
    × Tracks group_step start r'
    × (r'.sig_pk ≡ alice.sig_pk)
    × ((m : ℕ) → group_awaits r' m ≡ (if m == alice.index then false else group_awaits bob m))
unfolding chain_key
group_decrypt-encrypt_example =
    group_decrypt-encrypt toy toy_signatures group_step start 1 7 hi hi_frame alice alice_after bob
      toy-IsAead toy-IsSigner toy-GroupComputes refl refl (omega arith) refl bob-Tracks bob-awaits
      (λ _. refl) alice_sent

abbrev bob_after : Receiver
bob_after = record bob { ck = (group_step start).0; index = 1 }

bob_accepts : group_decrypt toy toy_signatures hi_frame bob ≡ (ok hi, bob_after)
unfolding group_decrypt g_kdf_ck put_u32 put_u16 get_u32 get_u16 bytes_eq group_skip_loop
    group_skipped_find
bob_accepts = refl

hi_number : get_u32 hi_frame ≡ 0
unfolding get_u32 put_u32
hi_number = refl

group_decrypt_once_example :
    (toy_signatures.sig_verify
        (take 4 hi_frame ++ drop (get_u16 (drop 4 hi_frame)) (drop 6 hi_frame))
        (take (get_u16 (drop 4 hi_frame)) (drop 6 hi_frame))
        bob.sig_pk
      ≡ true)
    × (group_awaits bob (get_u32 hi_frame) ≡ true)
    × Tracks group_step start bob_after
    × ((m : ℕ)
        → group_awaits bob_after m ≡ (if m == get_u32 hi_frame then false else group_awaits bob m))
group_decrypt_once_example =
    group_decrypt_once toy toy_signatures group_step start hi_frame hi bob bob_after
      toy-GroupComputes bob-Tracks (omega (arith, hi_number)) bob_accepts

-- The same frame a second time.
bob_refuses : (group_decrypt toy toy_signatures hi_frame bob_after).0 ≡ err Error.integrity
unfolding group_decrypt g_kdf_ck put_u32 put_u16 get_u32 get_u16 bytes_eq group_skip_loop
    group_skipped_find
bob_refuses = refl

group_decrypt_atomic_example : (group_decrypt toy toy_signatures hi_frame bob_after).1 ≡ bob_after
group_decrypt_atomic_example =
    group_decrypt_atomic toy toy_signatures hi_frame bob_after bob_refuses

bob-Fits : Fits bob
bob-Fits = record { stored = omega arith; small = omega arith }

group_decrypt-Fits_example : Fits (group_decrypt toy toy_signatures hi_frame bob).1
group_decrypt-Fits_example = group_decrypt-Fits toy toy_signatures hi_frame bob bob-Fits

receiver_init-distribution_example :
    ((group_receiver_init (group_sender_distribution alice)).sig_pk ≡ alice.sig_pk)
    × Tracks group_step start (group_receiver_init (group_sender_distribution alice))
    × ((m : ℕ)
        → group_awaits (group_receiver_init (group_sender_distribution alice)) m
          ≡ leb alice.index m)
unfolding chain_key
receiver_init-distribution_example =
    receiver_init-distribution group_step start alice refl (length-replicate {A = ℕ} 2592 1)
      (omega arith) refl

-- A receiver with a stored key.
abbrev carol : Receiver
carol = record bob { index = 1; skipped = group_entry 0 (replicate 32 8) ∷ [] }

carol-Fits : Fits carol
carol-Fits = record { stored = omega arith; small = omega arith }

carol-FieldsFit : FieldsFit carol
carol-FieldsFit = record {
  ck_size = refl;
  pk_size = length-replicate {A = ℕ} 2592 1;
  entries = ((omega arith, refl), tt);
}

carol_sealed : group_receiver_serialize toy_envelope 3 carol hi ≡ ok (pack_receiver carol)
unfolding group_receiver_serialize
carol_sealed = refl

deserialize-serialize_example :
    group_receiver_deserialize toy_envelope (pack_receiver carol) hi ≡ ok carol
deserialize-serialize_example =
    deserialize-serialize toy_envelope 3 carol hi (pack_receiver carol) toy-Opens carol-FieldsFit
      carol-Fits carol_sealed
