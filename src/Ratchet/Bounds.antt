-- ===== src/Ratchet/Bounds.antt =====
-- What every call of ratchet.c keeps, on success and on error: the skipped-key store stays within
-- RATCHET_MAX_SKIP, and the counters within 32 bits.
use qsafe.Base.{
  ℕ, zero, suc, ◌+◌, ◌-◌, ◌^◌, ◌≤◌, ◌<◌, ◌≡◌, ◌||◌, not, Option, none, some, List, [], ◌∷◌, length,
  length-append, take, Bytes, bytes_eq, arith, Bool-cases, Option-cases, inl, inr,
}
use qsafe.Crypto.{Result, ok, err, Primitives}
use qsafe.Ratchet.State.{SkippedKey, Session, Action, ◌>>=◌, continue, modify, ratchet_max_skip}
use qsafe.Ratchet.Kdf.{kdf_ck}
use qsafe.Ratchet.Header.{he_hdr_parse}
use qsafe.Ratchet.Skip.{
  skip_round, skip_loop, skip_message_keys, skipped_remove, remove_at, skipped_find,
}
use qsafe.Ratchet.Step.{
  Draws, KemHeader, start_epoch, promote, kem_keygen, receive_kem, receive_chain, rotate_dh,
  encapsulate, send_kem, send_chain, dh_ratchet, receive_chain_he, send_chain_he, dh_ratchet_he,
}
use qsafe.Ratchet.Message.{
  new_epoch, kem_header, ratchet_encrypt, ratchet_encrypt_clear, ratchet_encrypt_he,
}
use qsafe.Ratchet.Decrypt.{ratchet_decrypt}
use qsafe.Ratchet.InPlace.{
  open_next_in_place, receive_message_in_place, receive_skipped_in_place, decrypt_fields_in_place,
  decrypt_copy_in_place, decrypt_copy_he_in_place, decrypt_opened_in_place,
  receive_next_epoch_in_place, commit, ratchet_decrypt-commit,
}

pub record IsBounded (s : Session) : Type 0 where
  pub stored : length s.skipped ≤ ratchet_max_skip
  pub ns_small : s.ns < 2 ^ 32
  pub nr_small : s.nr < 2 ^ 32
  pub pn_small : s.pn < 2 ^ 32

-- A call that keeps the bounds, however it ends.
record Keeps {A : Type 0} (m : Action A) : Type 0 where
  kept : (s : Session) → IsBounded s → IsBounded (m s).1

continue-IsBounded :
    {A B : Type 0} (f : A → Action B) (r : Result A × Session)
    → ((a : A) → Keeps (f a))
    → IsBounded r.1
    → IsBounded (continue f r).1
continue-IsBounded f (ok a, s) k b = (k a).kept s b
continue-IsBounded f (err e, s) k b = b

>>=-Keeps :
    {A B : Type 0} {m : Action A} {f : A → Action B}
    → Keeps m
    → ((a : A) → Keeps (f a))
    → Keeps (m >>= f)
>>=-Keeps {m = m} {f = f} km kf = record {
  kept = λ s b. continue-IsBounded f (m s) kf (km.kept s b);
}

length-remove_at : (l : List SkippedKey) (i : ℕ) → length (remove_at l i) ≤ length l
unfolding remove_at
length-remove_at [] i = omega arith
length-remove_at (e ∷ l) zero = omega arith
length-remove_at (e ∷ l) (suc i) = omega (arith, length-remove_at l i)

-- At most k keys more, and the sending side untouched.
record Grew (s t : Session) (k : ℕ) : Type 0 where
  size : length t.skipped ≤ length s.skipped + k
  nr_small : t.nr < 2 ^ 32
  same_ns : t.ns ≡ s.ns
  same_pn : t.pn ≡ s.pn

skip_round-Grew : (p : Primitives) (s : Session) → s.nr < 2 ^ 32 → Grew s (skip_round p s).1 1
unfolding skip_round
skip_round-Grew p s b = elim (Option-cases (kdf_ck p s.ckr)) [
  | inl failed ↦ rw failed (omega arith)
  | inr ((ck, mk), done) ↦ rw done (omega (arith, length-append s.skipped))
]

continue-Grew :
    (f : Unit {0} → Action (Unit {0})) (r : Result (Unit {0}) × Session) (s : Session) (k : ℕ)
    → Grew s r.1 1
    → ((t : Session) → t.nr < 2 ^ 32 → Grew t (f tt t).1 k)
    → Grew s (continue f r).1 (suc k)
continue-Grew f (ok a, t) s k g later = omega (arith, later t g.nr_small)
continue-Grew f (err e, t) s k g later = omega arith

skip_loop-Grew :
    (p : Primitives) (rounds : ℕ) (s : Session)
    → s.nr < 2 ^ 32
    → Grew s (skip_loop p rounds s).1 rounds
unfolding skip_loop
skip_loop-Grew p zero s b = omega arith
skip_loop-Grew p (suc rounds) s b =
    continue-Grew (λ _. skip_loop p rounds) (skip_round p s) s rounds (skip_round-Grew p s b)
      (λ t bt. skip_loop-Grew p rounds t bt)

skip_message_keys-Keeps : (p : Primitives) (until : ℕ) → Keeps (skip_message_keys p until)
unfolding skip_message_keys
skip_message_keys-Keeps p until = record {
  kept = λ s b. ground (arith, skip_loop-Grew p (until - s.nr) s b.nr_small);
}

kem_keygen-Keeps : (p : Primitives) (draw : ℕ) → Keeps (kem_keygen p draw)
unfolding kem_keygen
kem_keygen-Keeps p draw = record {
  kept = λ s b. elim (Option-cases (p.kem_keypair draw)) [
    | inl failed ↦ rw failed b
    | inr ((pk, sk), done) ↦ rw done (omega arith)
  ];
}

receive_kem-Keeps : (p : Primitives) (full : Option KemHeader) → Keeps (receive_kem p full)
unfolding receive_kem
receive_kem-Keeps p none = record { kept = λ s b. b }
receive_kem-Keeps p (some h) = record { kept = λ s b. ground arith }

receive_chain-Keeps : (p : Primitives) → Keeps (receive_chain p)
unfolding receive_chain
receive_chain-Keeps p = record { kept = λ s b. ground arith }

rotate_dh-Keeps : (p : Primitives) (draw : ℕ) → Keeps (rotate_dh p draw)
unfolding rotate_dh
rotate_dh-Keeps p draw = record { kept = λ s b. ground arith }

encapsulate-Keeps : (p : Primitives) (draw : ℕ) → Keeps (encapsulate p draw)
unfolding encapsulate
encapsulate-Keeps p draw = record { kept = λ s b. ground arith }

send_chain-Keeps : (p : Primitives) → Keeps (send_chain p)
unfolding send_chain
send_chain-Keeps p = record { kept = λ s b. ground arith }

receive_chain_he-Keeps : (p : Primitives) → Keeps (receive_chain_he p)
unfolding receive_chain_he
receive_chain_he-Keeps p = record { kept = λ s b. ground arith }

send_chain_he-Keeps : (p : Primitives) → Keeps (send_chain_he p)
unfolding send_chain_he
send_chain_he-Keeps p = record { kept = λ s b. ground arith }

send_kem-Keeps : (p : Primitives) (draws : Draws) → Keeps (send_kem p draws)
unfolding send_kem kem_keygen encapsulate
send_kem-Keeps p draws = record { kept = λ s b. ground arith }

start_epoch-Keeps : (dh : Bytes) → Keeps (modify (start_epoch dh))
start_epoch-Keeps dh = record { kept = λ s b. omega arith }

promote-Keeps : Keeps (modify promote)
promote-Keeps = record { kept = λ s b. omega arith }

dh_ratchet-Keeps :
    (p : Primitives) (draws : Draws) (dh : Bytes) (full : Option KemHeader)
    → Keeps (dh_ratchet p draws dh full)
unfolding dh_ratchet
dh_ratchet-Keeps p draws dh full = >>=-Keeps (start_epoch-Keeps dh) λ _.
    >>=-Keeps (receive_kem-Keeps p full) λ _. >>=-Keeps (receive_chain-Keeps p) λ _.
      >>=-Keeps (rotate_dh-Keeps p draws.dh)
        λ _. >>=-Keeps (send_kem-Keeps p draws) λ _. send_chain-Keeps p

dh_ratchet_he-Keeps : (p : Primitives) (draw : ℕ) (dh : Bytes) → Keeps (dh_ratchet_he p draw dh)
unfolding dh_ratchet_he
dh_ratchet_he-Keeps p draw dh = >>=-Keeps (start_epoch-Keeps dh) λ _. >>=-Keeps promote-Keeps λ _.
    >>=-Keeps (receive_chain_he-Keeps p)
      λ _. >>=-Keeps (rotate_dh-Keeps p draw) λ _. send_chain_he-Keeps p

open_next-Keeps : (p : Primitives) (n : ℕ) (hdr ct : Bytes) → Keeps (open_next_in_place p n hdr ct)
unfolding open_next_in_place
open_next-Keeps p n hdr ct = record { kept = λ s b. ground arith }

receive_message-Keeps :
    (p : Primitives) (n : ℕ) (hdr ct : Bytes) → Keeps (receive_message_in_place p n hdr ct)
unfolding receive_message_in_place
receive_message-Keeps p n hdr ct =
    >>=-Keeps (skip_message_keys-Keeps p n) (λ _. open_next-Keeps p n hdr ct)

receive_skipped-Keeps :
    (p : Primitives) (i : ℕ) (e : SkippedKey) (hdr ct : Bytes)
    → Keeps (receive_skipped_in_place p i e hdr ct)
unfolding receive_skipped_in_place skipped_remove
receive_skipped-Keeps p i e hdr ct = record {
  kept = λ s b. ground (arith, length-remove_at s.skipped i);
}

new_epoch-Keeps :
    (p : Primitives) (draws : Draws) (hdr dh : Bytes) (pn : ℕ) → Keeps (new_epoch p draws hdr dh pn)
unfolding new_epoch
new_epoch-Keeps p draws hdr dh pn = record {
  kept = λ s b. elim (Bool-cases (not s.have_dhr || not (bytes_eq dh s.dhr))) [
    | inl new ↦ rw new (
        (>>=-Keeps (skip_message_keys-Keeps p pn)
            (λ _. dh_ratchet-Keeps p draws dh (kem_header hdr))).kept
          s b)
    | inr old ↦ rw old b
  ];
}

decrypt_fields-Keeps :
    (p : Primitives) (draws : Draws) (hdr aad ct : Bytes) (f : Bytes × ℕ × ℕ)
    → Keeps (decrypt_fields_in_place p draws hdr aad ct f)
unfolding decrypt_fields_in_place
decrypt_fields-Keeps p draws hdr aad ct (dh, pn, n) = record {
  kept = λ s b. elim (Option-cases (skipped_find s dh n)) [
    | inl missing ↦
        rw (missing, decrypt_fields_in_place)
          ((>>=-Keeps (new_epoch-Keeps p draws hdr dh pn)
              (λ _. receive_message-Keeps p n aad ct)).kept
            s b)
    | inr ((i, e), found) ↦
        rw (found, decrypt_fields_in_place) ((receive_skipped-Keeps p i e aad ct).kept s b)
  ];
}

receive_next_epoch-Keeps :
    (p : Primitives) (draws : Draws) (hpt hdr ct : Bytes)
    → Keeps (receive_next_epoch_in_place p draws hpt hdr ct)
unfolding receive_next_epoch_in_place
receive_next_epoch-Keeps p draws hpt hdr ct =
    let (dh, pn, n) = he_hdr_parse hpt in
    >>=-Keeps (skip_message_keys-Keeps p pn)
      λ _. >>=-Keeps (dh_ratchet_he-Keeps p draws.dh dh) λ _. receive_message-Keeps p n hdr ct

decrypt_opened-Keeps :
    (p : Primitives) (draws : Draws) (hdr ct : Bytes) (entry : Option (ℕ × SkippedKey))
    (current next : Option Bytes)
    → Keeps (decrypt_opened_in_place p draws hdr ct entry current next)
unfolding decrypt_opened_in_place
decrypt_opened-Keeps p draws hdr ct (some (i, e)) current next = receive_skipped-Keeps p i e hdr ct
decrypt_opened-Keeps p draws hdr ct none (some hpt) next =
    let (dh, pn, n) = he_hdr_parse hpt in receive_message-Keeps p n hdr ct
decrypt_opened-Keeps p draws hdr ct none none (some hpt) =
    receive_next_epoch-Keeps p draws hpt hdr ct
decrypt_opened-Keeps p draws hdr ct none none none = record { kept = λ s b. b }

commit-IsBounded :
    {A : Type 0} (s : Session) (r : Result A × Session)
    → IsBounded s
    → IsBounded r.1
    → IsBounded (commit s r).1
unfolding commit
commit-IsBounded s (ok a, w) bs bw = bw
commit-IsBounded s (err e, w) bs bw = bs

encrypt_clear-Keeps : (p : Primitives) (pt : Bytes) → Keeps (ratchet_encrypt_clear p pt)
unfolding ratchet_encrypt_clear
encrypt_clear-Keeps p pt = record { kept = λ s b. ground arith }

encrypt_he-Keeps : (p : Primitives) (draw : ℕ) (pt : Bytes) → Keeps (ratchet_encrypt_he p draw pt)
unfolding ratchet_encrypt_he
encrypt_he-Keeps p draw pt = record { kept = λ s b. ground arith }

decrypt-IsBounded :
    (p : Primitives) (draws : Draws) (hdr ct : Bytes) → Keeps (ratchet_decrypt p draws hdr ct)
unfolding decrypt_copy_in_place decrypt_copy_he_in_place
decrypt-IsBounded p draws hdr ct = record {
  kept = λ s b. rw (ratchet_decrypt-commit p draws hdr ct s) (
      ground (
        arith,
        commit-IsBounded s (decrypt_copy_he_in_place p draws (take 68 hdr) ct s) b
            ((decrypt_opened-Keeps p draws (take 68 hdr) ct _ _ _).kept s b),
        commit-IsBounded s (decrypt_copy_in_place p draws hdr ct s) b
            ((decrypt_fields-Keeps p draws hdr _ ct _).kept s b),
      ));
}

-- Every call of `ratchet_decrypt`, accepted or refused, with or without header encryption and
-- post-quantum part, keeps the skipped-key store within its 1000 entries and the counters within
-- 32 bits; so does every call of `ratchet_encrypt`.
pub session-IsBounded :
    (p : Primitives) (draws : Draws) (draw : ℕ) (hdr ct pt : Bytes) (s : Session)
    → IsBounded s
    → IsBounded (ratchet_decrypt p draws hdr ct s).1 × IsBounded (ratchet_encrypt p draw pt s).1
unfolding ratchet_encrypt
session-IsBounded p draws draw hdr ct pt s b = (
  (decrypt-IsBounded p draws hdr ct).kept s b,
  ground (arith, (encrypt_clear-Keeps p pt).kept s b, (encrypt_he-Keeps p draw pt).kept s b),
)
