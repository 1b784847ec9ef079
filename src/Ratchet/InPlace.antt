-- ===== src/Ratchet/InPlace.antt =====
-- Decryption in ratchet.c seen from its caller: what the call does to a session when it is stepped in
-- place, and that the working copy keeps or drops exactly that.
use qsafe.Base.{
  ◌≡◌, ◌∙◌, refl, ap₂, true, Option-cases, inl, inr, ℕ, false, not, Option, none, some,
  if◌then◌else◌, take, Bytes,
}
use qsafe.Crypto.{Error, Result, ok, err, Primitives}
use qsafe.Ratchet.State.{
  SkippedKey, Session, Action, pure, fail, gets, attempt, modify, fail_if, continue, ◌>>=◌, ◌>>◌,
}
use qsafe.Ratchet.Kdf.{kdf_ck}
use qsafe.Ratchet.Header.{ratchet_hdr_size_of, hdr_parse, he_hdr_parse}
use qsafe.Ratchet.Skip.{skipped_find, skipped_remove, skip_message_keys}
use qsafe.Ratchet.Step.{Draws, dh_ratchet_he}
use qsafe.Ratchet.Message.{
  he_header_open, open_with_mk, lift, count_received, advance_receiving, header_fits, new_epoch,
  find_skipped_he,
}
use qsafe.Ratchet.Decrypt.{
  Working, go_on, on_copy, store_back, give, release, open_next, receive_message, receive_skipped,
  decrypt_fields, decrypt_copy, receive_next_epoch, decrypt_opened, decrypt_copy_he,
  ratchet_decrypt,
}

-- Step 4 of both variants: derive the key of message n and open; count only if it authenticates.
unfoldable pub open_next_in_place : Primitives → ℕ → Bytes → Bytes → Action Bytes
unfolding open_with_mk
open_next_in_place p n hdr ct = do
  ready ← gets (λ s. s.have_ckr)
  fail_if (not ready) Error.integrity
  ckr ← gets (λ s. s.ckr)
  (ck, mk) ← attempt (kdf_ck p ckr) Error.crypto
  modify (advance_receiving ck)
  pt ← lift (open_with_mk p mk n hdr ct)
  modify count_received
  pure pt

-- Steps 3 and 4: skip up to n, then open.
unfoldable pub receive_message_in_place : Primitives → ℕ → Bytes → Bytes → Action Bytes
unfolding open_next_in_place
receive_message_in_place p n hdr ct = do skip_message_keys p n; open_next_in_place p n hdr ct

-- A stored key opens the message, and is then removed.
unfoldable pub receive_skipped_in_place : Primitives → ℕ → SkippedKey → Bytes → Bytes → Action Bytes
unfolding open_with_mk
receive_skipped_in_place p i e hdr ct = do
  pt ← lift (open_with_mk p e.mk e.n hdr ct)
  modify (skipped_remove i)
  pure pt

-- Steps 1 to 4 for a header with these fields, of which the first `hlen` bytes are the AAD.
unfoldable pub decrypt_fields_in_place :
    Primitives → Draws → Bytes → Bytes → Bytes → Bytes × ℕ × ℕ → Action Bytes
unfolding receive_skipped_in_place receive_message_in_place new_epoch
decrypt_fields_in_place p draws hdr aad ct (dh, pn, n) s = elim (skipped_find s dh n) [
  | some (i, e) ↦ receive_skipped_in_place p i e aad ct s
  | none ↦ (do new_epoch p draws hdr dh pn; receive_message_in_place p n aad ct) s
]

unfoldable pub decrypt_copy_in_place : Primitives → Draws → Bytes → Bytes → Action Bytes
unfolding decrypt_fields_in_place
decrypt_copy_in_place p draws hdr ct s =
    decrypt_fields_in_place p draws hdr (take (ratchet_hdr_size_of hdr) hdr) ct (hdr_parse hdr) s

-- Under the next header key the message begins a new epoch.
unfoldable pub receive_next_epoch_in_place :
    Primitives → Draws → Bytes → Bytes → Bytes → Action Bytes
unfolding receive_message_in_place
receive_next_epoch_in_place p draws hpt hdr ct =
    let (dh, pn, n) = he_hdr_parse hpt in
    do skip_message_keys p pn; dh_ratchet_he p draws.dh dh; receive_message_in_place p n hdr ct

-- Which key opened the header: a stored entry's, the current header key, or else the next one.
unfoldable pub decrypt_opened_in_place :
    Primitives
    → Draws
    → Bytes
    → Bytes
    → Option (ℕ × SkippedKey)
    → Option Bytes
    → Option Bytes
    → Action Bytes
unfolding receive_skipped_in_place receive_message_in_place receive_next_epoch_in_place
decrypt_opened_in_place p draws hdr ct (some (i, e)) current next =
    receive_skipped_in_place p i e hdr ct
decrypt_opened_in_place p draws hdr ct none (some hpt) next =
    let (dh, pn, n) = he_hdr_parse hpt in receive_message_in_place p n hdr ct
decrypt_opened_in_place p draws hdr ct none none (some hpt) =
    receive_next_epoch_in_place p draws hpt hdr ct
decrypt_opened_in_place p draws hdr ct none none none = fail Error.integrity

unfoldable pub decrypt_copy_he_in_place : Primitives → Draws → Bytes → Bytes → Action Bytes
unfolding find_skipped_he decrypt_opened_in_place he_header_open
decrypt_copy_he_in_place p draws hdr ct s =
    decrypt_opened_in_place p draws hdr ct (find_skipped_he p hdr s.skipped)
      (if s.header.have_hkr then he_header_open p s.header.hkr hdr else none)
      (if s.header.have_nhkr then he_header_open p s.header.nhkr hdr else none) s

-- All of it on success, and nothing on an error.
unfoldable pub commit : {A : Type 0} → Session → Result A × Session → Result A × Session
commit s (ok a, w) = (ok a, w)
commit s (err e, w) = (err e, s)

-- A stretch that leaves the caller what stepping in place leaves, if it ends well, and the old
-- session if it does not.
record Saves {A : Type 0} (g : Working A) (f : Action A) : Type 0 where
  saves : (s w : Session) → release (g (s, w)) ≡ commit s (f w)

after_step :
    {A B : Type 0} (s : Session) (r : Result A × Session) (g : A → Working B) (f : A → Action B)
    → ((a : A) → Saves (g a) (f a))
    → release (go_on g (r.0, (s, r.1))) ≡ commit s (continue f r)
unfolding commit
after_step s (ok a, w) g f next = (next a).saves s w
after_step s (err e, w) g f next = refl

on_copy-Saves :
    {A B : Type 0} (m : Action A) (g : A → Working B) (f : A → Action B)
    → ((a : A) → Saves (g a) (f a))
    → Saves (λ sw. go_on g (on_copy m sw)) (λ s. continue f (m s))
on_copy-Saves m g f next = record { saves = λ s w. after_step s (m w) g f next }

-- The copy is written back, and the call returns.
store_back-Saves :
    {A : Type 0} (a : A)
    → Saves (λ sw. go_on (λ (_ : Unit {0}). give a) (store_back sw)) (λ w. (ok a, w))
unfolding commit
store_back-Saves a = record { saves = λ s w. refl }

open_next-Saves :
    (p : Primitives) (n : ℕ) (hdr ct : Bytes)
    → Saves (open_next p n hdr ct) (open_next_in_place p n hdr ct)
unfolding open_next open_next_in_place
open_next-Saves p n hdr ct = on_copy-Saves (gets (λ w. w.have_ckr)) _ _ λ ready.
    on_copy-Saves (fail_if (not ready) Error.integrity) _ _ λ _.
      on_copy-Saves (gets (λ w. w.ckr)) _ _ λ ckr.
        on_copy-Saves (attempt (kdf_ck p ckr) Error.crypto) _ _ λ keys.
          on_copy-Saves (modify (advance_receiving keys.0)) _ _ λ _.
            on_copy-Saves (lift (open_with_mk p keys.1 n hdr ct)) _ _
              λ pt. on_copy-Saves (modify count_received) _ _ λ _. store_back-Saves pt

receive_message-Saves :
    (p : Primitives) (n : ℕ) (hdr ct : Bytes)
    → Saves (receive_message p n hdr ct) (receive_message_in_place p n hdr ct)
unfolding receive_message receive_message_in_place
receive_message-Saves p n hdr ct =
    on_copy-Saves (skip_message_keys p n) _ _ λ _. open_next-Saves p n hdr ct

receive_skipped-Saves :
    (p : Primitives) (i : ℕ) (e : SkippedKey) (hdr ct : Bytes)
    → Saves (receive_skipped p i e hdr ct) (receive_skipped_in_place p i e hdr ct)
unfolding receive_skipped receive_skipped_in_place
receive_skipped-Saves p i e hdr ct =
    on_copy-Saves (lift (open_with_mk p e.mk e.n hdr ct)) _ _
      λ pt. on_copy-Saves (modify (skipped_remove i)) _ _ λ _. store_back-Saves pt

decrypt_fields-Saves :
    (p : Primitives) (draws : Draws) (hdr aad ct : Bytes) (f : Bytes × ℕ × ℕ)
    → Saves (decrypt_fields p draws hdr aad ct f) (decrypt_fields_in_place p draws hdr aad ct f)
unfolding decrypt_fields decrypt_fields_in_place
decrypt_fields-Saves p draws hdr aad ct (dh, pn, n) = record { saves = λ s w. by_entry s w }
  where
    by_entry :
        (s w : Session)
        → release (decrypt_fields p draws hdr aad ct (dh, pn, n) (s, w))
          ≡ commit s (decrypt_fields_in_place p draws hdr aad ct (dh, pn, n) w)
    by_entry s w = elim (Option-cases (skipped_find w dh n)) [
      | inl missing ↦
          rw (missing, decrypt_fields, decrypt_fields_in_place)
            ((on_copy-Saves (new_epoch p draws hdr dh pn) _ _
                λ _. receive_message-Saves p n aad ct).saves
              s w)
      | inr ((i, e), found) ↦
          rw (found, decrypt_fields, decrypt_fields_in_place)
            ((receive_skipped-Saves p i e aad ct).saves s w)
    ]

receive_next_epoch-Saves :
    (p : Primitives) (draws : Draws) (hpt hdr ct : Bytes)
    → Saves (receive_next_epoch p draws hpt hdr ct) (receive_next_epoch_in_place p draws hpt hdr ct)
unfolding receive_next_epoch receive_next_epoch_in_place
receive_next_epoch-Saves p draws hpt hdr ct =
    let (dh, pn, n) = he_hdr_parse hpt in
    on_copy-Saves (skip_message_keys p pn) _ _
      λ _. on_copy-Saves (dh_ratchet_he p draws.dh dh) _ _ λ _. receive_message-Saves p n hdr ct

decrypt_opened-Saves :
    (p : Primitives) (draws : Draws) (hdr ct : Bytes) (entry : Option (ℕ × SkippedKey))
    (current next : Option Bytes)
    → Saves
        (decrypt_opened p draws hdr ct entry current next)
        (decrypt_opened_in_place p draws hdr ct entry current next)
unfolding decrypt_opened decrypt_opened_in_place commit
decrypt_opened-Saves p draws hdr ct (some (i, e)) current next = receive_skipped-Saves p i e hdr ct
decrypt_opened-Saves p draws hdr ct none (some hpt) next =
    let (dh, pn, n) = he_hdr_parse hpt in receive_message-Saves p n hdr ct
decrypt_opened-Saves p draws hdr ct none none (some hpt) =
    receive_next_epoch-Saves p draws hpt hdr ct
decrypt_opened-Saves p draws hdr ct none none none = record { saves = λ s w. refl }

-- The call as the caller sees it.
pub ratchet_decrypt-commit :
    (p : Primitives) (draws : Draws) (hdr ct : Bytes) (s : Session)
    → ratchet_decrypt p draws hdr ct s ≡ (
        if s.he
        then commit s (decrypt_copy_he_in_place p draws (take 68 hdr) ct s)
        else if not (header_fits s hdr)
        then (err Error.invalid_input, s)
        else commit s (decrypt_copy_in_place p draws hdr ct s))
unfolding ratchet_decrypt decrypt_copy decrypt_copy_in_place decrypt_copy_he
    decrypt_copy_he_in_place
ratchet_decrypt-commit p draws hdr ct s =
    ap₂
      (λ x y.
        if s.he then x else if not (header_fits s hdr) then (err Error.invalid_input, s) else y)
      ((decrypt_opened-Saves p draws (take 68 hdr) ct _ _ _).saves s s)
      ((decrypt_fields-Saves p draws hdr _ ct _).saves s s)

pub ratchet_decrypt-clear :
    (p : Primitives) (draws : Draws) (hdr ct : Bytes) (s : Session)
    → s.he ≡ false
    → header_fits s hdr ≡ true
    → ratchet_decrypt p draws hdr ct s ≡ commit s (decrypt_copy_in_place p draws hdr ct s)
ratchet_decrypt-clear p draws hdr ct s clear fits =
    ratchet_decrypt-commit p draws hdr ct s
    ∙ ap₂
        (λ a b.
          if a
          then commit s (decrypt_copy_he_in_place p draws (take 68 hdr) ct s)
          else if not b
          then (err Error.invalid_input, s)
          else commit s (decrypt_copy_in_place p draws hdr ct s))
        clear fits
