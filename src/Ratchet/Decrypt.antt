-- ===== src/Ratchet/Decrypt.antt =====
-- Decryption in ratchet.c: `ratchet_decrypt` and `ratchet_decrypt_he`, which step a working copy and
-- write it back to the session with a `memcpy` on each path that ends well.
use qsafe.Base.{ℕ, not, Option, none, some, if◌then◌else◌, take, Bytes}
use qsafe.Crypto.{Error, Result, ok, err, Primitives}
use qsafe.Ratchet.State.{SkippedKey, Session, Action, fail, gets, attempt, modify, fail_if}
use qsafe.Ratchet.Kdf.{kdf_ck}
use qsafe.Ratchet.Header.{ratchet_hdr_size_of, hdr_parse, he_hdr_parse}
use qsafe.Ratchet.Skip.{skipped_find, skipped_remove, skip_message_keys}
use qsafe.Ratchet.Step.{Draws, dh_ratchet_he}
use qsafe.Ratchet.Message.{
  he_header_open, open_with_mk, lift, count_received, advance_receiving, header_fits, new_epoch,
  find_skipped_he,
}

-- The session of the caller and the working copy, `*s` and `*w`.
abbrev pub Pair : Type 0
Pair = Session × Session

-- A stretch of the call, which may change both.
abbrev pub Working : Type 0 → Type 0
Working A = Pair → Result A × Pair

abbrev pub go_on : {A B : Type 0} → (A → Working B) → Result A × Pair → Result B × Pair
go_on f (ok a, sw) = f a sw
go_on f (err e, sw) = (err e, sw)

infixl 5 ◌>>=◌ ◌>>◌
abbrev pub ◌>>=◌ : {A B : Type 0} → Working A → (A → Working B) → Working B
m >>= f = λ sw. go_on f (m sw)

abbrev pub ◌>>◌ : {A B : Type 0} → Working A → Working B → Working B
m >> k = m >>= λ _. k

abbrev pub give : {A : Type 0} → A → Working A
give a sw = (ok a, sw)

-- A step of the working copy.
abbrev pub on_copy : {A : Type 0} → Action A → Working A
on_copy f (s, w) = ((f w).0, (s, (f w).1))

-- `memcpy(s, w, sizeof *w)`
abbrev pub store_back : Working (Unit {0})
store_back (s, w) = (ok tt, (w, w))

-- Step 4 of both variants: derive the key of message n and open; count only if it authenticates,
-- and only then write the copy back.
unfoldable pub open_next : Primitives → ℕ → Bytes → Bytes → Working Bytes
unfolding open_with_mk
open_next p n hdr ct = do
  ready ← on_copy (gets (λ w. w.have_ckr))
  on_copy (fail_if (not ready) Error.integrity)
  ckr ← on_copy (gets (λ w. w.ckr))
  (ck, mk) ← on_copy (attempt (kdf_ck p ckr) Error.crypto)
  on_copy (modify (advance_receiving ck))
  pt ← on_copy (lift (open_with_mk p mk n hdr ct))
  on_copy (modify count_received)
  store_back
  give pt

-- Steps 3 and 4: skip up to n, then open.
unfoldable pub receive_message : Primitives → ℕ → Bytes → Bytes → Working Bytes
unfolding open_next
receive_message p n hdr ct = do on_copy (skip_message_keys p n); open_next p n hdr ct

-- A stored key opens the message; it is then removed, and the copy written back.
unfoldable pub receive_skipped : Primitives → ℕ → SkippedKey → Bytes → Bytes → Working Bytes
unfolding open_with_mk
receive_skipped p i e hdr ct = do
  pt ← on_copy (lift (open_with_mk p e.mk e.n hdr ct))
  on_copy (modify (skipped_remove i))
  store_back
  give pt

-- Steps 1 to 4 for a header with these fields, of which the first `hlen` bytes are the AAD.
unfoldable pub decrypt_fields :
    Primitives → Draws → Bytes → Bytes → Bytes → Bytes × ℕ × ℕ → Working Bytes
unfolding receive_skipped receive_message new_epoch
decrypt_fields p draws hdr aad ct (dh, pn, n) (s, w) = elim (skipped_find w dh n) [
  | some (i, e) ↦ receive_skipped p i e aad ct (s, w)
  | none ↦ (do on_copy (new_epoch p draws hdr dh pn); receive_message p n aad ct) (s, w)
]

unfoldable pub decrypt_copy : Primitives → Draws → Bytes → Bytes → Working Bytes
unfolding decrypt_fields
decrypt_copy p draws hdr ct =
    decrypt_fields p draws hdr (take (ratchet_hdr_size_of hdr) hdr) ct (hdr_parse hdr)

-- Under the next header key the message begins a new epoch.
unfoldable pub receive_next_epoch : Primitives → Draws → Bytes → Bytes → Bytes → Working Bytes
unfolding receive_message
receive_next_epoch p draws hpt hdr ct =
    let (dh, pn, n) = he_hdr_parse hpt in
    do
      on_copy (skip_message_keys p pn)
      on_copy (dh_ratchet_he p draws.dh dh)
      receive_message p n hdr ct

-- Which key opened the header: a stored entry's, the current header key, or else the next one.
unfoldable pub decrypt_opened :
    Primitives
    → Draws
    → Bytes
    → Bytes
    → Option (ℕ × SkippedKey)
    → Option Bytes
    → Option Bytes
    → Working Bytes
unfolding receive_skipped receive_message receive_next_epoch
decrypt_opened p draws hdr ct (some (i, e)) current next = receive_skipped p i e hdr ct
decrypt_opened p draws hdr ct none (some hpt) next =
    let (dh, pn, n) = he_hdr_parse hpt in receive_message p n hdr ct
decrypt_opened p draws hdr ct none none (some hpt) = receive_next_epoch p draws hpt hdr ct
decrypt_opened p draws hdr ct none none none = on_copy (fail Error.integrity)

unfoldable pub decrypt_copy_he : Primitives → Draws → Bytes → Bytes → Working Bytes
unfolding find_skipped_he decrypt_opened he_header_open
decrypt_copy_he p draws hdr ct (s, w) =
    decrypt_opened p draws hdr ct (find_skipped_he p hdr w.skipped)
      (if w.header.have_hkr then he_header_open p w.header.hkr hdr else none)
      (if w.header.have_nhkr then he_header_open p w.header.nhkr hdr else none) (s, w)

-- `done:` frees the copy, and the caller has what stands in `*s`.
abbrev pub release : {A : Type 0} → Result A × Pair → Result A × Session
release (r, (s, w)) = (r, s)

-- `memcpy(w, s, sizeof *w)` makes the copy.
unfoldable pub ratchet_decrypt : Primitives → Draws → Bytes → Bytes → Action Bytes
unfolding decrypt_copy decrypt_copy_he header_fits
ratchet_decrypt p draws hdr ct s =
    if s.he
    then release (decrypt_copy_he p draws (take 68 hdr) ct (s, s))
    else if not (header_fits s hdr)
    then (err Error.invalid_input, s)
    else release (decrypt_copy p draws hdr ct (s, s))
