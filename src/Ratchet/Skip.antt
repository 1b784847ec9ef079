-- ===== src/Ratchet/Skip.antt =====
-- The skipped-key store of ratchet.c: `skipped_find`, `skipped_remove` and `skip_message_keys`.
use qsafe.Base.{
  ℕ, zero, suc, ◌+◌, ◌-◌, ◌%◌, ◌^◌, Bool, ◌&&◌, ◌||◌, not, Option, none, some, List, [], ◌∷◌, ◌++◌,
  ltb, ◌==◌, if◌then◌else◌, length, replicate, Bytes, bytes_eq,
}
use qsafe.Crypto.{Error, ok, err, Primitives}
use qsafe.Ratchet.State.{
  SkippedKey, Session, Action, pure, gets, attempt, modify, ◌>>=◌, ◌>>◌, ratchet_max_skip,
}
use qsafe.Ratchet.Kdf.{kdf_ck}

-- A place is counted from the head of a list that the loop has reached.
abbrev pub shift_place : Option (ℕ × SkippedKey) → Option (ℕ × SkippedKey)
shift_place none = none
shift_place (some (i, e)) = some (suc i, e)

-- The first entry for a ratchet key and a message number: its place and the entry.
unfoldable pub find_entry : Bytes → ℕ → List SkippedKey → Option (ℕ × SkippedKey)
find_entry dh_pub n [] = none
find_entry dh_pub n (e ∷ rest) =
    let later = shift_place (find_entry dh_pub n rest) in
    if e.n == n && bytes_eq e.dh_pub dh_pub then some (0, e) else later

unfoldable pub skipped_find : Session → Bytes → ℕ → Option (ℕ × SkippedKey)
unfolding find_entry
skipped_find s dh_pub n = find_entry dh_pub n s.skipped

-- `memmove` of the entries behind `skipped[i]` over it.
unfoldable pub remove_at : List SkippedKey → ℕ → List SkippedKey
remove_at [] i = []
remove_at (e ∷ rest) zero = rest
remove_at (e ∷ rest) (suc i) = e ∷ remove_at rest i

unfoldable pub skipped_remove : ℕ → Session → Session
unfolding remove_at
skipped_remove i s = record s { skipped = remove_at s.skipped i }

-- The entry that one round of the loop stores. The header key is copied only under header
-- encryption; without it the field is not read.
abbrev pub skipped_entry : Session → Bytes → SkippedKey
skipped_entry s mk = record {
  dh_pub = s.dhr;
  n = s.nr;
  mk = mk;
  hk = if s.he then s.header.hkr else replicate 32 0;
}

abbrev pub after_round : Session → Bytes → Bytes → Session
after_round s ck mk = record s {
  ckr = ck;
  skipped = s.skipped ++ (skipped_entry s mk ∷ []);
  nr = (s.nr + 1) % 2 ^ 32;
}

-- One round: derive the key, and count it only if that succeeded.
unfoldable pub skip_round : Primitives → Action (Unit {0})
skip_round p = do
  ck ← gets (λ s. s.ckr)
  (ck', mk) ← attempt (kdf_ck p ck) Error.crypto
  modify (λ s. after_round s ck' mk)

-- `while (s->nr < until)`, which makes `until - nr` rounds.
unfoldable pub skip_loop : Primitives → ℕ → Action (Unit {0})
unfolding skip_round
skip_loop p zero = pure tt
skip_loop p (suc rounds) = do skip_round p; skip_loop p rounds

-- The `DoS guard`: `nr <= until` stands here.
abbrev pub skip_too_far : Session → ℕ → Bool
skip_too_far s until =
    ltb ratchet_max_skip (until - s.nr) || ltb ratchet_max_skip (length s.skipped + (until - s.nr))

unfoldable pub skip_message_keys : Primitives → ℕ → Action (Unit {0})
unfolding skip_loop
skip_message_keys p until s =
    if not s.have_ckr
    then (ok tt, s)
    else if ltb until s.nr
    then (err Error.integrity, s)
    else if skip_too_far s until
    then (err Error.invalid_input, s)
    else skip_loop p (until - s.nr) s
