-- ===== src/Ratchet/Delivery.antt =====
-- Delivery of the messages of one chain of ratchet.c: in any order, each of them once.
use qsafe.Base.{
  ℕ, ◌+◌, ◌%◌, ◌^◌, ◌≤◌, ◌<◌, ◌≡◌, inl, inr, refl, ◌∙◌, sym, ap, Bool, true, false, ◌||◌, Option,
  none, some, leb, ◌==◌, if◌then◌else◌, length, Bytes, Option-cases, IsU32, arith, dec_lt,
}
use qsafe.Crypto.{Error, ok, err, Primitives, IsAead}
use qsafe.Ratchet.State.{SkippedKey, Session, >>=-ok, >>=-err}
use qsafe.Ratchet.Skip.{find_entry, skipped_remove, skip_too_far, skip_message_keys}
use qsafe.Ratchet.Step.{Draws}
use qsafe.Ratchet.Message.{seal_body, open_with_mk, count_received, advance_receiving}
use qsafe.Ratchet.Decrypt.{ratchet_decrypt}
use qsafe.Ratchet.InPlace.{
  open_next_in_place, receive_message_in_place, receive_skipped_in_place, decrypt_copy_in_place,
  commit, ratchet_decrypt-clear,
}
use qsafe.Ratchet.Store.{stored_key, stored_key-find, stored_key-none, find_entry-n, remove_found}
use qsafe.Ratchet.Chain.{
  Computes, chain_key, message_key, step-chain_key, stored_none, Follows, between,
  skip_message_keys_lem,
}
use qsafe.Ratchet.Frames.{open-seal, chain_header, fits, decrypt_fresh, decrypt_stored}

abbrev pub held : Option Bytes → Bool
held none = false
held (some k) = true

-- The session can still open message m of the chain: it has not reached it, or has stored its key.
unfoldable pub awaits : Bytes → Session → ℕ → Bool
awaits dh s m = leb s.nr m || held (stored_key dh m s.skipped)

-- Whether message m is awaited when the head moves from `lo` to behind n, by what is stored.
pub awaits_ahead :
    (lo n m hi : ℕ) (k : Bytes) (before after : Option Bytes)
    → lo ≤ n
    → hi ≡ n + 1
    → (lo ≤ m → before ≡ none)
    → after ≡ (if between lo n m then some k else before)
    → (leb hi m || held after) ≡ (if m == n then false else (leb lo m || held before))
awaits_ahead lo n m hi k none after le e fresh ea = ground arith
awaits_ahead lo n m hi k (some x) after le e fresh ea = elim (dec_lt m lo) [
  | yes lt ↦ ground arith
  | no ge ↦ absurd (ground (arith, fresh (omega arith)))
]

skip_message_keys-behind :
    (p : Primitives) (n : ℕ) (s : Session)
    → s.have_ckr ≡ true
    → n < s.nr
    → skip_message_keys p n s ≡ (err Error.integrity, s)
unfolding skip_message_keys
skip_message_keys-behind p n s ready behind = ground arith

module _ (p : Primitives) (aead : IsAead p) (step : Bytes → Bytes × Bytes)
    (computes : Computes p step) (ck₀ : Bytes) (dh : Bytes) where
  abbrev key : ℕ → Bytes
  key = message_key step ck₀

  abbrev Tracks : Session → Type 0
  Tracks s = Follows step ck₀ dh s

  -- Delivered: the session follows the chain on, and no longer awaits message n but still the others.
  record Delivered (n : ℕ) (s s' : Session) : Type 0 where
    follows : Tracks s'
    rest : (m : ℕ) → awaits dh s' m ≡ (if m == n then false else awaits dh s m)

  abbrev moved_on : ℕ → Session → Session
  moved_on n t = count_received (advance_receiving (chain_key step ck₀ (n + 1)) t)

  open_next_lem :
      (n : ℕ) (hdr ct pt : Bytes) (t : Session)
      → t.have_ckr ≡ true
      → t.ckr ≡ chain_key step ck₀ n
      → open_with_mk p (key n) n hdr ct ≡ ok pt
      → open_next_in_place p n hdr ct t ≡ (ok pt, moved_on n t)
  unfolding open_next_in_place
  open_next_lem n hdr ct pt t ready at opened =
      ground (arith, computes (chain_key step ck₀ n), step-chain_key step ck₀ n, opened)

  moved_on-Tracks :
      (n : ℕ) (t : Session) → Tracks t → t.nr ≡ n → n + 1 < 2 ^ 32 → Tracks (moved_on n t)
  moved_on-Tracks n t f e lt =
      let nr_is : (t.nr + 1) % 2 ^ 32 ≡ n + 1 = omega arith in
      record {
        clear = f.clear;
        classical = f.classical;
        peer_known = f.peer_known;
        peer = f.peer;
        ready = f.ready;
        at = ap (chain_key step ck₀) (sym nr_is);
        small = omega arith;
        distinct = f.distinct;
        stored = λ m k h. ground (arith, f.stored m k h);
      }

  -- A message at or past the head of the chain: the keys between are stored, and the head moves on.
  receive_ahead :
      (n : ℕ) (hdr ct pt : Bytes) (s : Session)
      → Tracks s
      → s.nr ≤ n
      → n + 1 < 2 ^ 32
      → skip_too_far s n ≡ false
      → open_with_mk p (key n) n hdr ct ≡ ok pt
      → (s' : Session) × (receive_message_in_place p n hdr ct s ≡ (ok pt, s')) × Delivered n s s'
  unfolding receive_message_in_place awaits
  receive_ahead n hdr ct pt s f le lt near opened =
      let (t, run, sk) = skip_message_keys_lem step ck₀ p computes dh s n f le (omega arith) near in
      let at_n : t.ckr ≡ chain_key step ck₀ n = sk.follows.at ∙ ap (chain_key step ck₀) sk.next in
      let nr_is : (t.nr + 1) % 2 ^ 32 ≡ n + 1 = omega (arith, sk.next) in
      (
        moved_on n t,
        >>=-ok (skip_message_keys p n) (λ _. open_next_in_place p n hdr ct) run
            ∙ open_next_lem n hdr ct pt t sk.follows.ready at_n opened,
        record {
          follows = moved_on-Tracks n t sk.follows sk.next lt;
          rest = λ m.
              awaits_ahead s.nr n m _ (key m) _ _ le nr_is (stored_none step ck₀ dh s m f)
                (sk.holds m);
        },
      )

  -- A message whose key is stored: its entry is removed.
  receive_stored :
      (n : ℕ) (hdr ct pt : Bytes) (s : Session) {i : ℕ} {e : SkippedKey}
      → Tracks s
      → find_entry dh n s.skipped ≡ some (i, e)
      → open_with_mk p (key n) n hdr ct ≡ ok pt
      → (receive_skipped_in_place p i e hdr ct s ≡ (ok pt, skipped_remove i s))
        × Delivered n s (skipped_remove i s)
  unfolding receive_skipped_in_place skipped_remove awaits
  receive_stored n hdr ct pt s {i} {e} f found opened =
      let (num, is_stored) = find_entry-n dh n s.skipped found in
      let (is_key, below) = f.stored n e.mk is_stored in
      let (seen, distinct) = remove_found dh n s.skipped f.distinct found in
      (
        rw (num, is_key, opened) refl,
        record {
          follows = record {
            clear = f.clear;
            classical = f.classical;
            peer_known = f.peer_known;
            peer = f.peer;
            ready = f.ready;
            at = f.at;
            small = f.small;
            distinct = distinct;
            stored = λ m k h. ground (arith, seen m, f.stored m k);
          };
          rest = λ m. ground (arith, seen m);
        },
      )

  decrypt_clear :
      (n pn : ℕ) (draws : Draws) (ct : Bytes) (s : Session)
      → length dh ≡ 32
      → IsU32 pn
      → IsU32 n
      → Tracks s
      → ratchet_decrypt p draws (chain_header dh pn n) ct s
        ≡ commit s (decrypt_copy_in_place p draws (chain_header dh pn n) ct s)
  decrypt_clear n pn draws ct s size hp hn f =
      ratchet_decrypt-clear p draws (chain_header dh pn n) ct s f.clear
        (fits dh pn n size hp hn s f.classical)

  -- The working copy after a message that is still awaited.
  copy-Delivered :
      (n pn : ℕ) (draws : Draws) (ct pt : Bytes) (s : Session)
      → length dh ≡ 32
      → IsU32 pn
      → n + 1 < 2 ^ 32
      → Tracks s
      → awaits dh s n ≡ true
      → (s.nr ≤ n → skip_too_far s n ≡ false)
      → open_with_mk p (key n) n (chain_header dh pn n) ct ≡ ok pt
      → (s' : Session) × (decrypt_copy_in_place p draws (chain_header dh pn n) ct s ≡ (ok pt, s'))
        × Delivered n s s'
  unfolding awaits
  copy-Delivered n pn draws ct pt s size hp lt f waits near opened =
      elim (Option-cases (stored_key dh n s.skipped)) [
        | inl missing ↦
            let ahead : s.nr ≤ n = ground arith in
            let (s', run, d) =
              receive_ahead n (chain_header dh pn n) ct pt s f ahead lt (near ahead) opened in
            (
              s',
              decrypt_fresh dh pn n size hp (omega arith) p draws ct s f.peer_known f.peer
                    (stored_key-none dh n s.skipped missing)
                  ∙ run,
              d,
            )
        | inr (k, e) ↦
            let (i, x, found, _) = stored_key-find dh n s.skipped e in
            let (run, d) = receive_stored n (chain_header dh pn n) ct pt s f found opened in
            (
              skipped_remove i s,
              decrypt_stored dh pn n size hp (omega arith) p draws ct s found ∙ run,
              d,
            )
      ]

  -- Delivery in any order, each message once. Take a classical session without header encryption
  -- that follows the chain of the ratchet key dh, and a message n, not the last of the 32 bits, that it
  -- still awaits: one at or past the head of the chain and within the skip limits, or an earlier one
  -- whose key it stored. Let HKDF and AES-GCM behave as documented.
  -- What was sealed with that message's key under its header decrypts to the plaintext; afterwards
  -- the session follows the chain on, no longer awaits n, and awaits every other message as before.
  pub decrypt-delivers :
      (n pn : ℕ) (draws : Draws) (ct pt : Bytes) (s : Session)
      → length dh ≡ 32
      → IsU32 pn
      → n + 1 < 2 ^ 32
      → Tracks s
      → awaits dh s n ≡ true
      → (s.nr ≤ n → skip_too_far s n ≡ false)
      → seal_body p (key n) n (chain_header dh pn n) pt ≡ some ct
      → (s' : Session) × (ratchet_decrypt p draws (chain_header dh pn n) ct s ≡ (ok pt, s'))
        × Tracks s'
        × ((m : ℕ) → awaits dh s' m ≡ (if m == n then false else awaits dh s m))
  unfolding commit
  decrypt-delivers n pn draws ct pt s size hp lt f waits near sealed =
      let opened = open-seal p (key n) n (chain_header dh pn n) pt aead sealed in
      let (s', run, d) = copy-Delivered n pn draws ct pt s size hp lt f waits near opened in
      (
        s',
        decrypt_clear n pn draws ct s size hp (omega arith) f ∙ ap (commit s) run,
        d.follows,
        d.rest,
      )

  -- Replay. A session that follows the chain and no longer awaits message n refuses every frame
  -- with that message's header, whatever its body, with the integrity error, and is not changed.
  pub decrypt-replay :
      (n pn : ℕ) (draws : Draws) (ct : Bytes) (s : Session)
      → length dh ≡ 32
      → IsU32 pn
      → IsU32 n
      → Tracks s
      → awaits dh s n ≡ false
      → ratchet_decrypt p draws (chain_header dh pn n) ct s ≡ (err Error.integrity, s)
  unfolding commit awaits receive_message_in_place
  decrypt-replay n pn draws ct s size hp hn f spent =
      let behind : n < s.nr = ground arith in
      let missing : stored_key dh n s.skipped ≡ none =
        ground (arith, Option-cases (stored_key dh n s.skipped)) in
      let refused : skip_message_keys p n s ≡ (err Error.integrity, s) =
        skip_message_keys-behind p n s f.ready behind in
      decrypt_clear n pn draws ct s size hp hn f
      ∙ ap (commit s) (
          decrypt_fresh dh pn n size hp hn p draws ct s f.peer_known f.peer
            (stored_key-none dh n s.skipped missing)
          ∙ >>=-err (skip_message_keys p n) (λ _. open_next_in_place p n (chain_header dh pn n) ct)
              refused)
