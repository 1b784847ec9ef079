-- ===== src/Ratchet/Chain.antt =====
-- One receiving chain of ratchet.c against its description: the i-th chain key and message key, and
-- what a session that follows the chain holds.
use qsafe.Base.{
  ℕ, zero, suc, ◌+◌, ◌-◌, ◌%◌, ◌^◌, ◌≤◌, ◌<◌, ◌≡◌, inl, inr, refl, ◌∙◌, sym, ap, Bool, true, false,
  ◌&&◌, not, none, some, [], ◌∷◌, ◌++◌, ltb, ◌==◌, if◌then◌else◌, length, length-append, Bytes,
  bytes_eq, bytes_eq_refl, Bool-cases, Option-cases, arith,
}
use qsafe.Crypto.{ok, Primitives}
use qsafe.Ratchet.State.{Session, >>=-ok}
use qsafe.Ratchet.Kdf.{kdf_ck}
use qsafe.Ratchet.Skip.{
  skip_round, skip_loop, skip_message_keys, after_round, skipped_entry, skip_too_far,
}
use qsafe.Ratchet.Store.{stored_key, stored_key-append, Distinct, append-Distinct}

-- `kdf_ck` succeeds and computes `step`: HKDF does not fail on these sizes.
abbrev pub Computes : Primitives → (Bytes → Bytes × Bytes) → Type 0
Computes p step = (ck : Bytes) → kdf_ck p ck ≡ some (step ck)

-- Message m has been skipped over between `lo` and `hi`.
abbrev pub between : ℕ → ℕ → ℕ → Bool
between lo hi m = not (ltb m lo) && ltb m hi

module _ (step : Bytes → Bytes × Bytes) (ck₀ : Bytes) where
  -- The chain key and the message key of message i of the chain that begins with `ck₀`.
  unfoldable pub chain_key : ℕ → Bytes
  chain_key zero = ck₀
  chain_key (suc i) = (step (chain_key i)).0

  pub message_key : ℕ → Bytes
  unfolding chain_key
  message_key i = (step (chain_key i)).1

  pub chain_key-suc : (i : ℕ) → chain_key (i + 1) ≡ (step (chain_key i)).0
  unfolding chain_key
  chain_key-suc i = let e : i + 1 ≡ suc i = omega arith in rw e refl

  pub step-chain_key : (i : ℕ) → step (chain_key i) ≡ (chain_key (i + 1), message_key i)
  unfolding message_key
  step-chain_key i = ap (λ (t : Bytes). (t, (step (chain_key i)).1)) (sym (chain_key-suc i))

  -- A session, without header encryption or post-quantum part, that follows the chain of the
  -- ratchet key `dh`: its chain key is that of the next message, and each key that it has stored
  -- for `dh` is that of an earlier message.
  pub record Follows (dh : Bytes) (s : Session) : Type 0 where
    pub clear : s.he ≡ false
    pub classical : s.pq ≡ false
    pub peer_known : s.have_dhr ≡ true
    pub peer : s.dhr ≡ dh
    pub ready : s.have_ckr ≡ true
    pub at : s.ckr ≡ chain_key s.nr
    pub small : s.nr < 2 ^ 32
    pub distinct : Distinct dh s.skipped
    pub stored :
        (m : ℕ) (k : Bytes) → stored_key dh m s.skipped ≡ some k → (k ≡ message_key m) × (m < s.nr)

  pub stored_none :
      (dh : Bytes) (s : Session) (m : ℕ)
      → Follows dh s
      → s.nr ≤ m
      → stored_key dh m s.skipped ≡ none
  stored_none dh s m f le = elim (Option-cases (stored_key dh m s.skipped)) [
    | inl missing ↦ missing
    | inr (k, e) ↦ absurd (omega (arith, (f.stored m k e).1))
  ]

  -- What the session holds of message m after one more key was stored.
  held_after :
      (dh : Bytes) (s : Session) (m : ℕ)
      → Follows dh s
      → stored_key dh m (s.skipped ++ (skipped_entry s (message_key s.nr) ∷ []))
        ≡ (if m == s.nr then some (message_key m) else stored_key dh m s.skipped)
  held_after dh s m f =
      let same : bytes_eq s.dhr dh ≡ true = rw f.peer (bytes_eq_refl dh) in
      elim (Bool-cases (m == s.nr)) [
        | inl e ↦
            let e' : m ≡ s.nr = ground arith in
            rw e' (
              ground (
                arith,
                stored_key-append dh s.nr s.skipped (skipped_entry s (message_key s.nr)),
                stored_none dh s s.nr f (omega arith),
              ))
        | inr ne ↦
            ground (arith, stored_key-append dh m s.skipped (skipped_entry s (message_key s.nr)))
      ]

  module _ (p : Primitives) (computes : Computes p step) where
    skip_round_lem :
        (dh : Bytes) (s : Session)
        → Follows dh s
        → skip_round p s ≡ (ok tt, after_round s (step (chain_key s.nr)).0 (message_key s.nr))
    unfolding skip_round message_key
    skip_round_lem dh s f = rw (computes s.ckr, f.at) refl

    round-Follows :
        (dh : Bytes) (s : Session)
        → Follows dh s
        → s.nr + 1 < 2 ^ 32
        → Follows dh (after_round s (step (chain_key s.nr)).0 (message_key s.nr))
    round-Follows dh s f lt =
        let step_nr : (s.nr + 1) % 2 ^ 32 ≡ s.nr + 1 = omega arith in
        record {
          clear = f.clear;
          classical = f.classical;
          peer_known = f.peer_known;
          peer = f.peer;
          ready = f.ready;
          at = rw step_nr (sym (chain_key-suc s.nr));
          small = omega arith;
          distinct =
              append-Distinct dh s.skipped _ f.distinct (stored_none dh s s.nr f (omega arith));
          stored = λ m k e. rw step_nr (ground (arith, held_after dh s m f, f.stored m k));
        }

    -- What moving on to message `hi` does to a session that follows the chain.
    pub record Skipped (dh : Bytes) (s s' : Session) (hi : ℕ) : Type 0 where
      pub follows : Follows dh s'
      pub next : s'.nr ≡ hi
      pub grown : length s'.skipped + s.nr ≡ length s.skipped + hi
      pub holds :
          (m : ℕ)
          → stored_key dh m s'.skipped
            ≡ (if between s.nr hi m then some (message_key m) else stored_key dh m s.skipped)

    skip_loop_lem :
        (rounds : ℕ) (dh : Bytes) (s : Session) (hi : ℕ)
        → Follows dh s
        → s.nr + rounds ≡ hi
        → hi < 2 ^ 32
        → (s' : Session) × (skip_loop p rounds s ≡ (ok tt, s')) × Skipped dh s s' hi
    unfolding skip_loop
    skip_loop_lem zero dh s hi f e lt = (
      s,
      refl,
      record { follows = f; next = omega arith; grown = omega arith; holds = λ m. ground arith },
    )
    skip_loop_lem (suc rounds) dh s hi f e lt =
        let t = after_round s (step (chain_key s.nr)).0 (message_key s.nr) in
        let ft = round-Follows dh s f (omega arith) in
        let nr_t : t.nr ≡ s.nr + 1 = omega arith in
        let (s', run, sk) = skip_loop_lem rounds dh t hi ft (omega arith) lt in
        (
          s',
          >>=-ok (skip_round p) (λ _. skip_loop p rounds) (skip_round_lem dh s f) ∙ run,
          record {
            follows = sk.follows;
            next = sk.next;
            grown = omega (
              arith,
              sk.grown,
              length-append s.skipped (skipped_entry s (message_key s.nr) ∷ []),
            );
            holds = λ m. ground (arith, sk.holds m, held_after dh s m f, nr_t);
          },
        )

    skip_message_keys-run :
        (s : Session) (n : ℕ)
        → s.have_ckr ≡ true
        → s.nr ≤ n
        → skip_too_far s n ≡ false
        → skip_message_keys p n s ≡ skip_loop p (n - s.nr) s
    unfolding skip_message_keys
    skip_message_keys-run s n ready le near = ground arith

    -- Skipping stores exactly the keys of the messages between. Take a classical session without
    -- header encryption that follows the chain of the ratchet key dh, with an HKDF that always gives
    -- the step of the chain, and a message n < 2^32 at or past the head of the chain and within the
    -- skip limits. `skip_message_keys` succeeds and leaves a session that follows the chain with n as
    -- its head; it has stored, under dh and each number from the old head to n, n excluded, the chain's
    -- key of that message, and what it holds under dh for every other number is unchanged.
    pub skip_message_keys_lem :
        (dh : Bytes) (s : Session) (n : ℕ)
        → Follows dh s
        → s.nr ≤ n
        → n < 2 ^ 32
        → skip_too_far s n ≡ false
        → (s' : Session) × (skip_message_keys p n s ≡ (ok tt, s')) × Skipped dh s s' n
    skip_message_keys_lem dh s n f le lt near =
        let (s', run, sk) = skip_loop_lem (n - s.nr) dh s n f (omega arith) lt in
        (s', skip_message_keys-run s n f.ready le near ∙ run, sk)
