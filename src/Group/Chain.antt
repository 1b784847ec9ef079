-- ===== src/Group/Chain.antt =====
-- One receiving chain of group.c against its description: what a receiver that follows the chain
-- of a sender holds, and what finding the key of a message does to it.
use qsafe.Base.{
  ℕ, zero, suc, ◌+◌, ◌-◌, ◌%◌, ◌^◌, ◌≤◌, ◌<◌, ◌≡◌, refl, ◌∙◌, sym, ap, Bool, true, false, ◌||◌,
  none, some, ◌>>=◌, leb, ◌==◌, if◌then◌else◌, Bytes, Bool-cases, Option-cases, inl, inr, arith,
}
use qsafe.Crypto.{Error, ok, err, Primitives}
use qsafe.Ratchet.Chain.{chain_key, message_key, step-chain_key, between}
use qsafe.Ratchet.Delivery.{held, awaits_ahead}
use qsafe.Group.State.{Receiver, g_kdf_ck, group_round, group_skip_loop, group_skip_too_far}
use qsafe.Group.Message.{Located, locate, locate_stored, take_key, drop_hit}
use qsafe.Group.Store.{
  group_stored, group_stored-append, group_stored-find, group_stored-none, Unrepeated,
  append-Unrepeated, group_skipped_remove-found,
}

-- `g_kdf_ck` succeeds and computes `step`: HKDF does not fail on these sizes.
abbrev pub GroupComputes : Primitives → (Bytes → Bytes × Bytes) → Type 0
GroupComputes p step = (ck : Bytes) → g_kdf_ck p ck ≡ some (step ck)

-- The receiver can still open message m: it has not reached it, or has stored its key.
unfoldable pub group_awaits : Receiver → ℕ → Bool
group_awaits r m = leb r.index m || held (group_stored m r.skipped)

-- A message that is no longer awaited has no key.
pub locate_spent :
    (p : Primitives) (n : ℕ) (r : Receiver)
    → group_awaits r n ≡ false
    → locate p n r ≡ err Error.integrity
unfolding locate locate_stored group_awaits
locate_spent p n r spent =
    let missing : group_stored n r.skipped ≡ none =
      ground (arith, Option-cases (group_stored n r.skipped)) in
    ground (arith, group_stored-none n r.skipped missing)

module _ (step : Bytes → Bytes × Bytes) (ck₀ : Bytes) where
  -- A receiver that follows the chain that begins with `ck₀`: its chain key is that of the next
  -- message, and each key that it has stored is that of an earlier message.
  pub record Tracks (r : Receiver) : Type 0 where
    pub at : r.ck ≡ chain_key step ck₀ r.index
    pub small : r.index < 2 ^ 32
    pub unrepeated : Unrepeated r.skipped
    pub stored :
        (m : ℕ) (k : Bytes)
        → group_stored m r.skipped ≡ some k
        → (k ≡ message_key step ck₀ m) × (m < r.index)

  pub unreached : (r : Receiver) (m : ℕ) → Tracks r → r.index ≤ m → group_stored m r.skipped ≡ none
  unreached r m t le = elim (Option-cases (group_stored m r.skipped)) [
    | inl missing ↦ missing
    | inr (k, e) ↦ absurd (omega (arith, (t.stored m k e).1))
  ]

  abbrev keys_at : ℕ → Bytes × Bytes
  keys_at i = (chain_key step ck₀ (i + 1), message_key step ck₀ i)

  round_holds :
      (r : Receiver) (m : ℕ)
      → Tracks r
      → group_stored m (group_round r (keys_at r.index)).skipped
        ≡ (if m == r.index then some (message_key step ck₀ m) else group_stored m r.skipped)
  round_holds r m t =
      let seen =
        group_stored-append m r.index (message_key step ck₀ r.index) r.skipped
          (unreached r r.index t (omega arith)) in
      elim (Bool-cases (m == r.index)) [
        | inl e ↦
            let e' : m ≡ r.index = ground arith in
            seen
            ∙ ap
                (λ i.
                  if m == r.index then some (message_key step ck₀ i) else group_stored m r.skipped)
                (sym e')
        | inr ne ↦ seen ∙ ground (arith, ne)
      ]

  round-Tracks :
      (r : Receiver) → Tracks r → r.index + 1 < 2 ^ 32 → Tracks (group_round r (keys_at r.index))
  round-Tracks r t lt =
      let next : (r.index + 1) % 2 ^ 32 ≡ r.index + 1 = omega arith in
      record {
        at = ap (chain_key step ck₀) (sym next);
        small = omega arith;
        unrepeated =
            append-Unrepeated r.index _ r.skipped t.unrepeated
              (unreached r r.index t (omega arith));
        stored = λ m k e. ground (arith, next, round_holds r m t, t.stored m k);
      }

  -- What moving on to message `hi` does to a receiver that follows the chain.
  record MovedOn (r w : Receiver) (hi : ℕ) : Type 0 where
    follows : Tracks w
    next : w.index ≡ hi
    same_pk : w.sig_pk ≡ r.sig_pk
    holds :
        (m : ℕ)
        → group_stored m w.skipped ≡ (
            if between r.index hi m
            then some (message_key step ck₀ m)
            else group_stored m r.skipped)

  module _ (p : Primitives) (computes : GroupComputes p step) where
    keys_next : (r : Receiver) → Tracks r → g_kdf_ck p r.ck ≡ some (keys_at r.index)
    keys_next r t =
        computes r.ck
        ∙ ap (λ (ck : Bytes). some (step ck)) t.at
        ∙ ap some (step-chain_key step ck₀ r.index)

    skip_loop_lem :
        (rounds : ℕ) (r : Receiver) (hi : ℕ)
        → Tracks r
        → r.index + rounds ≡ hi
        → hi < 2 ^ 32
        → (w : Receiver) × (group_skip_loop p rounds r ≡ some w) × MovedOn r w hi
    unfolding group_skip_loop
    skip_loop_lem zero r hi t e lt = (
      r,
      refl,
      record { follows = t; next = omega arith; same_pk = refl; holds = λ m. ground arith },
    )
    skip_loop_lem (suc rounds) r hi t e lt =
        let r' = group_round r (keys_at r.index) in
        let next : r'.index ≡ r.index + 1 = omega arith in
        let (w, run, mo) =
          skip_loop_lem rounds r' hi (round-Tracks r t (omega arith)) (omega arith) lt in
        (
          w,
          ap (λ o. o >>= λ keys. group_skip_loop p rounds (group_round r keys)) (keys_next r t)
              ∙ run,
          record {
            follows = mo.follows;
            next = mo.next;
            same_pk = mo.same_pk;
            holds = λ m. ground (arith, mo.holds m, round_holds r m t, next);
          },
        )

    -- Finding the key of a message that is still awaited: the key is the message's, and what would
    -- be committed follows the chain on, awaits the message no more, and every other as before.
    pub record Finds (n : ℕ) (r : Receiver) (l : Located) : Type 0 where
      pub is_key : l.mk ≡ message_key step ck₀ n
      pub follows : Tracks (drop_hit l.hit l.copy)
      pub same_pk : (drop_hit l.hit l.copy).sig_pk ≡ r.sig_pk
      pub rest :
          (m : ℕ)
          → group_awaits (drop_hit l.hit l.copy) m ≡ (if m == n then false else group_awaits r m)

    locate_ahead :
        (n : ℕ) (r : Receiver)
        → Tracks r
        → r.index ≤ n
        → n + 1 < 2 ^ 32
        → group_skip_too_far r n ≡ false
        → (l : Located) × (locate p n r ≡ ok l) × Finds n r l
    unfolding locate take_key group_awaits
    locate_ahead n r t le lt near =
        let (w, run, mo) = skip_loop_lem (n - r.index) r n t (omega arith) (omega arith) in
        let next : (n + 1) % 2 ^ 32 ≡ n + 1 = omega arith in
        let w' = record w { ck = chain_key step ck₀ (n + 1); index = (n + 1) % 2 ^ 32 } in
        let keys : g_kdf_ck p w.ck ≡ some (keys_at n) =
          keys_next w mo.follows ∙ ap (λ i. some (keys_at i)) mo.next in
        (
          record { mk = message_key step ck₀ n; copy = w'; hit = none },
          ground (arith, run, keys),
          record {
            is_key = refl;
            follows = record {
              at = ap (chain_key step ck₀) (sym next);
              small = omega arith;
              unrepeated = mo.follows.unrepeated;
              stored = λ m k e. ground (arith, next, mo.next, mo.follows.stored m k);
            };
            same_pk = mo.same_pk;
            rest = λ m.
                awaits_ahead r.index n m _ (message_key step ck₀ m) _ _ le next (unreached r m t)
                  (mo.holds m);
          },
        )

    locate_behind :
        (n : ℕ) (r : Receiver) {k : Bytes}
        → Tracks r
        → group_stored n r.skipped ≡ some k
        → (l : Located) × (locate p n r ≡ ok l) × Finds n r l
    unfolding locate locate_stored group_awaits
    locate_behind n r {k} t h =
        let (i, e, found, mk_is) = group_stored-find n r.skipped h in
        let (is_key, below) = t.stored n k h in
        let (seen, distinct) = group_skipped_remove-found n r.skipped t.unrepeated found in
        (
          record { mk = e.mk; copy = r; hit = some i },
          ground (arith, found),
          record {
            is_key = mk_is ∙ is_key;
            follows = record {
              at = t.at;
              small = t.small;
              unrepeated = distinct;
              stored = λ m k' e'. ground (arith, seen m, t.stored m k');
            };
            same_pk = refl;
            rest = λ m. ground (arith, seen m);
          },
        )

    pub locate_awaited :
        (n : ℕ) (r : Receiver)
        → Tracks r
        → n + 1 < 2 ^ 32
        → group_awaits r n ≡ true
        → (r.index ≤ n → group_skip_too_far r n ≡ false)
        → (l : Located) × (locate p n r ≡ ok l) × Finds n r l
    unfolding group_awaits
    locate_awaited n r t lt waits near = elim (Option-cases (group_stored n r.skipped)) [
      | inl missing ↦
          let ahead : r.index ≤ n = ground arith in locate_ahead n r t ahead lt (near ahead)
      | inr (k, e) ↦ locate_behind n r t e
    ]
