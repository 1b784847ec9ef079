-- ===== src/Merkle/Growth.antt =====
-- What the consistency proof of merkle.c does for one range, at a full subtree and at a left half.
use native.Mathlib.Nat.{pow-suc}
use qsafe.Base.{
  ℕ, suc, ◌+◌, ◌-◌, ◌*◌, ◌/◌, ◌^◌, ◌≤◌, ◌<◌, ◌≡◌, refl, ◌∙◌, sym, ap, ap₂, Bool, true, false, ◌&&◌,
  some, List, [], ◌∷◌, ◌++◌, append-nil, append_assoc, length, length-append, Bytes, arith,
}
use qsafe.Merkle.{split, mth, hash_children}
use qsafe.Merkle.Consistency.{Walk, is_pow2, shift_odd, subproof, walk}
use qsafe.Merkle.Powers.{
  pow-positive, pow-lt_inv, pow-le_inv, quotient_least, times_cancel, double_place, quotient_step,
  is_pow2_power, shift_odd-ones,
}
use qsafe.Merkle.Prefix.{seeded, step_left, walk_snoc, subproof-kept, subproof-whole, subproof-left}
use qsafe.Merkle.Tree.{InRange, mth-join, mth_total}

abbrev pub walk_at : ℕ → ℕ → Bytes → Bytes → Walk
walk_at fn sn fr sr = record { fn = fn; sn = sn; fr = fr; sr = sr }

module _ (sha256 : Bytes → Bytes) (leaves : List Bytes) (n : ℕ) where
  -- The verifier's variables before the loop, for a prefix of `m` leaves.
  abbrev pub start : ℕ → Bytes → Walk
  start m seed = record {
    fn = (shift_odd 64 (m - 1) (n - 1)).0;
    sn = (shift_odd 64 (m - 1) (n - 1)).1;
    fr = seed;
    sr = seed;
  }

  -- What the proof for one range does: `m` of its leaves were there before. The range is one of the
  -- positions of a level `e` of the tree, and the loop arrives there with the two roots.
  pub record Grown (depth lo hi m : ℕ) (b : Bool) : Type 0 where
    pub e : ℕ
    pub q : ℕ
    pub position : lo ≡ q * 2 ^ e
    pub fits : hi - lo ≤ 2 ^ e
    pub tight : 2 ^ e < 2 * (hi - lo)
    pub old : Bytes
    pub new : Bytes
    pub seed : Bytes
    pub rest : List Bytes
    pub skips : Bool
    pub skips_is : skips ≡ (b && is_pow2 m)
    pub seed_is : skips ≡ true → seed ≡ old
    pub is_old : mth sha256 depth leaves lo (lo + m) ≡ some old
    pub is_new : mth sha256 depth leaves lo hi ≡ some new
    pub appended :
        (pre : List Bytes)
        → subproof sha256 depth leaves lo hi m b pre ≡ some (pre ++ seeded skips seed rest)
    pub walked :
        walk sha256 rest (start (lo + m) seed)
        ≡ some (record { fn = q; sn = (n - 1) / 2 ^ e; fr = old; sr = new })
    pub short : length rest ≤ e

  -- The largest full subtree of the old tree's last leaf, where the proof begins.
  pub Grown-whole :
      (depth lo i q : ℕ) (b : Bool)
      → lo ≡ q * 2 * 2 ^ i
      → i < 64
      → InRange leaves lo (lo + 2 ^ i) depth
      → Grown (suc depth) lo (lo + 2 ^ i) (2 ^ i) b
  unfolding walk
  Grown-whole depth lo i q b at small r =
      let positive = pow-positive i in
      let size : 2 ^ i ≡ lo + 2 ^ i - lo = omega arith in
      let (h, eh) = mth_total sha256 leaves depth lo (lo + 2 ^ i) r in
      let last : lo + 2 ^ i - 1 ≡ q * 2 * 2 ^ i + (2 ^ i - 1) = omega arith in
      let shifted : shift_odd 64 (lo + 2 ^ i - 1) (n - 1) ≡ (q * 2, (n - 1) / 2 ^ i) =
        ap (λ t. shift_odd 64 t (n - 1)) last ∙ shift_odd-ones i 64 q (n - 1) small in
      record {
        e = i;
        q = q * 2;
        position = at;
        fits = omega arith;
        tight = omega arith;
        old = h;
        new = h;
        seed = h;
        rest = [];
        skips = b;
        skips_is = and_true b (is_pow2 (2 ^ i)) (is_pow2_power i);
        seed_is = λ _. refl;
        is_old = eh;
        is_new = eh;
        appended = appends b size eh;
        walked = ap (λ (p : ℕ × ℕ). some (walk_at p.0 p.1 h h)) shifted;
        short = omega arith;
      }
    where
      and_true : (a c : Bool) → c ≡ true → a ≡ (a && c)
      and_true true c h = sym h
      and_true false c h = refl

      appends :
          (b : Bool) {h : Bytes}
          → 2 ^ i ≡ lo + 2 ^ i - lo
          → mth sha256 (suc depth) leaves lo (lo + 2 ^ i) ≡ some h
          → (pre : List Bytes)
          → subproof sha256 (suc depth) leaves lo (lo + 2 ^ i) (2 ^ i) b pre
            ≡ some (pre ++ seeded b h [])
      appends true size eh pre =
          subproof-kept sha256 leaves depth lo (lo + 2 ^ i) (2 ^ i) pre size
          ∙ ap some (sym (append-nil pre))
      appends false size eh pre =
          subproof-whole sha256 leaves depth lo (lo + 2 ^ i) (2 ^ i) pre size eh

  pub seeded_snoc :
      (pre : List Bytes) (skips : Bool) (seed : Bytes) (rest : List Bytes) (h : Bytes)
      → (pre ++ seeded skips seed rest) ++ (h ∷ []) ≡ pre ++ seeded skips seed (rest ++ (h ∷ []))
  seeded_snoc pre true seed rest h = append_assoc pre rest (h ∷ [])
  seeded_snoc pre false seed rest h = append_assoc pre (seed ∷ rest) (h ∷ [])

  -- What a split at 2^i says of a range.
  pub record SplitAt (lo hi i q : ℕ) : Type 0 where
    pub splits : split (hi - lo) ≡ some (2 ^ i)
    pub below : 2 ^ i < hi - lo
    pub above : hi - lo ≤ 2 ^ suc i
    pub place : lo ≡ q * 2 * 2 ^ i
    pub inside : hi ≤ n
    pub small : i < 64

  pub Grown-left :
      (depth lo hi m i q : ℕ) (b : Bool) {h : Bytes}
      → SplitAt lo hi i q
      → m ≤ 2 ^ i
      → Grown depth lo (lo + 2 ^ i) m b
      → mth sha256 depth leaves (lo + 2 ^ i) hi ≡ some h
      → mth sha256 depth leaves lo (lo + m) ≡ mth sha256 (suc depth) leaves lo (lo + m)
      → Grown (suc depth) lo hi m b
  Grown-left depth lo hi m i q b {h} s le c eh deeper =
      let positive = pow-positive i in
      let double = pow-suc 2 i in
      let two : 2 ≤ hi - lo = omega (arith, s.below) in
      let low = pow-le_inv i c.e (omega (arith, c.fits)) in
      let high = pow-lt_inv c.e (suc i) (omega (arith, c.tight)) in
      let e_is : c.e ≡ i = omega arith in
      let same_place : c.q * 2 ^ i ≡ q * 2 * 2 ^ i =
        ap (λ t. c.q * 2 ^ t) (sym e_is) ∙ sym c.position ∙ s.place in
      let q_is : c.q ≡ q * 2 = times_cancel c.q (q * 2) (2 ^ i) positive same_place in
      let y = (n - 1) / 2 ^ i in
      let next : (q * 2 + 1) * 2 ^ i ≡ lo + 2 ^ i =
        distributes (q * 2) (2 ^ i) ∙ ap (λ t. t + 2 ^ i) (sym s.place) in
      let far : q * 2 + 1 ≤ y =
        quotient_least (q * 2 + 1) (n - 1) (2 ^ i) positive (omega (arith, s.below, s.inside)) in
      let here : walk sha256 c.rest (start (lo + m) c.seed) ≡ some (walk_at (q * 2) y c.old c.new) =
        c.walked ∙ ap₂ (λ u v. some (walk_at u ((n - 1) / 2 ^ v) c.old c.new)) q_is e_is in
      record {
        e = suc i;
        q = q;
        position = s.place ∙ double_place q i;
        fits = s.above;
        tight = omega (arith, s.below);
        old = c.old;
        new = hash_children sha256 c.new h;
        seed = c.seed;
        rest = c.rest ++ (h ∷ []);
        skips = c.skips;
        skips_is = c.skips_is;
        seed_is = c.seed_is;
        is_old = sym deeper ∙ c.is_old;
        is_new = mth-join sha256 leaves depth lo hi two s.splits c.is_new eh;
        appended = λ pre.
            subproof-left sha256 leaves depth lo hi m b pre (omega (arith, s.below)) s.splits le
              (c.appended pre) eh
            ∙ ap some (seeded_snoc pre c.skips c.seed c.rest h);
        walked =
            walk_snoc sha256 c.rest (start (lo + m) c.seed) h here (
              step_left sha256 q y c.old c.new h (λ z. absurd (omega arith))
                (λ z. absurd (omega arith)))
            ∙ ap (λ t. some (walk_at q t c.old (hash_children sha256 c.new h)))
                (quotient_step (n - 1) i);
        short = rw length-append (omega (arith, c.short));
      }
    where
      distributes : (a d : ℕ) → (a + 1) * d ≡ a * d + d
      distributes a d = omega arith
