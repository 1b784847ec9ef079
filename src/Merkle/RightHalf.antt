-- ===== src/Merkle/RightHalf.antt =====
-- What the consistency proof of merkle.c does at a right half.
use native.Mathlib.Nat.{pow-suc, mul_assoc}
use qsafe.Base.{
  ℕ, suc, ◌+◌, ◌-◌, ◌*◌, ◌/◌, ◌^◌, ◌≤◌, ◌<◌, ◌≡◌, ◌⊎◌, inl, inr, refl, ◌∙◌, sym, ap, Bool, true,
  false, ◌&&◌, ◌||◌, ◌==◌, some, List, [], ◌∷◌, ◌++◌, length-append, Bytes, arith,
}
use qsafe.Merkle.{split, mth, hash_children}
use qsafe.Merkle.Consistency.{is_pow2, is_odd, walk}
use qsafe.Merkle.Powers.{
  pow-positive, pow-lt_inv, pow-le_inv, quotient_least, times_cancel, double_place, pow_add,
  split_at, quotient_is, quotient_step, quotient_add, is_pow2_between,
}
use qsafe.Merkle.Prefix.{step_right, walk_snoc, subproof-right}
use qsafe.Merkle.Tree.{mth-join}
use qsafe.Merkle.Growth.{walk_at, start, Grown, SplitAt, seeded_snoc}

module _ (sha256 : Bytes → Bytes) (leaves : List Bytes) (n : ℕ) where
  -- Why the loop takes the hash from the left at a right half.
  joins_left :
      (lo hi i q j : ℕ) (depth m : ℕ)
      → SplitAt sha256 leaves n lo hi i q
      → (hi - lo ≡ 2 ^ suc i) ⊎ (hi ≡ n)
      → (c : Grown sha256 leaves n depth (lo + 2 ^ i) hi m false) → j ≡ i - c.e
      → c.q ≡ (q * 2 + 1) * 2 ^ j
      → (is_odd c.q || c.q == (n - 1) / 2 ^ c.e) ≡ true
  joins_left lo hi i q j depth m s (inl full) c j_is q_is =
      let double = pow-suc 2 i in
      let low = pow-le_inv i c.e (omega (arith, c.fits)) in
      let none' : j ≡ 0 = omega arith in
      let odd : c.q ≡ q * 2 + 1 =
        q_is ∙ ap (λ t. (q * 2 + 1) * 2 ^ t) none' ∙ times_one (q * 2 + 1) in
      ground arith
    where
      times_one : (x : ℕ) → x * 2 ^ 0 ≡ x
      times_one x = omega arith
  joins_left lo hi i q j depth m s (inr last) c j_is q_is =
      let r = hi - (lo + 2 ^ i) - 1 in
      let in_range : r < 2 ^ c.e = omega (arith, c.fits, s.below) in
      let end : n - 1 ≡ c.q * 2 ^ c.e + r = omega (arith, c.position, s.below) in
      let y_is : (n - 1) / 2 ^ c.e ≡ c.q =
        ap (λ t. t / 2 ^ c.e) end ∙ quotient_is c.q r (2 ^ c.e) in_range in
      ground arith

  pub Grown-right :
      (depth lo hi m i q : ℕ) (b : Bool) {h : Bytes}
      → SplitAt sha256 leaves n lo hi i q
      → (hi - lo ≡ 2 ^ suc i) ⊎ (hi ≡ n)
      → n ≤ 2 ^ 63
      → 2 ^ i < m
      → m < hi - lo
      → Grown sha256 leaves n depth (lo + 2 ^ i) hi (m - 2 ^ i) false
      → mth sha256 depth leaves lo (lo + 2 ^ i) ≡ some h
      → Grown sha256 leaves n (suc depth) lo hi m b
  Grown-right depth lo hi m i q b {h} s whole bound gt lt c eh =
      let positive = pow-positive i in
      let double = pow-suc 2 i in
      let two : 2 ≤ hi - lo = omega (arith, s.below) in
      let low : c.e ≤ i = omega (arith, pow-lt_inv c.e (suc i) (omega (arith, c.tight, s.above))) in
      let j = i - c.e in
      let i_is : j + c.e ≡ i = omega arith in
      let i_is' : c.e + j ≡ i = omega arith in
      let same_place : c.q * 2 ^ c.e ≡ (q * 2 + 1) * 2 ^ j * 2 ^ c.e =
        sym c.position
        ∙ ap (λ t. t + 2 ^ i) s.place
        ∙ sym (distributes (q * 2) (2 ^ i))
        ∙ ap (λ t. (q * 2 + 1) * 2 ^ t) (sym i_is)
        ∙ ap (λ t. (q * 2 + 1) * t) (pow_add j c.e)
        ∙ sym (mul_assoc (q * 2 + 1) (2 ^ j) (2 ^ c.e)) in
      let q_is : c.q ≡ (q * 2 + 1) * 2 ^ j =
        times_cancel c.q ((q * 2 + 1) * 2 ^ j) (2 ^ c.e) (pow-positive c.e) same_place in
      let some_place : 1 ≤ c.q = omega (arith, q_is, distributes (q * 2) (2 ^ j), pow-positive j) in
      let y = (n - 1) / 2 ^ c.e in
      let up : c.q ≤ y =
        quotient_least c.q (n - 1) (2 ^ c.e) (pow-positive c.e)
          (omega (arith, c.position, s.below, s.inside)) in
      let m_is : lo + 2 ^ i + (m - 2 ^ i) ≡ lo + m = omega arith in
      let size : lo + m - lo ≡ m = omega arith in
      let old = hash_children sha256 h c.old in
      let new = hash_children sha256 h c.new in
      let splits : split (lo + m - lo) ≡ some (2 ^ i) =
        ap split size ∙ split_at i m gt (omega (arith, s.above)) (omega (arith, s.inside)) in
      let off : c.skips ≡ false = c.skips_is in
      record {
        e = suc i;
        q = q;
        position = s.place ∙ double_place q i;
        fits = s.above;
        tight = omega (arith, s.below);
        old = old;
        new = new;
        seed = c.seed;
        rest = c.rest ++ (h ∷ []);
        skips = c.skips;
        skips_is =
            off ∙ sym (and_false b (is_pow2 m) (is_pow2_between i m gt (omega (arith, s.above))));
        seed_is = λ on. cc;
        is_old =
            mth-join sha256 leaves depth lo (lo + m) (omega arith) splits eh
              (ap (mth sha256 depth leaves (lo + 2 ^ i)) (sym m_is) ∙ c.is_old);
        is_new = mth-join sha256 leaves depth lo hi two s.splits eh c.is_new;
        appended = λ pre.
            subproof-right sha256 leaves depth lo hi m b pre lt s.splits gt (c.appended pre) eh
            ∙ ap some (seeded_snoc sha256 leaves n pre c.skips c.seed c.rest h);
        walked =
            walk_snoc sha256 c.rest (start sha256 leaves n (lo + m) c.seed) h
              (ap (λ t. walk sha256 c.rest (start sha256 leaves n t c.seed)) (sym m_is) ∙ c.walked)
              (step_right sha256 q c.q y j c.old c.new h q_is (λ z. absurd (omega arith))
                (omega (arith, s.small))
                (joins_left lo hi i q j depth (m - 2 ^ i) s whole c refl q_is))
            ∙ ap (λ t. some (walk_at q (t / 2) old new))
                (quotient_add (n - 1) c.e j ∙ ap (λ t. (n - 1) / 2 ^ t) i_is')
            ∙ ap (λ t. some (walk_at q t old new)) (quotient_step (n - 1) i);
        short = rw length-append (omega (arith, c.short));
      }
    where
      distributes : (a d : ℕ) → (a + 1) * d ≡ a * d + d
      distributes a d = omega arith

      and_false : (a c : Bool) → c ≡ false → (a && c) ≡ false
      and_false true c h = h
      and_false false c h = refl
