-- ===== src/Merkle/Levels.antt =====
-- The consistency proof of merkle.c on every range: the levels of the tree.
use native.Mathlib.Nat.{pow-suc, mul_assoc}
use qsafe.Base.{
  ℕ, zero, suc, ◌+◌, ◌-◌, ◌*◌, ◌^◌, ◌≤◌, ◌<◌, ◌≡◌, ◌⊎◌, inl, inr, ◌∙◌, sym, ap, subst, Bool, false,
  some, some_inj, List, Bytes, dec_lt, dec_le, arith,
}
use qsafe.Merkle.{split}
use qsafe.Merkle.Powers.{pow-lt_inv, pow-le_inv, double_place, pow_add}
use qsafe.Merkle.Prefix.{mth_deeper}
use qsafe.Merkle.Split.{split_power}
use qsafe.Merkle.Tree.{InRange, left-InRange, right-InRange, range-Halves, mth_total}
use qsafe.Merkle.Growth.{Grown, SplitAt, Grown-whole, Grown-left}
use qsafe.Merkle.RightHalf.{Grown-right}

module _ (sha256 : Bytes → Bytes) (leaves : List Bytes) (n : ℕ) where
  -- A range of a level: a full subtree, or the one at the end of the tree.
  pub record Level (lo hi level place : ℕ) : Type 0 where
    pub at : lo ≡ place * 2 ^ level
    pub fits : hi - lo ≤ 2 ^ level
    pub whole : (hi - lo ≡ 2 ^ level) ⊎ (hi ≡ n)
    pub inside : hi ≤ n

  range-SplitAt :
      (lo hi level place i : ℕ)
      → Level lo hi level place
      → split (hi - lo) ≡ some (2 ^ i)
      → 2 ^ i < hi - lo
      → hi - lo ≤ 2 ^ suc i
      → i < 64
      → SplitAt sha256 leaves n lo hi i (place * 2 ^ (level - suc i))
  range-SplitAt lo hi level place i v e below above small =
      let up = pow-lt_inv i level (omega (arith, v.fits)) in
      let level_is : level - suc i + suc i ≡ level = omega arith in
      record {
        splits = e;
        below = below;
        above = above;
        place =
            v.at
            ∙ ap (λ t. place * 2 ^ t) (sym level_is)
            ∙ ap (λ t. place * t) (pow_add (level - suc i) (suc i))
            ∙ sym (mul_assoc place (2 ^ (level - suc i)) (2 ^ suc i))
            ∙ sym (double_place (place * 2 ^ (level - suc i)) i);
        inside = v.inside;
        small = small;
      }

  Level-left : (lo hi i q : ℕ) → SplitAt sha256 leaves n lo hi i q → Level lo (lo + 2 ^ i) i (q * 2)
  Level-left lo hi i q s = record {
    at = s.place;
    fits = omega arith;
    whole = inl (omega arith);
    inside = omega (arith, s.below, s.inside);
  }

  Level-right :
      (lo hi i q level place : ℕ)
      → SplitAt sha256 leaves n lo hi i q
      → Level lo hi level place
      → Level (lo + 2 ^ i) hi i (q * 2 + 1) × ((hi - lo ≡ 2 ^ suc i) ⊎ (hi ≡ n))
  Level-right lo hi i q level place s v =
      let double = pow-suc 2 i in
      let whole : (hi - lo ≡ 2 ^ suc i) ⊎ (hi ≡ n) = elim v.whole [
        | inl full ↦
            let up = pow-lt_inv i level (omega (arith, s.below)) in
            let down = pow-le_inv level (suc i) (omega (arith, s.above)) in
            let level_is : level ≡ suc i = omega arith in
            inl (full ∙ ap (λ (t : ℕ). 2 ^ t) level_is)
        | inr last ↦ inr last
      ] in
      (
        record {
          at = ap (λ t. t + 2 ^ i) s.place ∙ sym (distributes (q * 2) (2 ^ i));
          fits = omega (arith, s.above);
          whole = elim whole [ inl full ↦ inl (omega arith) | inr last ↦ inr last ];
          inside = s.inside;
        },
        whole,
      )
    where
      distributes : (a d : ℕ) → (a + 1) * d ≡ a * d + d
      distributes a d = omega arith

  pub grow :
      (depth lo hi m level place : ℕ) (b : Bool)
      → n ≤ 2 ^ 63
      → InRange leaves lo hi depth
      → Level lo hi level place
      → 1 ≤ m
      → m < hi - lo
      → Grown sha256 leaves n (suc depth) lo hi m b
  grow zero lo hi m level place b bound r v low high = absurd (omega (arith, r.fits))
  grow (suc depth) lo hi m level place b bound r v low high =
      let (k, h) = range-Halves r (omega arith) in
      let (i, splits, below, above) = split_power (hi - lo) (omega arith) r.small in
      let k_is : k ≡ 2 ^ i = some_inj (sym h.splits ∙ splits) in
      let i_small = pow-lt_inv i 63 (omega (arith, r.small)) in
      let q = place * 2 ^ (level - suc i) in
      let s = range-SplitAt lo hi level place i v splits below above (omega arith) in
      let left = subst (λ t. InRange leaves lo (lo + t) depth) k_is (left-InRange r h) in
      let right = subst (λ t. InRange leaves (lo + t) hi depth) k_is (right-InRange r h) in
      let (x, ex) = mth_total sha256 leaves depth lo (lo + 2 ^ i) left in
      let (y, ey) = mth_total sha256 leaves depth (lo + 2 ^ i) hi right in
      elim (dec_le m (2 ^ i)) [
        | yes le ↦
            let prefix : InRange leaves lo (lo + m) depth = record {
              ordered = omega arith;
              bounded = omega (arith, r.bounded);
              small = omega (arith, r.small);
              fits = omega (arith, left.fits);
            } in
            let child : Grown sha256 leaves n (suc depth) lo (lo + 2 ^ i) m b =
              elim (dec_lt m (2 ^ i)) [
                | yes lt ↦
                    grow depth lo (lo + 2 ^ i) m i (q * 2) b bound left (Level-left lo hi i q s) low
                      (omega arith)
                | no ge ↦
                    let m_is : 2 ^ i ≡ m = omega arith in
                    subst (λ t. Grown sha256 leaves n (suc depth) lo (lo + 2 ^ i) t b) m_is
                      (Grown-whole sha256 leaves n depth lo i q b s.place (omega arith) left)
              ] in
            Grown-left sha256 leaves n (suc depth) lo hi m i q b s le child ey
              (mth_deeper sha256 leaves depth lo (lo + m) prefix)
        | no gt ↦
            let (v', whole) = Level-right lo hi i q level place s v in
            let child =
              grow depth (lo + 2 ^ i) hi (m - 2 ^ i) i (q * 2 + 1) false bound right v'
                (omega arith) (omega arith) in
            Grown-right sha256 leaves n (suc depth) lo hi m i q b s whole bound (omega arith) high
              child ex
      ]
