-- ===== src/Merkle/Split.antt =====
-- `split` of merkle.c: the largest power of two below n, where its `size_t` loop ends.
use native.Mathlib.Nat.{pow-suc, pow-le-pow_right}
use qsafe.Base.{
  ℕ, zero, suc, ◌-◌, ◌*◌, ◌^◌, ◌≤◌, ◌<◌, ◌≡◌, refl, ap, true, none, some, inl, inr, ltb, Bool-cases,
  arith, ltb→lt, ltb→le, dec_le,
}
use qsafe.Merkle.{double, split_loop, split}

double_pow : (j : ℕ) → 2 ^ j < 2 ^ 63 → double (2 ^ j) ≡ 2 ^ suc j
double_pow j h = omega (arith, pow-suc 2 j)

split_loop_power :
    (fuel n j : ℕ)
    → n ≤ 2 ^ 63
    → 2 ^ j < n
    → n ≤ 2 ^ j * 2 ^ fuel
    → (i : ℕ) × (split_loop fuel n (2 ^ j) ≡ some (2 ^ i)) × (2 ^ i < n) × (n ≤ 2 ^ suc i)
unfolding split_loop
split_loop_power zero n j small below enough = absurd (omega arith)
split_loop_power (suc fuel) n j small below enough =
    rw (double_pow j (omega arith)) (elim (Bool-cases (ltb (2 ^ suc j) n)) [
      | inl more ↦ rw more (
          split_loop_power fuel n (suc j) small (ltb→lt _ _ more) (
            omega (
              arith,
              ap (λ (t : ℕ). t * 2 ^ fuel) (pow-suc 2 j),
              ap (λ (t : ℕ). 2 ^ j * t) (pow-suc 2 fuel),
            )))
      | inr done ↦ (j, rw done, below, ltb→le _ _ done)
    ])

-- For 2 <= n <= 2^63 the loop of `split` ends with the largest power of two strictly below n: a
-- power that is smaller than n, and whose double is not.
pub split_power :
    (n : ℕ)
    → 2 ≤ n
    → n ≤ 2 ^ 63
    → (i : ℕ) × (split n ≡ some (2 ^ i)) × (2 ^ i < n) × (n ≤ 2 ^ suc i)
unfolding split
split_power n two small = split_loop_power 64 n 0 small (omega arith) (omega arith)

-- A power below 2^(d+1) is at most 2^d.
pub pow_le_of_lt : (i d : ℕ) → 2 ^ i < 2 ^ suc d → 2 ^ i ≤ 2 ^ d
pow_le_of_lt i d h = elim (dec_le i d) [
  | yes le ↦ pow-le-pow_right (omega arith) le
  | no gt ↦
      absurd
        (omega (arith, pow-le-pow_right {n = 2} (omega arith) {i = suc d} {j = i} (omega arith)))
]

-- What the recursions over [lo, hi) need of `split`: both halves are smaller, and no half passes
-- the next power of two.
pub record Halves (n depth k : ℕ) : Type 0 where
  pub splits : split n ≡ some k
  pub positive : 1 ≤ k
  pub below : k < n
  pub left_fits : k ≤ 2 ^ depth
  pub right_fits : n - k ≤ 2 ^ depth

pub split-Halves :
    (n depth : ℕ) → 2 ≤ n → n ≤ 2 ^ 63 → n ≤ 2 ^ suc depth → (k : ℕ) × Halves n depth k
split-Halves n depth two small fits =
    let (i, e, lt, le) = split_power n two small in
    (
      2 ^ i,
      record {
        splits = e;
        positive = pow-le-pow_right {n = 2} (omega arith) {i = 0} {j = i} (omega arith);
        below = lt;
        left_fits = pow_le_of_lt i depth (omega arith);
        right_fits = omega (arith, pow-suc 2 i, pow_le_of_lt i depth (omega arith));
      },
    )

split_loop-zero : (fuel n : ℕ) → 0 < n → split_loop fuel n 0 ≡ none
unfolding split_loop
split_loop-zero zero n h = refl
split_loop-zero (suc fuel) n h = ground (arith, split_loop-zero fuel n h)

split_loop_diverges : (fuel n j : ℕ) → 2 ^ 63 < n → j ≤ 63 → split_loop fuel n (2 ^ j) ≡ none
unfolding split_loop
split_loop_diverges zero n j big h = refl
split_loop_diverges (suc fuel) n j big h = elim (dec_le j 62) [
  | yes le ↦
      let lt : 2 ^ j ≤ 2 ^ 62 = pow-le-pow_right (omega arith) le in
      rw (double_pow j (omega arith)) (
        let le' : 2 ^ suc j ≤ 2 ^ 63 =
          pow-le-pow_right (omega arith) {i = suc j} {j = 63} (omega arith) in
        let more : ltb (2 ^ suc j) n ≡ true = ground arith in
        rw more (split_loop_diverges fuel n (suc j) big (omega arith)))
  | no gt ↦
      let last : j ≡ 63 = omega arith in
      let wraps : double (2 ^ j) ≡ 0 = rw last in rw wraps (ground (arith, split_loop-zero fuel n))
]

-- For n above 2^63 the doubling wraps to 0 and the loop never ends: no number of rounds gives a
-- result.
pub split_diverges : (fuel n : ℕ) → 2 ^ 63 < n → split_loop fuel n 1 ≡ none
split_diverges fuel n big = split_loop_diverges fuel n 0 big (omega arith)
