-- ===== src/Merkle/Powers.antt =====
-- Powers of two in merkle.c: `is_pow2`, and what the shifting loops of the consistency verifier leave.
use Prim.Native.Nat.{min, digits, bit_and-bitwise}
use native.Mathlib.Nat.{
  pow-suc, mul_assoc, pow-le-pow_right, one-le-pow, div-eq_of_lt-le, le-div_iff_mul-le,
  div-div-eq-div-mul,
}
use qsafe.Base.{
  ℕ, zero, suc, ◌+◌, ◌-◌, ◌*◌, ◌/◌, ◌%◌, ◌^◌, ◌≤◌, ◌<◌, ◌≡◌, refl, ◌∙◌, sym, ap, ap₂, true, false,
  not, ◌&&◌, ◌==◌, bit_and, some, dec_lt, arith,
}
use qsafe.Merkle.{split}
use qsafe.Merkle.Split.{split_power}
use qsafe.Merkle.Consistency.{is_pow2, is_odd, shift_odd, shift_even}

pub pow-positive : (i : ℕ) → 1 ≤ 2 ^ i
pow-positive i = one-le-pow i 2 (omega arith)

-- The order of powers is that of exponents.
pub pow-lt_inv : (i j : ℕ) → 2 ^ i < 2 ^ j → i < j
pow-lt_inv i j h = elim (dec_lt i j) [
  | yes lt ↦ lt
  | no ge ↦
      absurd (omega (arith, pow-le-pow_right {n = 2} (omega arith) {i = j} {j = i} (omega arith)))
]

pub pow-le_inv : (i j : ℕ) → 2 ^ i ≤ 2 ^ j → i ≤ j
pow-le_inv i j h = elim (dec_lt j i) [
  | yes gt ↦ absurd (
      omega (
        arith,
        pow-positive j,
        pow-suc 2 j,
        pow-le-pow_right {n = 2} (omega arith) {i = suc j} {j = i} (omega arith),
      ))
  | no le ↦ omega arith
]

-- One power of two is the last below a number.
pub power_unique : (i j n : ℕ) → 2 ^ i < n → n ≤ 2 ^ suc i → 2 ^ j < n → n ≤ 2 ^ suc j → i ≡ j
power_unique i j n li ui lj uj =
    let up = pow-lt_inv i (suc j) (omega arith) in
    let down = pow-lt_inv j (suc i) (omega arith) in omega arith

pub split_at : (i n : ℕ) → 2 ^ i < n → n ≤ 2 ^ suc i → n ≤ 2 ^ 63 → split n ≡ some (2 ^ i)
split_at i n lt le small =
    let positive = pow-positive i in
    let (j, e, lt', le') = split_power n (omega arith) small in
    e ∙ ap (λ t. some (2 ^ t)) (power_unique j i n lt' le' lt le)

-- Division of `q * d + r`.
pub quotient_is : (q r d : ℕ) → r < d → (q * d + r) / d ≡ q
quotient_is q r d small = div-eq_of_lt-le d (omega arith) (omega (arith, distributes))
  where
    distributes : (q + 1) * d ≡ q * d + d
    distributes = omega arith

-- A quotient is at least what it has room for.
pub quotient_least : (q x d : ℕ) → 1 ≤ d → q * d ≤ x → q ≤ x / d
quotient_least q x d positive h = (le-div_iff_mul-le positive).1 h

pub times_cancel : (a b d : ℕ) → 1 ≤ d → a * d ≡ b * d → a ≡ b
times_cancel a b d positive h =
    sym (quotient_is a 0 d positive) ∙ ap (λ t. (t + 0) / d) h ∙ quotient_is b 0 d positive

pub double_place : (q i : ℕ) → q * 2 * 2 ^ i ≡ q * 2 ^ suc i
double_place q i =
    let double : 2 * 2 ^ i ≡ 2 ^ suc i = omega (arith, pow-suc 2 i) in
    mul_assoc q 2 (2 ^ i) ∙ ap (λ t. q * t) double

pub quotient_step : (x i : ℕ) → x / 2 ^ i / 2 ≡ x / 2 ^ suc i
quotient_step x i = div-div-eq-div-mul x (2 ^ i) 2 ∙ ap (λ t. x / t) (sym (pow-suc 2 i))

quotient_first : (x i : ℕ) → x / 2 / 2 ^ i ≡ x / 2 ^ suc i
quotient_first x i = div-div-eq-div-mul x 2 (2 ^ i) ∙ ap (λ t. x / t) (omega (arith, pow-suc 2 i))

pub pow_add : (i j : ℕ) → 2 ^ (i + j) ≡ 2 ^ i * 2 ^ j
pow_add i zero =
    let plus_none : i + 0 ≡ i = omega arith in ap (λ (t : ℕ). 2 ^ t) plus_none ∙ times_one (2 ^ i)
  where
    times_one : (x : ℕ) → x ≡ x * 2 ^ 0
    times_one x = omega arith
pow_add i (suc j) =
    let plus_suc : i + suc j ≡ suc (i + j) = omega arith in
    ap (λ (t : ℕ). 2 ^ t) plus_suc
    ∙ pow-suc 2 (i + j)
    ∙ ap (λ t. t * 2) (pow_add i j)
    ∙ mul_assoc (2 ^ i) (2 ^ j) 2
    ∙ ap (λ t. 2 ^ i * t) (sym (pow-suc 2 j))

pub quotient_add : (x i j : ℕ) → x / 2 ^ i / 2 ^ j ≡ x / 2 ^ (i + j)
quotient_add x i j = div-div-eq-div-mul x (2 ^ i) (2 ^ j) ∙ ap (λ t. x / t) (sym (pow_add i j))

and_digits_fuel :
    (n m a b : ℕ) → a ≤ n → a ≤ m → digits (λ _. zero) min n a b ≡ digits (λ _. zero) min m a b
and_digits_fuel zero zero a b h k = refl
and_digits_fuel zero (suc m) zero b h k = refl
and_digits_fuel zero (suc m) (suc a) b h k = absurd (omega arith)
and_digits_fuel (suc n) zero zero b h k = refl
and_digits_fuel (suc n) zero (suc a) b h k = absurd (omega arith)
and_digits_fuel (suc n) (suc m) zero b h k = refl
and_digits_fuel (suc n) (suc m) (suc a) b h k =
    ap (λ t. t * 2 + min (suc a % 2) (b % 2))
      (and_digits_fuel n m (suc a / 2) (b / 2) (omega arith) (omega arith))

bit_and_zero : (b : ℕ) → bit_and 0 b ≡ 0
bit_and_zero b = bit_and-bitwise 0 b

bit_and_step : (a b : ℕ) → bit_and a b ≡ bit_and (a / 2) (b / 2) * 2 + min (a % 2) (b % 2)
bit_and_step zero b = omega (arith, bit_and_zero b, bit_and_zero (b / 2), min_zero (b % 2))
  where
    min_zero : (c : ℕ) → min 0 c ≡ 0
    min_zero c = omega arith
bit_and_step (suc a) b =
    bit_and-bitwise (suc a) b
    ∙ ap (λ t. t * 2 + min (suc a % 2) (b % 2))
        (and_digits_fuel a (suc a / 2) (suc a / 2) (b / 2) (omega arith) (omega arith)
          ∙ sym (bit_and-bitwise (suc a / 2) (b / 2)))

bit_and_self : (n a : ℕ) → a ≤ n → bit_and a a ≡ a
bit_and_self zero zero h = bit_and_zero 0
bit_and_self zero (suc a) h = absurd (omega arith)
bit_and_self (suc n) a h =
    omega (arith, bit_and_step a a, bit_and_self n (a / 2) (omega arith), min_self (a % 2))
  where
    min_self : (c : ℕ) → min c c ≡ c
    min_self c = omega arith

bit_and_power : (i : ℕ) → bit_and (2 ^ i) (2 ^ i - 1) ≡ 0
bit_and_power zero = bit_and_step 1 0 ∙ omega (arith, bit_and_zero 0)
bit_and_power (suc i) =
    let positive = pow-positive i in
    let double = pow-suc 2 i in
    let x = 2 ^ suc i in
    let upper : x / 2 ≡ 2 ^ i = omega arith in
    let lower : (x - 1) / 2 ≡ 2 ^ i - 1 = omega arith in
    let even : x % 2 ≡ 0 = omega arith in
    bit_and_step x (x - 1)
    ∙ ap₂ (λ a b. bit_and a b * 2 + min (x % 2) ((x - 1) % 2)) upper lower
    ∙ ap₂ (λ a b. a * 2 + min b ((x - 1) % 2)) (bit_and_power i) even
    ∙ min_zero ((x - 1) % 2)
  where
    min_zero : (c : ℕ) → 0 * 2 + min 0 c ≡ 0
    min_zero c = omega arith

bit_and_between : (i m : ℕ) → 2 ^ i < m → m < 2 ^ suc i → 1 ≤ bit_and m (m - 1)
bit_and_between zero m low high = absurd (omega arith)
bit_and_between (suc i) m low high =
    let positive = pow-positive i in
    let double = pow-suc 2 i in
    let double' = pow-suc 2 (suc i) in
    let step = bit_and_step m (m - 1) in
    elim (dec_lt 0 (m % 2)) [
      | yes odd ↦
          let same : (m - 1) / 2 ≡ m / 2 = omega arith in
          let above : bit_and (m / 2) ((m - 1) / 2) ≡ m / 2 =
            ap (bit_and (m / 2)) same ∙ bit_and_self (m / 2) (m / 2) (omega arith) in
          omega arith
      | no even ↦
          let lower : (m - 1) / 2 ≡ m / 2 - 1 = omega arith in
          let above : bit_and (m / 2) ((m - 1) / 2) ≡ bit_and (m / 2) (m / 2 - 1) =
            ap (bit_and (m / 2)) lower in
          let ih = bit_and_between i (m / 2) (omega arith) (omega arith) in omega arith
    ]

pub is_pow2_power : (i : ℕ) → is_pow2 (2 ^ i) ≡ true
unfolding is_pow2
is_pow2_power i = ground (arith, pow-positive i, bit_and_power i)

pub is_pow2_between : (i m : ℕ) → 2 ^ i < m → m < 2 ^ suc i → is_pow2 m ≡ false
unfolding is_pow2
is_pow2_between i m low high = ground (arith, bit_and_between i m low high)

-- Trailing ones are shifted out, up to a digit 0.
pub shift_odd-ones :
    (i fuel q y : ℕ)
    → i < fuel
    → shift_odd fuel (q * 2 * 2 ^ i + (2 ^ i - 1)) y ≡ (q * 2, y / 2 ^ i)
unfolding shift_odd
shift_odd-ones i zero q y h = absurd (omega arith)
shift_odd-ones zero (suc fuel) q y h =
    let one : y / 2 ^ 0 ≡ y = omega arith in
    let even : is_odd (q * 2) ≡ false = ground arith in
    let x_is : q * 2 * 2 ^ 0 + (2 ^ 0 - 1) ≡ q * 2 = omega arith in rw (x_is, one, even) refl
shift_odd-ones (suc i) (suc fuel) q y h =
    let positive = pow-positive i in
    let double = pow-suc 2 i in
    let x = q * 2 * 2 ^ suc i + (2 ^ suc i - 1) in
    let spread : q * 2 * 2 ^ suc i ≡ q * 2 * 2 ^ i * 2 =
      ap (λ t. q * 2 * t) double ∙ sym (mul_assoc (q * 2) (2 ^ i) 2) in
    let odd : is_odd x ≡ true = ground arith in
    let half : x / 2 ≡ q * 2 * 2 ^ i + (2 ^ i - 1) = omega arith in
    rw (odd, half)
      (shift_odd-ones i fuel q (y / 2) (omega arith) ∙ ap (λ t. (q * 2, t)) (quotient_first y i))

-- Trailing zeros are shifted out, up to a digit 1.
pub shift_even-zeros :
    (i fuel q y : ℕ) → i < fuel → shift_even fuel ((q * 2 + 1) * 2 ^ i) y ≡ (q * 2 + 1, y / 2 ^ i)
unfolding shift_even
shift_even-zeros i zero q y h = absurd (omega arith)
shift_even-zeros zero (suc fuel) q y h =
    let one : y / 2 ^ 0 ≡ y = omega arith in
    let odd : is_odd (q * 2 + 1) ≡ true = ground arith in
    let x_is : (q * 2 + 1) * 2 ^ 0 ≡ q * 2 + 1 = omega arith in rw (x_is, one, odd) (ground arith)
shift_even-zeros (suc i) (suc fuel) q y h =
    let positive = pow-positive i in
    let double = pow-suc 2 i in
    let x = (q * 2 + 1) * 2 ^ suc i in
    let spread : x ≡ (q * 2 + 1) * 2 ^ i * 2 =
      ap (λ t. (q * 2 + 1) * t) double ∙ sym (mul_assoc (q * 2 + 1) (2 ^ i) 2) in
    let at_least : 1 ≤ (q * 2 + 1) * 2 ^ i = omega (arith, distributes q (2 ^ i)) in
    let zeros : (not (x == 0) && not (is_odd x)) ≡ true = ground arith in
    let half : x / 2 ≡ (q * 2 + 1) * 2 ^ i = omega arith in
    rw (zeros, half)
      (shift_even-zeros i fuel q (y / 2) (omega arith)
        ∙ ap (λ t. (q * 2 + 1, t)) (quotient_first y i))
  where
    distributes : (a d : ℕ) → (a * 2 + 1) * d ≡ a * 2 * d + d
    distributes a d = omega arith
