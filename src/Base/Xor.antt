-- ===== src/Base/Xor.antt =====
-- The laws of C's `^` on unsigned numbers, from the digits of its operands.
use Prim.Native.Nat.{
  ℕ, zero, suc, ◌+◌, ◌*◌, ◌/◌, ◌%◌, ◌≤◌, ◌<◌, bit_xor, digits, differ, bit_xor-bitwise,
}
use mathlib.Core.Path.{◌≡◌, refl, sym, ap, ap₂, ◌∙◌}
use native.Mathlib.Omega.{arith}

abbrev xor_digits : ℕ → ℕ → ℕ → ℕ
xor_digits n a b = digits (λ c. c) differ n a b

xor_digits_fuel : (n m a b : ℕ) → a ≤ n → a ≤ m → xor_digits n a b ≡ xor_digits m a b
xor_digits_fuel zero zero a b h k = refl
xor_digits_fuel zero (suc m) zero b h k = refl
xor_digits_fuel zero (suc m) (suc a) b h k = absurd (omega arith)
xor_digits_fuel (suc n) zero zero b h k = refl
xor_digits_fuel (suc n) zero (suc a) b h k = absurd (omega arith)
xor_digits_fuel (suc n) (suc m) zero b h k = refl
xor_digits_fuel (suc n) (suc m) (suc a) b h k =
    omega (arith, xor_digits_fuel n m (suc a / 2) (b / 2) (omega arith) (omega arith))

differ-lt : (a b : ℕ) → a < 2 → b < 2 → differ a b ≡ (a + b) % 2
differ-lt zero b h k = omega arith
differ-lt (suc zero) zero h k = refl
differ-lt (suc zero) (suc zero) h k = refl
differ-lt (suc zero) (suc (suc b)) h k = absurd (omega arith)
differ-lt (suc (suc a)) b h k = absurd (omega arith)

pub bit_xor_zero_left : (b : ℕ) → bit_xor 0 b ≡ b
bit_xor_zero_left b = bit_xor-bitwise 0 b

-- The lowest digit, and the digits above it.
pub bit_xor_step : (a b : ℕ) → bit_xor a b ≡ bit_xor (a / 2) (b / 2) * 2 + (a + b) % 2
bit_xor_step zero b = omega (arith, bit_xor_zero_left b, bit_xor_zero_left (b / 2))
bit_xor_step (suc a) b = omega (
  arith,
  bit_xor-bitwise (suc a) b,
  bit_xor-bitwise (suc a / 2) (b / 2),
  xor_digits_fuel a (suc a / 2) (suc a / 2) (b / 2) (omega arith) (omega arith),
  differ-lt (suc a % 2) (b % 2) (omega arith) (omega arith),
)

-- Each law goes from the halves to the numbers; `n` bounds them.
comm_below : (n a b : ℕ) → a ≤ n → b ≤ n → bit_xor a b ≡ bit_xor b a
comm_below zero zero zero h k = refl
comm_below zero (suc a) b h k = absurd (omega arith)
comm_below zero zero (suc b) h k = absurd (omega arith)
comm_below (suc n) a b h k = omega (
  arith,
  bit_xor_step a b,
  bit_xor_step b a,
  comm_below n (a / 2) (b / 2) (omega arith) (omega arith),
)

pub bit_xor_comm : (a b : ℕ) → bit_xor a b ≡ bit_xor b a
bit_xor_comm a b = comm_below (a + b) a b (omega arith) (omega arith)

assoc_below :
    (n a b c : ℕ) → a ≤ n → b ≤ n → c ≤ n → bit_xor (bit_xor a b) c ≡ bit_xor a (bit_xor b c)
assoc_below zero zero zero c ha hb hc = sym (bit_xor_zero_left (bit_xor 0 c))
assoc_below zero (suc a) b c ha hb hc = absurd (omega arith)
assoc_below zero zero (suc b) c ha hb hc = absurd (omega arith)
assoc_below (suc n) a b c ha hb hc =
    let ab = bit_xor a b in
    let bc = bit_xor b c in
    let ab_half : ab / 2 ≡ bit_xor (a / 2) (b / 2) = omega (arith, bit_xor_step a b) in
    let bc_half : bc / 2 ≡ bit_xor (b / 2) (c / 2) = omega (arith, bit_xor_step b c) in
    let above : bit_xor (ab / 2) (c / 2) ≡ bit_xor (a / 2) (bc / 2) =
      ap (λ t. bit_xor t (c / 2)) ab_half
      ∙ assoc_below n (a / 2) (b / 2) (c / 2) (omega arith) (omega arith) (omega arith)
      ∙ ap (bit_xor (a / 2)) (sym bc_half) in
    omega (arith, bit_xor_step a b, bit_xor_step b c, bit_xor_step ab c, bit_xor_step a bc, above)

pub bit_xor_assoc : (a b c : ℕ) → bit_xor (bit_xor a b) c ≡ bit_xor a (bit_xor b c)
bit_xor_assoc a b c = assoc_below (a + b + c) a b c (omega arith) (omega arith) (omega arith)

self_below : (n a : ℕ) → a ≤ n → bit_xor a a ≡ 0
self_below zero zero h = refl
self_below zero (suc a) h = absurd (omega arith)
self_below (suc n) a h = omega (arith, bit_xor_step a a, self_below n (a / 2) (omega arith))

pub bit_xor_self : (a : ℕ) → bit_xor a a ≡ 0
bit_xor_self a = self_below a a (omega arith)

pub bit_xor_zero_right : (a : ℕ) → bit_xor a 0 ≡ a
bit_xor_zero_right a = bit_xor_comm a 0 ∙ bit_xor_zero_left a

pub bit_xor_double : (a b : ℕ) → bit_xor (2 * a) (2 * b) ≡ 2 * bit_xor a b
bit_xor_double a b =
    let ha : 2 * a / 2 ≡ a = omega arith in
    let hb : 2 * b / 2 ≡ b = omega arith in
    let halves : bit_xor (2 * a / 2) (2 * b / 2) ≡ bit_xor a b = ap₂ bit_xor ha hb in
    omega (arith, bit_xor_step (2 * a) (2 * b), halves)

bit_xor_half : (a b : ℕ) → bit_xor a b / 2 ≡ bit_xor (a / 2) (b / 2)
bit_xor_half a b = omega (arith, bit_xor_step a b)

abbrev halved : ℕ → ℕ → ℕ
halved zero a = a
halved (suc k) a = halved k (a / 2)

halved-bit_xor : (k a b : ℕ) → halved k (bit_xor a b) ≡ bit_xor (halved k a) (halved k b)
halved-bit_xor zero a b = refl
halved-bit_xor (suc k) a b = ap (halved k) (bit_xor_half a b) ∙ halved-bit_xor k (a / 2) (b / 2)

halved_eight : (a : ℕ) → halved 8 a ≡ a / 256
halved_eight a = omega arith

-- The digits from 256 on.
pub bit_xor_above : (a b : ℕ) → bit_xor a b / 256 ≡ bit_xor (a / 256) (b / 256)
bit_xor_above a b =
    sym (halved_eight (bit_xor a b))
    ∙ halved-bit_xor 8 a b
    ∙ ap₂ bit_xor (halved_eight a) (halved_eight b)

pub bit_xor-lt-256 : (a b : ℕ) → a < 256 → b < 256 → bit_xor a b < 256
bit_xor-lt-256 a b ha hb =
    let low_a : a / 256 ≡ 0 = omega arith in
    let low_b : b / 256 ≡ 0 = omega arith in
    let above : bit_xor (a / 256) (b / 256) ≡ 0 = ap₂ bit_xor low_a low_b in
    omega (arith, bit_xor_above a b, above)
