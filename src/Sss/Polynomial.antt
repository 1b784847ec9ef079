-- ===== src/Sss/Polynomial.antt =====
-- gf_mul of sss.c against the multiplication of polynomials over GF(2).
use qsafe.Base.{
  ℕ, zero, suc, ◌*◌, ◌/◌, ◌%◌, ◌^◌, ◌<◌, ◌≡◌, inl, inr, ◌∙◌, sym, ap, ap₂, subst, Bool-cases, ltb,
  ltb→lt, ltb→le, lt→ltb, le→ltb, ◌==◌, ==_iff, bit_xor, if◌then◌else◌, arith,
}
use native.Mathlib.Nat.{pow-suc}
use qsafe.Base.Xor.{
  bit_xor_comm, bit_xor_assoc, bit_xor_self, bit_xor_zero_left, bit_xor_zero_right, bit_xor_step,
}
use qsafe.Sss.Field.{gf_mul}
use qsafe.Sss.Laws.{gf_mul_zero_right, gf_mul_comm, gf_mul_assoc, gf_mul_one, gf_mul-lt}
use qsafe.Sss.Linear.{
  carried, carried_low, carried-bit_xor, gf_next_lem, gf_mul_three, gf_mul-bit_xor,
}

-- A polynomial times x, reduced by x^8 + x^4 + x^3 + x + 1.
abbrev pub times_x : ℕ → ℕ
times_x a = if ltb a 128 then 2 * a else bit_xor (2 * a) 0x11b

-- The product of two polynomials, reduced: the digits of the second select the first times the
-- powers of x.
pub polynomial_product : ℕ → ℕ → ℕ → ℕ
polynomial_product zero a b = 0
polynomial_product (suc digits) a b =
    bit_xor (if b % 2 == 0 then 0 else a) (polynomial_product digits (times_x a) (b / 2))

times_x_lem : (a : ℕ) → a < 256 → times_x a ≡ carried (2 * a)
times_x_lem a sa = elim (Bool-cases (ltb a 128)) [
  | inl low ↦
      let low' = ltb→lt a 128 low in
      ap (λ t. if t then 2 * a else bit_xor (2 * a) 0x11b)
        (low ∙ sym (lt→ltb (2 * a) 256 (omega arith)))
  | inr high ↦
      let high' = ltb→le a 128 high in
      ap (λ t. if t then 2 * a else bit_xor (2 * a) 0x11b)
        (high ∙ sym (le→ltb (2 * a) 256 (omega arith)))
]

gf_mul_two : (a : ℕ) → a < 256 → gf_mul a 2 ≡ times_x a
gf_mul_two a sa =
    gf_mul-bit_xor a 3 1 sa (omega arith) (omega arith)
    ∙ ap₂ bit_xor (gf_mul_comm a 3 ∙ gf_mul_three a sa ∙ gf_next_lem a sa)
        (gf_mul_comm a 1 ∙ gf_mul_one a sa)
    ∙ ap (λ t. bit_xor t a)
        (carried-bit_xor a (2 * a) (omega arith) (omega arith)
          ∙ ap (λ t. bit_xor t (carried (2 * a))) (carried_low a sa)
          ∙ bit_xor_comm a (carried (2 * a)))
    ∙ bit_xor_assoc (carried (2 * a)) a a
    ∙ ap (bit_xor (carried (2 * a))) (bit_xor_self a)
    ∙ bit_xor_zero_right (carried (2 * a))
    ∙ sym (times_x_lem a sa)

times_x-lt : (a : ℕ) → a < 256 → times_x a < 256
times_x-lt a sa = subst (λ t. t < 256) (gf_mul_two a sa) (gf_mul-lt a 2 sa (omega arith))

lowest_digit : (b : ℕ) → bit_xor (b % 2) (2 * (b / 2)) ≡ b
lowest_digit b =
    let low : b % 2 / 2 ≡ 0 = omega arith in
    let high : 2 * (b / 2) / 2 ≡ b / 2 = omega arith in
    let halves : bit_xor (b % 2 / 2) (2 * (b / 2) / 2) ≡ bit_xor 0 (b / 2) = ap₂ bit_xor low high in
    omega (arith, bit_xor_step (b % 2) (2 * (b / 2)), halves, bit_xor_zero_left (b / 2))

gf_mul_digit : (a b : ℕ) → a < 256 → gf_mul a (b % 2) ≡ (if b % 2 == 0 then 0 else a)
gf_mul_digit a b sa = elim (Bool-cases (b % 2 == 0)) [
  | inl even ↦
      ap (gf_mul a) ((==_iff (b % 2) 0).0 even)
      ∙ gf_mul_zero_right a
      ∙ ap (λ t. if t then 0 else a) (sym even)
  | inr odd ↦
      let one : b % 2 ≡ 1 = ground arith in
      ap (gf_mul a) one ∙ gf_mul_comm a 1 ∙ gf_mul_one a sa ∙ ap (λ t. if t then 0 else a) (sym odd)
]

gf_mul_double : (a c : ℕ) → a < 256 → c < 128 → gf_mul a (2 * c) ≡ gf_mul (times_x a) c
gf_mul_double a c sa sc =
    let low : times_x c ≡ 2 * c =
      ap (λ t. if t then 2 * c else bit_xor (2 * c) 0x11b) (lt→ltb c 128 sc) in
    ap (gf_mul a) (sym low ∙ sym (gf_mul_two c (omega arith)) ∙ gf_mul_comm c 2)
    ∙ sym (gf_mul_assoc a 2 c sa (omega arith) (omega arith))
    ∙ ap (λ t. gf_mul t c) (gf_mul_two a sa)

gf_mul-digits :
    (digits a b : ℕ)
    → a < 256
    → b < 256
    → b < 2 ^ digits
    → gf_mul a b ≡ polynomial_product digits a b
unfolding polynomial_product
gf_mul-digits zero a b sa sb h = ap (gf_mul a) (omega arith) ∙ gf_mul_zero_right a
gf_mul-digits (suc digits) a b sa sb h =
    let fits : b / 2 < 2 ^ digits = omega (arith, pow-suc 2 digits) in
    ap (gf_mul a) (sym (lowest_digit b))
    ∙ gf_mul-bit_xor a (b % 2) (2 * (b / 2)) sa (omega arith) (omega arith)
    ∙ ap₂ bit_xor (gf_mul_digit a b sa) (
        gf_mul_double a (b / 2) sa (omega arith)
        ∙ gf_mul-digits digits (times_x a) (b / 2) (times_x-lt a sa) (omega arith) fits)

-- The table lookups multiply polynomials: for bytes, `gf_mul` through the tables that `gf_init`
-- fills is the product of the two polynomials over GF(2), reduced by x^8 + x^4 + x^3 + x + 1.
pub gf_mul-polynomial_product :
    (a b : ℕ) → a < 256 → b < 256 → gf_mul a b ≡ polynomial_product 8 a b
gf_mul-polynomial_product a b sa sb = gf_mul-digits 8 a b sa sb sb
