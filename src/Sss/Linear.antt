-- ===== src/Sss/Linear.antt =====
-- Multiplication in sss.c distributes over `^`.
use qsafe.Base.{
  ℕ, zero, suc, ◌+◌, ◌*◌, ◌/◌, ◌%◌, ◌^◌, ◌<◌, ◌≤◌, ◌≡◌, ◌≢◌, inl, inr, refl, ◌∙◌, sym, ap, ap₂,
  subst, Bool-cases, ltb, ltb→lt, ltb→le, lt→ltb, le→ltb, bit_xor, if◌then◌else◌, arith,
}
use qsafe.Base.Xor.{
  bit_xor_comm, bit_xor_assoc, bit_xor_self, bit_xor_zero_left, bit_xor_zero_right, bit_xor_double,
  bit_xor_above, bit_xor-lt-256,
}
use qsafe.Sss.Field.{gf_reduce, gf_next, gf_mul}
use qsafe.Sss.Tables.{
  log_at_three, exp_at, log_at, log_at-lt, exp_at-log_at, exp_at_step, gf_reduce_carry,
}
use qsafe.Sss.Laws.{gf_mul_powers, gf_mul_zero_left, gf_mul_zero_right, zero_or_not}

-- (a ^ b) ^ (c ^ d) in another order.
pub bit_xor_swap :
    (a b c d : ℕ) → bit_xor (bit_xor a b) (bit_xor c d) ≡ bit_xor (bit_xor a c) (bit_xor b d)
bit_xor_swap a b c d =
    bit_xor_assoc a b (bit_xor c d)
    ∙ ap (bit_xor a)
        (sym (bit_xor_assoc b c d) ∙ ap (λ t. bit_xor t d) (bit_xor_comm b c) ∙ bit_xor_assoc c b d)
    ∙ sym (bit_xor_assoc a c (bit_xor b d))

-- The reduction of a number below 512.
abbrev pub carried : ℕ → ℕ
carried u = if ltb u 256 then u else bit_xor u 0x11b

pub carried_low : (u : ℕ) → u < 256 → carried u ≡ u
carried_low u h = ap (λ t. if t then u else bit_xor u 0x11b) (lt→ltb u 256 h)

carried_high : (u : ℕ) → 256 ≤ u → carried u ≡ bit_xor u 0x11b
carried_high u h = ap (λ t. if t then u else bit_xor u 0x11b) (le→ltb u 256 h)

above_is : (u v : ℕ) (x y : ℕ) → u / 256 ≡ x → v / 256 ≡ y → bit_xor u v / 256 ≡ bit_xor x y
above_is u v x y hu hv = bit_xor_above u v ∙ ap₂ bit_xor hu hv

pub carried-bit_xor :
    (u v : ℕ) → u < 512 → v < 512 → carried (bit_xor u v) ≡ bit_xor (carried u) (carried v)
carried-bit_xor u v hu hv = elim (Bool-cases (ltb u 256)) [
  | inl lu ↦
      let lu' = ltb→lt u 256 lu in
      elim (Bool-cases (ltb v 256)) [
        | inl lv ↦
            let lv' = ltb→lt v 256 lv in
            carried_low (bit_xor u v) (bit_xor-lt-256 u v lu' lv')
            ∙ sym (ap₂ bit_xor (carried_low u lu') (carried_low v lv'))
        | inr hv' ↦
            let above = above_is u v 0 1 (omega arith) (omega (arith, ltb→le v 256 hv')) in
            carried_high (bit_xor u v) (omega arith)
            ∙ bit_xor_assoc u v 0x11b
            ∙ sym (ap₂ bit_xor (carried_low u lu') (carried_high v (ltb→le v 256 hv')))
      ]
  | inr hu' ↦ elim (Bool-cases (ltb v 256)) [
    | inl lv ↦
        let lv' = ltb→lt v 256 lv in
        let above = above_is u v 1 0 (omega (arith, ltb→le u 256 hu')) (omega arith) in
        carried_high (bit_xor u v) (omega arith)
        ∙ bit_xor_assoc u v 0x11b
        ∙ ap (bit_xor u) (bit_xor_comm v 0x11b)
        ∙ sym (bit_xor_assoc u 0x11b v)
        ∙ sym (ap₂ bit_xor (carried_high u (ltb→le u 256 hu')) (carried_low v lv'))
    | inr hv' ↦
        let above =
          above_is u v 1 1 (omega (arith, ltb→le u 256 hu')) (omega (arith, ltb→le v 256 hv')) in
        carried_low (bit_xor u v) (omega arith)
        ∙ sym (bit_xor_zero_right (bit_xor u v))
        ∙ ap (bit_xor (bit_xor u v)) (sym (bit_xor_self 0x11b))
        ∙ bit_xor_swap u v 0x11b 0x11b
        ∙ sym (ap₂ bit_xor (carried_high u (ltb→le u 256 hu')) (carried_high v (ltb→le v 256 hv')))
  ]
]

-- The generator times a byte, before the reduction.
abbrev pub tripled : ℕ → ℕ
tripled x = bit_xor x (2 * x)

tripled-lt : (x : ℕ) → x < 256 → tripled x < 512
tripled-lt x h =
    let above = above_is x (2 * x) 0 (2 * x / 256) (omega arith) refl in
    omega (arith, above, bit_xor_zero_left (2 * x / 256))

pub gf_next_lem : (x : ℕ) → x < 256 → gf_next x ≡ carried (tripled x)
unfolding gf_next
gf_next_lem x h =
    let shifted : x * 2 % 2 ^ 32 ≡ 2 * x = omega arith in
    ap (λ t. gf_reduce (bit_xor x t)) shifted ∙ gf_reduce_carry (tripled x) (tripled-lt x h)

-- The generator distributes.
gf_next-bit_xor :
    (x y : ℕ) → x < 256 → y < 256 → gf_next (bit_xor x y) ≡ bit_xor (gf_next x) (gf_next y)
gf_next-bit_xor x y hx hy =
    gf_next_lem (bit_xor x y) (bit_xor-lt-256 x y hx hy)
    ∙ ap carried
        (ap (bit_xor (bit_xor x y)) (sym (bit_xor_double x y)) ∙ bit_xor_swap x y (2 * x) (2 * y))
    ∙ carried-bit_xor (tripled x) (tripled y) (tripled-lt x hx) (tripled-lt y hy)
    ∙ sym (ap₂ bit_xor (gf_next_lem x hx) (gf_next_lem y hy))

gf_next_zero : gf_next 0 ≡ 0
unfolding gf_next gf_reduce
gf_next_zero = refl

carried-lt : (u : ℕ) → u < 512 → carried u < 256
carried-lt u h = elim (Bool-cases (ltb u 256)) [
  | inl lu ↦ subst (λ t. t < 256) (sym (carried_low u (ltb→lt u 256 lu))) (ltb→lt u 256 lu)
  | inr hu ↦
      let hu' = ltb→le u 256 hu in
      let above = above_is u 0x11b 1 1 (omega arith) (omega arith) in
      subst (λ t. t < 256) (sym (carried_high u hu')) (omega arith)
]

gf_next-lt : (x : ℕ) → x < 256 → gf_next x < 256
gf_next-lt x h =
    subst (λ t. t < 256) (sym (gf_next_lem x h)) (carried-lt (tripled x) (tripled-lt x h))

-- The generator, `k` times.
pub iterate : ℕ → ℕ → ℕ
iterate zero x = x
iterate (suc k) x = gf_next (iterate k x)

iterate-lt : (k x : ℕ) → x < 256 → iterate k x < 256
unfolding iterate
iterate-lt zero x h = h
iterate-lt (suc k) x h = gf_next-lt (iterate k x) (iterate-lt k x h)

iterate-bit_xor :
    (k x y : ℕ) → x < 256 → y < 256 → iterate k (bit_xor x y) ≡ bit_xor (iterate k x) (iterate k y)
unfolding iterate
iterate-bit_xor zero x y hx hy = refl
iterate-bit_xor (suc k) x y hx hy =
    ap gf_next (iterate-bit_xor k x y hx hy)
    ∙ gf_next-bit_xor (iterate k x) (iterate k y) (iterate-lt k x hx) (iterate-lt k y hy)

iterate_zero : (k : ℕ) → iterate k 0 ≡ 0
unfolding iterate
iterate_zero zero = refl
iterate_zero (suc k) = ap gf_next (iterate_zero k) ∙ gf_next_zero

exp_at-iterate : (k i : ℕ) → k + i < 510 → exp_at (k + i) ≡ iterate k (exp_at i)
unfolding iterate
exp_at-iterate zero i h = ap exp_at (omega arith)
exp_at-iterate (suc k) i h =
    let e : suc k + i ≡ k + i + 1 = omega arith in
    ap exp_at e ∙ exp_at_step (k + i) (omega arith) ∙ ap gf_next (exp_at-iterate k i (omega arith))

-- A product is so many steps of the generator.
pub gf_mul-iterate : (a b : ℕ) → a < 256 → b < 256 → a ≢ 0 → gf_mul a b ≡ iterate (log_at a) b
gf_mul-iterate a b sa sb ha = elim (zero_or_not b) [
  | inl zb ↦
      ap (gf_mul a) zb
      ∙ gf_mul_zero_right a
      ∙ sym (iterate_zero (log_at a))
      ∙ ap (iterate (log_at a)) (sym zb)
  | inr hb ↦
      let la = log_at-lt a sa ha in
      let lb = log_at-lt b sb hb in
      gf_mul_powers a b ha hb
      ∙ exp_at-iterate (log_at a) (log_at b) (omega arith)
      ∙ ap (iterate (log_at a)) (exp_at-log_at b sb hb)
]

pub gf_mul_three : (a : ℕ) → a < 256 → gf_mul 3 a ≡ gf_next a
unfolding iterate
gf_mul_three a sa =
    gf_mul-iterate 3 a (omega arith) sa (omega arith) ∙ ap (λ k. iterate k a) log_at_three

pub gf_mul-bit_xor :
    (a b c : ℕ)
    → a < 256
    → b < 256
    → c < 256
    → gf_mul a (bit_xor b c) ≡ bit_xor (gf_mul a b) (gf_mul a c)
gf_mul-bit_xor a b c sa sb sc = elim (zero_or_not a) [
  | inl za ↦
      ap (λ t. gf_mul t (bit_xor b c)) za
      ∙ gf_mul_zero_left (bit_xor b c)
      ∙ sym (
          ap₂ bit_xor (ap (λ t. gf_mul t b) za ∙ gf_mul_zero_left b)
            (ap (λ t. gf_mul t c) za ∙ gf_mul_zero_left c))
  | inr ha ↦
      gf_mul-iterate a (bit_xor b c) sa (bit_xor-lt-256 b c sb sc) ha
      ∙ iterate-bit_xor (log_at a) b c sb sc
      ∙ sym (ap₂ bit_xor (gf_mul-iterate a b sa sb ha) (gf_mul-iterate a c sa sc ha))
]
