-- ===== src/Sss/Laws.antt =====
-- gf_mul and gf_div of sss.c are the multiplication and division of a field whose sum is `^`.
use qsafe.Base.{
  ℕ, zero, suc, ◌+◌, ◌-◌, ◌%◌, ◌<◌, ◌≡◌, ◌≢◌, ◌⊎◌, inl, inr, refl, ◌∙◌, sym, ap, subst, Bool,
  Bool-cases, true, false, ltb, ltb→lt, ltb→le, ◌||◌, ◌==◌, if◌then◌else◌, arith,
}
use qsafe.Sss.Field.{gf_mul, gf_div}
use qsafe.Sss.Tables.{
  exp_at, log_at, exp_at-lt, exp_at-ne-zero, log_at-exp_at, log_at-lt, exp_at-log_at, exp_at_period,
  log_at_one, gf_mul_lem, gf_div_lem,
}

pub gf_mul_zero_left : (b : ℕ) → gf_mul 0 b ≡ 0
gf_mul_zero_left b = gf_mul_lem 0 b

pub gf_mul_zero_right : (a : ℕ) → gf_mul a 0 ≡ 0
gf_mul_zero_right a = gf_mul_lem a 0 ∙ ground arith

pub gf_mul_powers : (a b : ℕ) → a ≢ 0 → b ≢ 0 → gf_mul a b ≡ exp_at (log_at a + log_at b)
gf_mul_powers a b ha hb = gf_mul_lem a b ∙ ground arith

gf_div_powers : (a b : ℕ) → a ≢ 0 → gf_div a b ≡ exp_at (log_at a + 255 - log_at b)
gf_div_powers a b ha = gf_div_lem a b ∙ ground arith

or_swap : (a b : Bool) (t : ℕ) → (if a || b then 0 else t) ≡ (if b || a then 0 else t)
or_swap true true t = refl
or_swap true false t = refl
or_swap false true t = refl
or_swap false false t = refl

pub gf_mul_comm : (a b : ℕ) → gf_mul a b ≡ gf_mul b a
gf_mul_comm a b =
    let sum : log_at a + log_at b ≡ log_at b + log_at a = omega arith in
    gf_mul_lem a b
    ∙ ap (λ t. if a == 0 || b == 0 then 0 else exp_at t) sum
    ∙ or_swap (a == 0) (b == 0) (exp_at (log_at b + log_at a))
    ∙ sym (gf_mul_lem b a)

pub zero_or_not : (a : ℕ) → (a ≡ 0) ⊎ (a ≢ 0)
zero_or_not zero = inl refl
zero_or_not (suc a) = inr (λ h. absurd (omega arith))

exp_at_mod : (k : ℕ) → k < 510 → exp_at (k % 255) ≡ exp_at k
exp_at_mod k h = elim (Bool-cases (ltb k 255)) [
  | inl low ↦ let low' = ltb→lt k 255 low in ap exp_at (omega arith)
  | inr high ↦
      let high' = ltb→le k 255 high in
      let i = k - 255 in
      let e : k % 255 ≡ i = omega arith in
      let e' : i + 255 ≡ k = omega arith in
      ap exp_at e ∙ sym (exp_at_period i (omega arith)) ∙ ap exp_at e'
]

-- The exponent of a product.
record Powers (a b : ℕ) : Type 0 where
  small : gf_mul a b < 256
  nonzero : gf_mul a b ≢ 0
  exponent : log_at (gf_mul a b) ≡ (log_at a + log_at b) % 255

mul-Powers : (a b : ℕ) → a < 256 → b < 256 → a ≢ 0 → b ≢ 0 → Powers a b
mul-Powers a b sa sb ha hb =
    let la = log_at-lt a sa ha in
    let lb = log_at-lt b sb hb in
    let e = gf_mul_powers a b ha hb in
    let bound : log_at a + log_at b < 510 = omega arith in
    record {
      small = subst (λ t. t < 256) (sym e) (exp_at-lt (log_at a + log_at b) bound);
      nonzero = λ z. exp_at-ne-zero (log_at a + log_at b) bound (sym e ∙ z);
      exponent = ap log_at e ∙ log_at-exp_at (log_at a + log_at b) bound;
    }

pub gf_mul-lt : (a b : ℕ) → a < 256 → b < 256 → gf_mul a b < 256
gf_mul-lt a b sa sb = elim (zero_or_not a) [
  | inl za ↦
      subst (λ t. gf_mul t b < 256) (sym za)
        (subst (λ t. t < 256) (sym (gf_mul_zero_left b)) (omega arith))
  | inr ha ↦ elim (zero_or_not b) [
    | inl zb ↦
        subst (λ t. gf_mul a t < 256) (sym zb)
          (subst (λ t. t < 256) (sym (gf_mul_zero_right a)) (omega arith))
    | inr hb ↦ (mul-Powers a b sa sb ha hb).small
  ]
]

assoc_powers :
    (a b c : ℕ)
    → a < 256
    → b < 256
    → c < 256
    → a ≢ 0
    → b ≢ 0
    → c ≢ 0
    → gf_mul (gf_mul a b) c ≡ gf_mul a (gf_mul b c)
assoc_powers a b c sa sb sc ha hb hc =
    let ab = mul-Powers a b sa sb ha hb in
    let bc = mul-Powers b c sb sc hb hc in
    let la = log_at-lt a sa ha in
    let lb = log_at-lt b sb hb in
    let lc = log_at-lt c sc hc in
    let left = log_at (gf_mul a b) + log_at c in
    let right = log_at a + log_at (gf_mul b c) in
    let same : left % 255 ≡ right % 255 = omega (arith, ab.exponent, bc.exponent) in
    gf_mul_powers (gf_mul a b) c ab.nonzero hc
    ∙ sym (exp_at_mod left (omega (arith, ab.exponent)))
    ∙ ap exp_at same
    ∙ exp_at_mod right (omega (arith, bc.exponent))
    ∙ sym (gf_mul_powers a (gf_mul b c) ha bc.nonzero)

pub gf_mul_assoc :
    (a b c : ℕ) → a < 256 → b < 256 → c < 256 → gf_mul (gf_mul a b) c ≡ gf_mul a (gf_mul b c)
gf_mul_assoc a b c sa sb sc = elim (zero_or_not a) [
  | inl za ↦
      ap (λ t. gf_mul (gf_mul t b) c) za
      ∙ ap (λ t. gf_mul t c) (gf_mul_zero_left b)
      ∙ gf_mul_zero_left c
      ∙ sym (gf_mul_zero_left (gf_mul b c))
      ∙ ap (λ t. gf_mul t (gf_mul b c)) (sym za)
  | inr ha ↦ elim (zero_or_not b) [
    | inl zb ↦
        ap (λ t. gf_mul (gf_mul a t) c) zb
        ∙ ap (λ t. gf_mul t c) (gf_mul_zero_right a)
        ∙ gf_mul_zero_left c
        ∙ sym (gf_mul_zero_right a)
        ∙ ap (gf_mul a) (sym (gf_mul_zero_left c))
        ∙ ap (λ t. gf_mul a (gf_mul t c)) (sym zb)
    | inr hb ↦ elim (zero_or_not c) [
      | inl zc ↦
          ap (gf_mul (gf_mul a b)) zc
          ∙ gf_mul_zero_right (gf_mul a b)
          ∙ sym (gf_mul_zero_right a)
          ∙ ap (gf_mul a) (sym (gf_mul_zero_right b))
          ∙ ap (λ t. gf_mul a (gf_mul b t)) (sym zc)
      | inr hc ↦ assoc_powers a b c sa sb sc ha hb hc
    ]
  ]
]

pub gf_mul_one : (b : ℕ) → b < 256 → gf_mul 1 b ≡ b
gf_mul_one b sb = elim (zero_or_not b) [
  | inl zb ↦ ap (gf_mul 1) zb ∙ gf_mul_zero_right 1 ∙ sym zb
  | inr hb ↦
      gf_mul_powers 1 b (omega arith) hb
      ∙ ap (λ t. exp_at (t + log_at b)) log_at_one
      ∙ ap exp_at (zero_plus (log_at b))
      ∙ exp_at-log_at b sb hb
]
  where
    zero_plus : (n : ℕ) → 0 + n ≡ n
    zero_plus n = omega arith

-- Division undoes multiplication.
pub gf_div_mul : (a b : ℕ) → a < 256 → b < 256 → b ≢ 0 → gf_mul (gf_div a b) b ≡ a
gf_div_mul a b sa sb hb = elim (zero_or_not a) [
  | inl za ↦
      let zero_over : gf_div 0 b ≡ 0 = gf_div_lem 0 b in
      ap (λ t. gf_mul (gf_div t b) b) za
      ∙ ap (λ t. gf_mul t b) zero_over
      ∙ gf_mul_zero_left b
      ∙ sym za
  | inr ha ↦
      let la = log_at-lt a sa ha in
      let lb = log_at-lt b sb hb in
      let k = log_at a + 255 - log_at b in
      let bound : k < 510 = omega arith in
      let e = gf_div_powers a b ha in
      let nonzero : gf_div a b ≢ 0 = λ z. exp_at-ne-zero k bound (sym e ∙ z) in
      let exponent : log_at (gf_div a b) ≡ k % 255 = ap log_at e ∙ log_at-exp_at k bound in
      let sum = log_at (gf_div a b) + log_at b in
      let la_is : log_at a ≡ log_at a % 255 = omega arith in
      let same : sum % 255 ≡ log_at a % 255 = omega (arith, exponent) in
      gf_mul_powers (gf_div a b) b nonzero hb
      ∙ sym (exp_at_mod sum (omega (arith, exponent)))
      ∙ ap exp_at (same ∙ sym la_is)
      ∙ exp_at-log_at a sa ha
]

pub gf_div-lt : (a b : ℕ) → a < 256 → gf_div a b < 256
gf_div-lt a b sa = elim (zero_or_not a) [
  | inl za ↦ subst (λ t. t < 256) (sym (ap (λ t. gf_div t b) za ∙ gf_div_lem 0 b)) (omega arith)
  | inr ha ↦
      let la = log_at-lt a sa ha in
      let k = log_at a + 255 - log_at b in
      subst (λ t. t < 256) (sym (gf_div_powers a b ha)) (exp_at-lt k (omega arith))
]
