-- ===== src/Sss/Elements.antt =====
-- The bytes with the operations of sss.c as a field of characteristic 2, and the raw bytes of its
-- elements.
use qsafe.Base.{
  ℕ, suc, ◌<◌, ◌≡◌, refl, ◌∙◌, sym, ap, List, [], ◌∷◌, bit_xor, All, IsByte, Bytes, map, length,
  arith,
}
use mathlib.Core.HLevel.{Σ_prop_path}
use native.Mathlib.Bridge.{le_prop}
use qsafe.Base.Xor.{bit_xor_comm, bit_xor_assoc, bit_xor_self, bit_xor_zero_left, bit_xor-lt-256}
use qsafe.Sss.Field.{gf_mul, gf_div}
use qsafe.Sss.Laws.{
  gf_mul-lt, gf_div-lt, gf_mul_comm, gf_mul_assoc, gf_mul_one, gf_div_mul, gf_mul_zero_left,
}
use qsafe.Sss.Linear.{gf_mul-bit_xor}
use qsafe.Sss.Interpolation.{CharTwo, eval, eval_nil, eval_cons}
use qsafe.Sss.Share.{horner}

abbrev pub Element : Type 0
Element = (n : ℕ) × (n < 256)

pub Element-ext : (a b : Element) → a.0 ≡ b.0 → a ≡ b
Element-ext a b h = Σ_prop_path (λ n. le_prop) h

pub zero-lt-256 : 0 < 256
zero-lt-256 = omega arith

pub one-lt-256 : 1 < 256
one-lt-256 = omega arith

abbrev pub gf256 : CharTwo
gf256 = record {
  A = Element;
  null = (0, zero-lt-256);
  unit = (1, one-lt-256);
  add = λ a b. (bit_xor a.0 b.0, bit_xor-lt-256 a.0 b.0 a.1 b.1);
  mul = λ a b. (gf_mul a.0 b.0, gf_mul-lt a.0 b.0 a.1 b.1);
  div = λ a b. (gf_div a.0 b.0, gf_div-lt a.0 b.0 a.1);
  add_comm = λ a b. Element-ext _ _ (bit_xor_comm a.0 b.0);
  add_assoc = λ a b c. Element-ext _ _ (bit_xor_assoc a.0 b.0 c.0);
  add_null = λ a. Element-ext _ _ (bit_xor_zero_left a.0);
  add_self = λ a. Element-ext _ _ (bit_xor_self a.0);
  mul_comm = λ a b. Element-ext _ _ (gf_mul_comm a.0 b.0);
  mul_assoc = λ a b c. Element-ext _ _ (gf_mul_assoc a.0 b.0 c.0 a.1 b.1 c.1);
  mul_unit = λ a. Element-ext _ _ (gf_mul_one a.0 a.1);
  mul_add = λ a b c. Element-ext _ _ (gf_mul-bit_xor a.0 b.0 c.0 a.1 b.1 c.1);
  div_mul = λ a b ne.
      Element-ext _ _ (gf_div_mul a.0 b.0 a.1 b.1 (λ e. ne (Element-ext b (0, zero-lt-256) e)));
}

-- The raw bytes.
abbrev pub raw : List Element → Bytes
raw l = map (λ (a : Element). a.0) l

-- A byte string is the raw bytes of elements.
abbrev pub lift_all : (l : Bytes) → All IsByte l → List Element
lift_all [] h = []
lift_all (b ∷ l) h = (b, h.0) ∷ lift_all l h.1

pub raw-lift_all : (l : Bytes) (h : All IsByte l) → raw (lift_all l h) ≡ l
raw-lift_all [] h = refl
raw-lift_all (b ∷ l) h = ap (◌∷◌ b) (raw-lift_all l h.1)

pub length-lift_all : (l : Bytes) (h : All IsByte l) → length (lift_all l h) ≡ length l
length-lift_all [] h = refl
length-lift_all (b ∷ l) h = ap suc (length-lift_all l h.1)

-- Horner's rule evaluates the polynomial.
pub horner-eval : (p : List Element) (x : Element) → horner (raw p) x.0 ≡ (eval gf256 p x).0
unfolding horner
horner-eval [] x = sym (ap (λ (t : Element). t.0) (eval_nil gf256 x))
horner-eval (c ∷ []) x =
    sym (bit_xor_zero_left c.0)
    ∙ ap (λ t. bit_xor t c.0) (sym (gf_mul_zero_left x.0))
    ∙ ap (λ (t : Element). bit_xor (gf_mul t.0 x.0) c.0) (sym (eval_nil gf256 x))
    ∙ sym (ap (λ (t : Element). t.0) (eval_cons gf256 c [] x))
horner-eval (c ∷ (d ∷ p)) x =
    ap (λ t. bit_xor (gf_mul t x.0) c.0) (horner-eval (d ∷ p) x)
    ∙ sym (ap (λ (t : Element). t.0) (eval_cons gf256 c (d ∷ p) x))
