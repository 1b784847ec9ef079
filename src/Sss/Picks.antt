-- ===== src/Sss/Picks.antt =====
-- The indices of the shares that are joined, as distinct points of the field of sss.c.
use qsafe.Base.{
  ℕ, zero, suc, ◌≤◌, ◌<◌, ◌≡◌, ◌≢◌, refl, ◌∙◌, sym, ap, List, [], ◌∷◌, take, map, All, IsByte,
  bit_xor, arith,
}
use qsafe.Base.Xor.{bit_xor_assoc, bit_xor_self, bit_xor_zero_left, bit_xor_zero_right}
use qsafe.Sss.Interpolation.{Distinct}
use qsafe.Sss.Elements.{Element, gf256, lift_all}

-- No index twice.
abbrev pub DistinctPicks : List ℕ → Type 0
DistinctPicks [] = Unit
DistinctPicks (i ∷ picks) = All (λ (k : ℕ). i ≢ k) picks × DistinctPicks picks

-- Indices of shares that were written.
abbrev pub InRange : ℕ → List ℕ → Type 0
InRange n picks = All (λ (i : ℕ). (1 ≤ i) × (i ≤ n)) picks

sum_zero : (a b : ℕ) → bit_xor a b ≡ 0 → a ≡ b
sum_zero a b h =
    sym (bit_xor_zero_right a)
    ∙ ap (bit_xor a) (sym h)
    ∙ sym (bit_xor_assoc a a b)
    ∙ ap (λ t. bit_xor t b) (bit_xor_self a)
    ∙ bit_xor_zero_left b

pub All-bytes : (n : ℕ) (picks : List ℕ) → n < 256 → InRange n picks → All IsByte picks
All-bytes n [] h r = tt
All-bytes n (i ∷ picks) h r = (omega (arith, r.0), All-bytes n picks h r.1)

lifted-apart :
    (i : ℕ) (small : i < 256) (picks : List ℕ) (h : All IsByte picks)
    → All (λ (k : ℕ). i ≢ k) picks
    → All (λ (y : Element). gf256.add (i, small) y ≢ gf256.null) (lift_all picks h)
lifted-apart i small [] h d = tt
lifted-apart i small (k ∷ picks) h d =
    ((λ e. d.0 (sum_zero i k (ap (λ (t : Element). t.0) e))), lifted-apart i small picks h.1 d.1)

pub lifted-Distinct :
    (picks : List ℕ) (h : All IsByte picks)
    → DistinctPicks picks
    → Distinct gf256 (lift_all picks h)
lifted-Distinct [] h d = tt
lifted-Distinct (i ∷ picks) h d = (lifted-apart i h.0 picks h.1 d.0, lifted-Distinct picks h.1 d.1)

pub take-All : (P : ℕ → Type 0) (t : ℕ) (l : List ℕ) → All P l → All P (take t l)
take-All P zero l h = tt
take-All P (suc t) [] h = tt
take-All P (suc t) (x ∷ l) h = (h.0, take-All P t l h.1)

pub take-DistinctPicks : (t : ℕ) (l : List ℕ) → DistinctPicks l → DistinctPicks (take t l)
take-DistinctPicks zero l h = tt
take-DistinctPicks (suc t) [] h = tt
take-DistinctPicks (suc t) (x ∷ l) h =
    (take-All (λ (k : ℕ). x ≢ k) t l h.0, take-DistinctPicks t l h.1)

pub take-map : {A : Type 0} (g : ℕ → A) (t : ℕ) (l : List ℕ) → take t (map g l) ≡ map g (take t l)
take-map g zero l = refl
take-map g (suc t) [] = refl
take-map g (suc t) (x ∷ l) = ap (◌∷◌ (g x)) (take-map g t l)
