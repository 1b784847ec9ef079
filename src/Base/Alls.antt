-- ===== src/Base/Alls.antt =====
-- Lists all of whose members have a property.
use Prim.Native.Nat.{ℕ, zero, suc}
use mathlib.Core.List.{List, [], ◌∷◌, ◌++◌}
use qsafe.Base.Lists.{All, replicate}

pub All-append :
    {A : Type 0} (P : A → Type 0) (xs ys : List A) → All P xs → All P ys → All P (xs ++ ys)
All-append P [] ys h k = k
All-append P (x ∷ xs) ys h k = (h.0, All-append P xs ys h.1 k)

-- What is related to all that were seen, and to one more.
pub All-extend :
    {A : Type 0} (R : A → A → Type 0) (x : A) (seen rest : List A)
    → All (λ r. All (λ y. R y r) seen) rest
    → All (λ r. R x r) rest
    → All (λ r. All (λ y. R y r) (seen ++ (x ∷ []))) rest
All-extend R x seen [] h k = tt
All-extend R x seen (r ∷ rest) h k =
    (All-append (λ y. R y r) seen (x ∷ []) h.0 (k.0, tt), All-extend R x seen rest h.1 k.1)

pub replicate-All : {A : Type 0} (P : A → Type 0) (n : ℕ) (a : A) → P a → All P (replicate n a)
replicate-All P zero a h = tt
replicate-All P (suc n) a h = (h, replicate-All P n a h)
