-- ===== src/Base/Fields.antt =====
-- Reading the fields of a buffer, one behind another.
use Prim.Native.Nat.{ℕ, zero, suc, ◌+◌}
use mathlib.Core.Path.{◌≡◌, refl, sym, ap, ◌∙◌}
use mathlib.Core.List.{[], ◌∷◌, ◌++◌}
use native.Mathlib.Omega.{arith}
use qsafe.Base.Lists.{length, get_or, take, drop, take-append_length, drop-append_length}
use qsafe.Base.Words.{Bytes, IsU32, put_u32, get_u32, get_u32-put_u32}

pub drop-nil : (n : ℕ) → drop {A = ℕ} n [] ≡ []
drop-nil zero = refl
drop-nil (suc n) = refl

pub drop-drop : (n k : ℕ) (xs : Bytes) → drop (n + k) xs ≡ drop k (drop n xs)
drop-drop zero k xs = ap (λ t. drop t xs) (omega arith)
drop-drop (suc n) k [] = drop-nil (suc n + k) ∙ sym (drop-nil k)
drop-drop (suc n) k (x ∷ xs) =
    let e : suc n + k ≡ suc (n + k) = omega arith in ap (λ t. drop t (x ∷ xs)) e ∙ drop-drop n k xs

pub get_or-drop : (n i : ℕ) (xs : Bytes) → get_or (drop n xs) i 0 ≡ get_or xs (n + i) 0
get_or-drop zero i xs = ap (λ t. get_or xs t 0) (omega arith)
get_or-drop (suc n) i [] = refl
get_or-drop (suc n) i (x ∷ xs) =
    let e : suc n + i ≡ suc (n + i) = omega arith in
    get_or-drop n i xs ∙ ap (λ t. get_or (x ∷ xs) t 0) (sym e)

-- The reader moves over one field.
pub next :
    (buf xs rest : Bytes) (n k m : ℕ)
    → drop n buf ≡ xs ++ rest
    → length xs ≡ k
    → n + k ≡ m
    → drop m buf ≡ rest
next buf xs rest n k m at size sum =
    ap (λ t. drop t buf) (sym sum)
    ∙ drop-drop n k buf
    ∙ ap (drop k) at
    ∙ drop-append_length xs rest k size

pub field :
    (buf xs rest : Bytes) (n k : ℕ)
    → drop n buf ≡ xs ++ rest
    → length xs ≡ k
    → take k (drop n buf) ≡ xs
field buf xs rest n k at size = ap (take k) at ∙ take-append_length xs rest k size

pub word :
    (buf rest : Bytes) (n v : ℕ)
    → drop n buf ≡ put_u32 v ++ rest
    → IsU32 v
    → get_u32 (drop n buf) ≡ v
word buf rest n v at small = ap get_u32 at ∙ get_u32-put_u32 v rest small
