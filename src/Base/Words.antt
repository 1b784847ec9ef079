-- ===== src/Base/Words.antt =====
-- Bytes, byte strings and the big-endian and little-endian words of the C code.
use Prim.Native.Nat.{ℕ, ◌+◌, ◌*◌, ◌/◌, ◌%◌, ◌^◌, ◌<◌}
use Prim.Native.Char.{code}
use Prim.Native.String.{String}
use mathlib.Core.Path.{◌≡◌, refl, sym, ap, ◌∙◌}
use mathlib.Core.Bool.{Bool, true, false, ◌&&◌}
use mathlib.Core.List.{List, [], ◌∷◌, ◌++◌}
use native.Mathlib.Omega.{arith}
use qsafe.Base.Tests.{◌==◌}
use qsafe.Base.Lists.{length, All, get_or}

-- `unsigned char[]`.
abbrev pub Bytes : Type 0
Bytes = List ℕ

abbrev pub IsByte : ℕ → Type 0
IsByte b = b < 256

abbrev pub IsU32 : ℕ → Type 0
IsU32 v = v < 2 ^ 32

-- `memcmp(a, b, n) == 0` (and `CRYPTO_memcmp`) on two buffers of one size.
unfoldable pub bytes_eq : Bytes → Bytes → Bool
bytes_eq [] [] = true
bytes_eq [] (y ∷ ys) = false
bytes_eq (x ∷ xs) [] = false
bytes_eq (x ∷ xs) (y ∷ ys) = x == y && bytes_eq xs ys

pub bytes_eq_refl : (xs : Bytes) → bytes_eq xs xs ≡ true
unfolding bytes_eq
bytes_eq_refl [] = refl
bytes_eq_refl (x ∷ xs) = ground (arith, bytes_eq_refl xs)

pub bytes_eq→eq : (xs ys : Bytes) → bytes_eq xs ys ≡ true → xs ≡ ys
unfolding bytes_eq
bytes_eq→eq [] [] h = refl
bytes_eq→eq [] (y ∷ ys) h = cc
bytes_eq→eq (x ∷ xs) [] h = cc
bytes_eq→eq (x ∷ xs) (y ∷ ys) h = ground (arith, bytes_eq→eq xs ys)

-- The four bytes that the code writes for a `uint32_t`, high byte first, and the word that it
-- reads back. The four fields of the read are disjoint, so that `|` is a sum.
unfoldable pub put_u32 : ℕ → Bytes
put_u32 v = (v / 2 ^ 24 % 256) ∷ (v / 2 ^ 16 % 256) ∷ (v / 2 ^ 8 % 256) ∷ (v % 256) ∷ []

unfoldable pub get_u32 : Bytes → ℕ
get_u32 p = get_or p 0 0 * 2 ^ 24 + get_or p 1 0 * 2 ^ 16 + get_or p 2 0 * 2 ^ 8 + get_or p 3 0

pub get_u32-put_u32 : (v : ℕ) (rest : Bytes) → IsU32 v → get_u32 (put_u32 v ++ rest) ≡ v
unfolding get_u32 put_u32
get_u32-put_u32 v rest h = omega arith

pub length-put_u32 : (v : ℕ) → length (put_u32 v) ≡ 4
unfolding put_u32
length-put_u32 v = refl

-- A two-byte size, high byte first.
unfoldable pub put_u16 : ℕ → Bytes
put_u16 v = (v / 2 ^ 8 % 256) ∷ (v % 256) ∷ []

unfoldable pub get_u16 : Bytes → ℕ
get_u16 p = get_or p 0 0 * 2 ^ 8 + get_or p 1 0

pub get_u16-put_u16 : (v : ℕ) (rest : Bytes) → v < 2 ^ 16 → get_u16 (put_u16 v ++ rest) ≡ v
unfolding get_u16 put_u16
get_u16-put_u16 v rest h = omega arith

-- The eight bytes of a `uint64_t`, high byte first.
unfoldable pub put_u64 : ℕ → Bytes
put_u64 v =
    (v / 2 ^ 56 % 256)
    ∷ (v / 2 ^ 48 % 256)
    ∷ (v / 2 ^ 40 % 256)
    ∷ (v / 2 ^ 32 % 256)
    ∷ (v / 2 ^ 24 % 256)
    ∷ (v / 2 ^ 16 % 256)
    ∷ (v / 2 ^ 8 % 256)
    ∷ (v % 256)
    ∷ []

-- The word that eight bytes stand for, high byte first.
unfoldable pub get_u64 : Bytes → ℕ
get_u64 p =
    get_or p 0 0 * 2 ^ 56
    + get_or p 1 0 * 2 ^ 48
    + get_or p 2 0 * 2 ^ 40
    + get_or p 3 0 * 2 ^ 32
    + get_or p 4 0 * 2 ^ 24
    + get_or p 5 0 * 2 ^ 16
    + get_or p 6 0 * 2 ^ 8
    + get_or p 7 0

pub get_u64-put_u64 : (v : ℕ) → v < 2 ^ 64 → get_u64 (put_u64 v) ≡ v
unfolding put_u64 get_u64
get_u64-put_u64 v h = omega arith

pub put_u64_inj : (v w : ℕ) → v < 2 ^ 64 → w < 2 ^ 64 → put_u64 v ≡ put_u64 w → v ≡ w
put_u64_inj v w hv hw e = sym (get_u64-put_u64 v hv) ∙ ap (λ p. get_u64 p) e ∙ get_u64-put_u64 w hw

pub length-put_u64 : (v : ℕ) → length (put_u64 v) ≡ 8
unfolding put_u64
length-put_u64 v = refl

pub put_u32-IsByte : (v : ℕ) → All IsByte (put_u32 v)
unfolding put_u32
put_u32-IsByte v = omega arith

pub get_u32-lt : (p : Bytes) → All IsByte p → IsU32 (get_u32 p)
unfolding get_u32
get_u32-lt [] h = omega arith
get_u32-lt (a ∷ []) h = omega arith
get_u32-lt (a ∷ b ∷ []) h = omega arith
get_u32-lt (a ∷ b ∷ c ∷ []) h = omega arith
get_u32-lt (a ∷ b ∷ c ∷ d ∷ p) h = omega arith

-- The characters of a C string literal, without the terminating zero.
abbrev pub codes : String → Bytes
codes String.[] = []
codes (String.◌∷◌ c s) = code c ∷ codes s
