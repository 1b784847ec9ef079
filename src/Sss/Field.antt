-- ===== src/Sss/Field.antt =====
-- The arithmetic of sss.c: the tables of powers and logarithms, multiplication and division.
use qsafe.Base.{
  ℕ, zero, suc, ◌+◌, ◌-◌, ◌*◌, ◌%◌, ◌^◌, bit_xor, bit_and, ◌||◌, ◌==◌, if◌then◌else◌, get_or, set,
  replicate, Bytes,
}

-- `gf_exp[512]` and `gf_log[256]`
pub record Tables : Type 0 where
  pub gf_exp : Bytes
  pub gf_log : Bytes

-- `x ^= x << 1; if (x & 0x100) x ^= 0x11b;`
unfoldable pub gf_reduce : ℕ → ℕ
gf_reduce y = if bit_and y 0x100 == 0 then y else bit_xor y 0x11b

unfoldable pub gf_next : ℕ → ℕ
unfolding gf_reduce
gf_next x = gf_reduce (bit_xor x (x * 2 % 2 ^ 32))

-- One round of the first loop of `gf_init`.
abbrev pub fill_round : ℕ → ℕ → Tables → Tables
fill_round i x t = record { gf_exp = set t.gf_exp i (x % 256); gf_log = set t.gf_log x (i % 256) }

unfoldable pub fill_loop : ℕ → ℕ → ℕ → Tables → Tables
fill_loop zero i x t = t
fill_loop (suc rounds) i x t = fill_loop rounds (i + 1) (gf_next x) (fill_round i x t)

-- The second loop, which repeats the powers.
unfoldable pub copy_loop : ℕ → ℕ → Tables → Tables
copy_loop zero i t = t
copy_loop (suc rounds) i t =
    copy_loop rounds (i + 1) (record t { gf_exp = set t.gf_exp i (get_or t.gf_exp (i - 255) 0) })

-- `gf_init`
unfoldable pub gf_init : Tables
unfolding fill_loop copy_loop gf_next
gf_init =
    copy_loop 257 255
      (fill_loop 255 0 1 (record { gf_exp = replicate 512 0; gf_log = replicate 256 0 }))

-- `gf_mul`
unfoldable pub gf_mul : ℕ → ℕ → ℕ
gf_mul a b =
    if a == 0 || b == 0
    then 0
    else get_or gf_init.gf_exp (get_or gf_init.gf_log a 0 + get_or gf_init.gf_log b 0) 0

-- `gf_div`
unfoldable pub gf_div : ℕ → ℕ → ℕ
gf_div a b =
    if a == 0
    then 0
    else get_or gf_init.gf_exp (get_or gf_init.gf_log a 0 + 255 - get_or gf_init.gf_log b 0) 0
