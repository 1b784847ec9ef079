-- ===== src/Sss/Tables.antt =====
-- The tables of gf_init of sss.c, written out, and the powers of its generator.
use qsafe.Base.{
  ℕ, zero, suc, ◌+◌, ◌-◌, ◌%◌, ◌<◌, ◌≡◌, refl, ◌∙◌, sym, ap, subst, Bool, true, not, ltb, ltb→lt,
  bit_xor, if◌then◌else◌, ◌≢◌, ◌++◌, ◌||◌, ◌&&◌, ◌==◌, ==_iff, get_or, [], ◌∷◌, Bytes, arith,
}
use qsafe.Sss.Field.{gf_reduce, gf_next, gf_init, gf_mul, gf_div}

-- 3 ^ i for i below 255.
abbrev pub powers : Bytes
powers =
    1 ∷ 3 ∷ 5 ∷ 15 ∷ 17 ∷ 51 ∷ 85 ∷ 255 ∷ 26 ∷ 46 ∷ 114 ∷ 150 ∷ 161 ∷ 248 ∷ 19 ∷ 53 ∷ 95 ∷ 225 ∷ 56
    ∷ 72 ∷ 216 ∷ 115 ∷ 149 ∷ 164 ∷ 247 ∷ 2 ∷ 6 ∷ 10 ∷ 30 ∷ 34 ∷ 102 ∷ 170 ∷ 229 ∷ 52 ∷ 92 ∷ 228 ∷ 55
    ∷ 89 ∷ 235 ∷ 38 ∷ 106 ∷ 190 ∷ 217 ∷ 112 ∷ 144 ∷ 171 ∷ 230 ∷ 49 ∷ 83 ∷ 245 ∷ 4 ∷ 12 ∷ 20 ∷ 60
    ∷ 68 ∷ 204 ∷ 79 ∷ 209 ∷ 104 ∷ 184 ∷ 211 ∷ 110 ∷ 178 ∷ 205 ∷ 76 ∷ 212 ∷ 103 ∷ 169 ∷ 224 ∷ 59 ∷ 77
    ∷ 215 ∷ 98 ∷ 166 ∷ 241 ∷ 8 ∷ 24 ∷ 40 ∷ 120 ∷ 136 ∷ 131 ∷ 158 ∷ 185 ∷ 208 ∷ 107 ∷ 189 ∷ 220 ∷ 127
    ∷ 129 ∷ 152 ∷ 179 ∷ 206 ∷ 73 ∷ 219 ∷ 118 ∷ 154 ∷ 181 ∷ 196 ∷ 87 ∷ 249 ∷ 16 ∷ 48 ∷ 80 ∷ 240 ∷ 11
    ∷ 29 ∷ 39 ∷ 105 ∷ 187 ∷ 214 ∷ 97 ∷ 163 ∷ 254 ∷ 25 ∷ 43 ∷ 125 ∷ 135 ∷ 146 ∷ 173 ∷ 236 ∷ 47 ∷ 113
    ∷ 147 ∷ 174 ∷ 233 ∷ 32 ∷ 96 ∷ 160 ∷ 251 ∷ 22 ∷ 58 ∷ 78 ∷ 210 ∷ 109 ∷ 183 ∷ 194 ∷ 93 ∷ 231 ∷ 50
    ∷ 86 ∷ 250 ∷ 21 ∷ 63 ∷ 65 ∷ 195 ∷ 94 ∷ 226 ∷ 61 ∷ 71 ∷ 201 ∷ 64 ∷ 192 ∷ 91 ∷ 237 ∷ 44 ∷ 116
    ∷ 156 ∷ 191 ∷ 218 ∷ 117 ∷ 159 ∷ 186 ∷ 213 ∷ 100 ∷ 172 ∷ 239 ∷ 42 ∷ 126 ∷ 130 ∷ 157 ∷ 188 ∷ 223
    ∷ 122 ∷ 142 ∷ 137 ∷ 128 ∷ 155 ∷ 182 ∷ 193 ∷ 88 ∷ 232 ∷ 35 ∷ 101 ∷ 175 ∷ 234 ∷ 37 ∷ 111 ∷ 177
    ∷ 200 ∷ 67 ∷ 197 ∷ 84 ∷ 252 ∷ 31 ∷ 33 ∷ 99 ∷ 165 ∷ 244 ∷ 7 ∷ 9 ∷ 27 ∷ 45 ∷ 119 ∷ 153 ∷ 176 ∷ 203
    ∷ 70 ∷ 202 ∷ 69 ∷ 207 ∷ 74 ∷ 222 ∷ 121 ∷ 139 ∷ 134 ∷ 145 ∷ 168 ∷ 227 ∷ 62 ∷ 66 ∷ 198 ∷ 81 ∷ 243
    ∷ 14 ∷ 18 ∷ 54 ∷ 90 ∷ 238 ∷ 41 ∷ 123 ∷ 141 ∷ 140 ∷ 143 ∷ 138 ∷ 133 ∷ 148 ∷ 167 ∷ 242 ∷ 13 ∷ 23
    ∷ 57 ∷ 75 ∷ 221 ∷ 124 ∷ 132 ∷ 151 ∷ 162 ∷ 253 ∷ 28 ∷ 36 ∷ 108 ∷ 180 ∷ 199 ∷ 82 ∷ 246 ∷ []

-- The exponent of each byte.
abbrev pub logs : Bytes
logs =
    0 ∷ 0 ∷ 25 ∷ 1 ∷ 50 ∷ 2 ∷ 26 ∷ 198 ∷ 75 ∷ 199 ∷ 27 ∷ 104 ∷ 51 ∷ 238 ∷ 223 ∷ 3 ∷ 100 ∷ 4 ∷ 224
    ∷ 14 ∷ 52 ∷ 141 ∷ 129 ∷ 239 ∷ 76 ∷ 113 ∷ 8 ∷ 200 ∷ 248 ∷ 105 ∷ 28 ∷ 193 ∷ 125 ∷ 194 ∷ 29 ∷ 181
    ∷ 249 ∷ 185 ∷ 39 ∷ 106 ∷ 77 ∷ 228 ∷ 166 ∷ 114 ∷ 154 ∷ 201 ∷ 9 ∷ 120 ∷ 101 ∷ 47 ∷ 138 ∷ 5 ∷ 33
    ∷ 15 ∷ 225 ∷ 36 ∷ 18 ∷ 240 ∷ 130 ∷ 69 ∷ 53 ∷ 147 ∷ 218 ∷ 142 ∷ 150 ∷ 143 ∷ 219 ∷ 189 ∷ 54 ∷ 208
    ∷ 206 ∷ 148 ∷ 19 ∷ 92 ∷ 210 ∷ 241 ∷ 64 ∷ 70 ∷ 131 ∷ 56 ∷ 102 ∷ 221 ∷ 253 ∷ 48 ∷ 191 ∷ 6 ∷ 139
    ∷ 98 ∷ 179 ∷ 37 ∷ 226 ∷ 152 ∷ 34 ∷ 136 ∷ 145 ∷ 16 ∷ 126 ∷ 110 ∷ 72 ∷ 195 ∷ 163 ∷ 182 ∷ 30 ∷ 66
    ∷ 58 ∷ 107 ∷ 40 ∷ 84 ∷ 250 ∷ 133 ∷ 61 ∷ 186 ∷ 43 ∷ 121 ∷ 10 ∷ 21 ∷ 155 ∷ 159 ∷ 94 ∷ 202 ∷ 78
    ∷ 212 ∷ 172 ∷ 229 ∷ 243 ∷ 115 ∷ 167 ∷ 87 ∷ 175 ∷ 88 ∷ 168 ∷ 80 ∷ 244 ∷ 234 ∷ 214 ∷ 116 ∷ 79
    ∷ 174 ∷ 233 ∷ 213 ∷ 231 ∷ 230 ∷ 173 ∷ 232 ∷ 44 ∷ 215 ∷ 117 ∷ 122 ∷ 235 ∷ 22 ∷ 11 ∷ 245 ∷ 89
    ∷ 203 ∷ 95 ∷ 176 ∷ 156 ∷ 169 ∷ 81 ∷ 160 ∷ 127 ∷ 12 ∷ 246 ∷ 111 ∷ 23 ∷ 196 ∷ 73 ∷ 236 ∷ 216 ∷ 67
    ∷ 31 ∷ 45 ∷ 164 ∷ 118 ∷ 123 ∷ 183 ∷ 204 ∷ 187 ∷ 62 ∷ 90 ∷ 251 ∷ 96 ∷ 177 ∷ 134 ∷ 59 ∷ 82 ∷ 161
    ∷ 108 ∷ 170 ∷ 85 ∷ 41 ∷ 157 ∷ 151 ∷ 178 ∷ 135 ∷ 144 ∷ 97 ∷ 190 ∷ 220 ∷ 252 ∷ 188 ∷ 149 ∷ 207
    ∷ 205 ∷ 55 ∷ 63 ∷ 91 ∷ 209 ∷ 83 ∷ 57 ∷ 132 ∷ 60 ∷ 65 ∷ 162 ∷ 109 ∷ 71 ∷ 20 ∷ 42 ∷ 158 ∷ 93 ∷ 86
    ∷ 242 ∷ 211 ∷ 171 ∷ 68 ∷ 17 ∷ 146 ∷ 217 ∷ 35 ∷ 32 ∷ 46 ∷ 137 ∷ 180 ∷ 124 ∷ 184 ∷ 38 ∷ 119 ∷ 153
    ∷ 227 ∷ 165 ∷ 103 ∷ 74 ∷ 237 ∷ 222 ∷ 197 ∷ 49 ∷ 254 ∷ 24 ∷ 13 ∷ 99 ∷ 140 ∷ 128 ∷ 192 ∷ 247 ∷ 112
    ∷ 7 ∷ []

-- The tables, behind the facts below.
pub exp_at : ℕ → ℕ
exp_at i = get_or gf_init.gf_exp i 0

pub log_at : ℕ → ℕ
log_at a = get_or gf_init.gf_log a 0

abbrev exps : Bytes
exps = powers ++ (powers ++ (1 ∷ 3 ∷ []))

exp_at_lem : (i : ℕ) → exp_at i ≡ get_or exps i 0
unfolding exp_at gf_init
exp_at_lem i = refl

log_at_lem : (a : ℕ) → log_at a ≡ get_or logs a 0
unfolding log_at gf_init
log_at_lem a = refl

-- A test of every number below a bound.
passes : (ℕ → Bool) → ℕ → Bool
passes test zero = true
passes test (suc n) = passes test n && test n

passes_at : (test : ℕ → Bool) (n i : ℕ) → passes test n ≡ true → i < n → test i ≡ true
unfolding passes
passes_at test zero i h lt = absurd (omega arith)
passes_at test (suc n) i h lt = ground (arith, passes_at test n i)

both_hold : (a b : Bool) → (a && b) ≡ true → (a ≡ true) × (b ≡ true)
both_hold a b h = ground arith

not_zero : (a : ℕ) → not (a == 0) ≡ true → a ≢ 0
not_zero a h e = ground arith

zero_or : (a b : ℕ) → (a == 0 || b == a) ≡ true → a ≢ 0 → b ≡ a
zero_or a b h ne = ground arith

-- Each power is a byte other than 0, and stands at its exponent.
abbrev good_power : ℕ → Bool
good_power i = let a = get_or exps i 0 in ltb a 256 && (not (a == 0) && get_or logs a 0 == i % 255)

good_powers : passes good_power 510 ≡ true
unfolding passes
good_powers = refl

-- Each byte other than 0 is the power of its exponent, which is below 255.
abbrev good_log : ℕ → Bool
good_log a = let i = get_or logs a 0 in ltb i 255 && (a == 0 || get_or exps i 0 == a)

good_logs : passes good_log 256 ≡ true
unfolding passes
good_logs = refl

-- The powers have period 255, and go on by the generator.
abbrev good_step : ℕ → Bool
good_step i = get_or exps (i + 1) 0 == gf_next (get_or exps i 0)

good_steps : passes good_step 511 ≡ true
unfolding passes gf_next
good_steps = refl

abbrev good_period : ℕ → Bool
good_period i = get_or exps (i + 255) 0 == get_or exps i 0

good_periods : passes good_period 257 ≡ true
unfolding passes
good_periods = refl

power_facts :
    (i : ℕ)
    → i < 510
    → (get_or exps i 0 < 256) × (get_or exps i 0 ≢ 0) × (get_or logs (get_or exps i 0) 0 ≡ i % 255)
power_facts i h =
    let a = get_or exps i 0 in
    let (small, rest) =
      both_hold (ltb a 256) (not (a == 0) && get_or logs a 0 == i % 255)
        (passes_at good_power 510 i good_powers h) in
    let (nonzero, at) = both_hold (not (a == 0)) (get_or logs a 0 == i % 255) rest in
    (ltb→lt a 256 small, not_zero a nonzero, (==_iff (get_or logs a 0) (i % 255)).0 at)

log_facts :
    (a : ℕ) → a < 256 → a ≢ 0 → (get_or logs a 0 < 255) × (get_or exps (get_or logs a 0) 0 ≡ a)
log_facts a h ne =
    let i = get_or logs a 0 in
    let (small, at) =
      both_hold (ltb i 255) (a == 0 || get_or exps i 0 == a)
        (passes_at good_log 256 a good_logs h) in
    (ltb→lt i 255 small, zero_or a (get_or exps i 0) at ne)

pub exp_at-lt : (i : ℕ) → i < 510 → exp_at i < 256
exp_at-lt i h = subst (λ a. a < 256) (sym (exp_at_lem i)) (power_facts i h).0

pub exp_at-ne-zero : (i : ℕ) → i < 510 → exp_at i ≢ 0
exp_at-ne-zero i h e = (power_facts i h).1 (sym (exp_at_lem i) ∙ e)

pub log_at-exp_at : (i : ℕ) → i < 510 → log_at (exp_at i) ≡ i % 255
log_at-exp_at i h = ap log_at (exp_at_lem i) ∙ log_at_lem (get_or exps i 0) ∙ (power_facts i h).2

pub log_at-lt : (a : ℕ) → a < 256 → a ≢ 0 → log_at a < 255
log_at-lt a h ne = subst (λ i. i < 255) (sym (log_at_lem a)) (log_facts a h ne).0

pub exp_at-log_at : (a : ℕ) → a < 256 → a ≢ 0 → exp_at (log_at a) ≡ a
exp_at-log_at a h ne =
    ap exp_at (log_at_lem a) ∙ exp_at_lem (get_or logs a 0) ∙ (log_facts a h ne).1

pub exp_at_step : (i : ℕ) → i < 511 → exp_at (i + 1) ≡ gf_next (exp_at i)
exp_at_step i h =
    exp_at_lem (i + 1)
    ∙ (==_iff (get_or exps (i + 1) 0) (gf_next (get_or exps i 0))).0
        (passes_at good_step 511 i good_steps h)
    ∙ ap gf_next (sym (exp_at_lem i))

pub exp_at_period : (i : ℕ) → i < 257 → exp_at (i + 255) ≡ exp_at i
exp_at_period i h =
    exp_at_lem (i + 255)
    ∙ (==_iff (get_or exps (i + 255) 0) (get_or exps i 0)).0
        (passes_at good_period 257 i good_periods h)
    ∙ sym (exp_at_lem i)

-- The test of the carry bit in `gf_init`.
abbrev carry_test : ℕ → Bool
carry_test u = gf_reduce u == (if ltb u 256 then u else bit_xor u 0x11b)

carry_tests : passes carry_test 512 ≡ true
unfolding passes gf_reduce
carry_tests = refl

pub gf_reduce_carry : (u : ℕ) → u < 512 → gf_reduce u ≡ (if ltb u 256 then u else bit_xor u 0x11b)
gf_reduce_carry u h =
    (==_iff (gf_reduce u) (if ltb u 256 then u else bit_xor u 0x11b)).0
      (passes_at carry_test 512 u carry_tests h)

-- Multiplication and division by the tables.
pub gf_mul_lem :
    (a b : ℕ) → gf_mul a b ≡ (if a == 0 || b == 0 then 0 else exp_at (log_at a + log_at b))
unfolding gf_mul exp_at log_at
gf_mul_lem a b = refl

pub gf_div_lem : (a b : ℕ) → gf_div a b ≡ (if a == 0 then 0 else exp_at (log_at a + 255 - log_at b))
unfolding gf_div exp_at log_at
gf_div_lem a b = refl

pub log_at_one : log_at 1 ≡ 0
log_at_one = log_at_lem 1

pub log_at_three : log_at 3 ≡ 1
log_at_three = log_at_lem 3
