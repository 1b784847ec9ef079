-- ===== src/Sss/Share.antt =====
-- The share files of sss.c and how a secret is split into them. SHA-256, the random bytes and the
-- file system are parameters; a file is its bytes, and allocation is taken to succeed.
use qsafe.Base.{
  ℕ, zero, suc, ◌+◌, ◌-◌, ◌*◌, ◌/◌, ◌%◌, ◌^◌, bit_xor, Bool, true, false, not, Option, none, some,
  List, [], ◌∷◌, ◌++◌, ◌||◌, ◌==◌, ltb, leb, if◌then◌else◌, map, length, get_or, Bytes, codes,
}
use qsafe.Sss.Field.{gf_mul}

-- `sss_status`
pub data Status : Type 0 where
  ok input io memory crypto mismatch : Status

-- `sss_strerror`
unfoldable pub sss_strerror : Status → Bytes
sss_strerror Status.ok = codes "ok"
sss_strerror Status.input = codes "invalid parameters or malformed share"
sss_strerror Status.io = codes "I/O error"
sss_strerror Status.memory = codes "out of memory"
sss_strerror Status.crypto = codes "random generation failed"
sss_strerror Status.mismatch = codes "shares do not belong together or are corrupt"

-- A status with what the call gives on success.
pub data Outcome (A : Type 0) : Type 0 where
  done : A → Outcome A
  failed : Status → Outcome A

infixl 5 ◌>>=◌ ◌>>◌
abbrev pub after_done : {A B : Type 0} → (A → Outcome B) → Outcome A → Outcome B
after_done next (done a) = next a
after_done next (failed e) = failed e

abbrev pub ◌>>=◌ : {A B : Type 0} → Outcome A → (A → Outcome B) → Outcome B
m >>= next = after_done next m

abbrev pub ◌>>◌ : {A B : Type 0} → Outcome A → Outcome B → Outcome B
m >> next = after_done (λ _. next) m

abbrev pub found : {A : Type 0} → Option A → Status → Outcome A
found none e = failed e
found (some a) e = done a

abbrev pub stop_if : Bool → Status → Outcome (Unit {0})
stop_if true e = failed e
stop_if false e = done tt

-- What the code calls: SHA-256, `RAND_bytes`, whether `fopen` opens a path for writing, what a failed
-- `fwrite` has left in the file there (`none` if it does not fail), and the bytes of the file at a path.
pub record Calls : Type 0 where
  pub sha256 : Bytes → Option Bytes
  pub rand_bytes : ℕ → ℕ → Option Bytes
  pub opens : Bytes → Bool
  pub cut_short : Bytes → Option Bytes
  pub read_file : Bytes → Option Bytes

abbrev pub sss_magic : Bytes
sss_magic = codes "QSAFES01"

abbrev pub sss_header_size : ℕ
sss_header_size = 62

abbrev pub sss_min_threshold : ℕ
sss_min_threshold = 2

abbrev pub sss_max_threshold : ℕ
sss_max_threshold = 16

abbrev pub sss_max_shares : ℕ
sss_max_shares = 255

-- `store_u32le` and `load_u32le`; the four fields of the read are disjoint, so that `|` is a sum.
unfoldable pub store_u32le : ℕ → Bytes
store_u32le v = (v % 256) ∷ (v / 2 ^ 8 % 256) ∷ (v / 2 ^ 16 % 256) ∷ (v / 2 ^ 24 % 256) ∷ []

unfoldable pub load_u32le : Bytes → ℕ
load_u32le p = get_or p 0 0 + get_or p 1 0 * 2 ^ 8 + get_or p 2 0 * 2 ^ 16 + get_or p 3 0 * 2 ^ 24

-- The polynomial of one secret byte, and its value at `x` by Horner's rule, from the last
-- coefficient down to the secret byte.
unfoldable pub horner : Bytes → ℕ → ℕ
horner [] x = 0
horner (c ∷ []) x = c
horner (c ∷ (d ∷ cs)) x = bit_xor (gf_mul (horner (d ∷ cs) x) x) c

-- The random coefficients of every secret byte, drawn in order, behind that byte.
unfoldable pub draw_polynomials : Calls → (ℕ → ℕ) → ℕ → ℕ → Bytes → Outcome (List Bytes)
draw_polynomials c draw t j [] = done []
draw_polynomials c draw t j (s ∷ secret) = do
  coeffs ← found (c.rand_bytes (draw j) (t - 1)) Status.crypto
  rest ← draw_polynomials c draw t (j + 1) secret
  done ((s ∷ coeffs) ∷ rest)

-- One share: the values of all polynomials at its index.
abbrev pub share_data : List Bytes → ℕ → Bytes
share_data polynomials x = map (λ (p : Bytes). horner p x) polynomials

-- The header of a share.
unfoldable pub share_header : Bytes → ℕ → ℕ → ℕ → Bytes → Bytes
unfolding store_u32le
share_header set_id index t len digest =
    sss_magic ++ (set_id ++ ((index % 256) ∷ (t % 256) ∷ (store_u32le (len % 2 ^ 32) ++ digest)))

-- `%u` of a number below 1000, and the path of a share.
abbrev pub decimal : ℕ → Bytes
decimal n =
    if ltb n 10
    then (48 + n) ∷ []
    else if ltb n 100
    then (48 + n / 10) ∷ (48 + n % 10) ∷ []
    else (48 + n / 100) ∷ (48 + n / 10 % 10) ∷ (48 + n % 10) ∷ []

unfoldable pub share_path : Bytes → ℕ → Bytes
share_path prefix i = prefix ++ (codes ".share" ++ decimal i)

-- The files that the call leaves, and how it ended.
abbrev pub Written : Type 0
Written = List (Bytes × Bytes) × Outcome (Unit {0})

abbrev pub add_file : Bytes × Bytes → Written → Written
add_file f r = (f ∷ r.0, r.1)

abbrev pub after_write : Bytes → Option Bytes → Written → Written
after_write path (some part) r = ((path, part) ∷ [], failed Status.io)
after_write path none r = r

unfoldable pub write_shares : Calls → Bytes → (ℕ → Bytes) → ℕ → ℕ → Written
unfolding share_path
write_shares c prefix content zero i = ([], done tt)
write_shares c prefix content (suc rounds) i =
    let rest = write_shares c prefix content rounds (i + 1) in
    let path = share_path prefix i in
    if leb 1024 (length path)
    then ([], failed Status.input)
    else if not (c.opens path)
    then ([], failed Status.io)
    else after_write path (c.cut_short path) (add_file (path, content i) rest)

-- The arguments that `sss_split_to_files` refuses.
abbrev pub bad_split : Bytes → ℕ → ℕ → Bool
bad_split secret t n =
    length secret == 0
    || (ltb (2 ^ 32 - 1) (length secret)
        || (ltb t sss_min_threshold
            || (ltb sss_max_threshold t || (ltb n t || ltb sss_max_shares n))))

-- The set id, the digest and the polynomials, in the code's order.
unfoldable pub prepare_split : Calls → (ℕ → ℕ) → Bytes → ℕ → Outcome (Bytes × Bytes × List Bytes)
unfolding draw_polynomials
prepare_split c draw secret t = do
  set_id ← found (c.rand_bytes (draw 0) 16) Status.crypto
  digest ← found (c.sha256 secret) Status.crypto
  polynomials ← draw_polynomials c draw t 1 secret
  done (set_id, digest, polynomials)

-- The file of one share.
unfoldable pub share_file : Bytes → ℕ → Bytes → Bytes → List Bytes → ℕ → Bytes
unfolding share_header
share_file set_id t secret digest polynomials i =
    share_header set_id i t (length secret) digest ++ share_data polynomials i

-- The shares are written once all is prepared.
abbrev pub write_prepared :
    Calls → Bytes → ℕ → ℕ → Bytes → Outcome (Bytes × Bytes × List Bytes) → Written
write_prepared c secret t n prefix (failed e) = ([], failed e)
write_prepared c secret t n prefix (done (set_id, digest, polynomials)) =
    write_shares c prefix (share_file set_id t secret digest polynomials) n 1

-- `sss_split_to_files`
unfoldable pub sss_split_to_files : Calls → (ℕ → ℕ) → Bytes → ℕ → ℕ → Bytes → Written
unfolding prepare_split write_shares
sss_split_to_files c draw secret t n prefix =
    if bad_split secret t n
    then ([], failed Status.input)
    else write_prepared c secret t n prefix (prepare_split c draw secret t)
