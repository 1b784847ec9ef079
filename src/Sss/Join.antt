-- ===== src/Sss/Join.antt =====
-- How sss.c reads share files and puts the secret together.
use qsafe.Base.{
  ℕ, zero, suc, ◌+◌, ◌^◌, bit_xor, Bool, true, false, not, List, [], ◌∷◌, ◌++◌, ◌||◌, ◌&&◌, ◌==◌,
  ltb, if◌then◌else◌, map, length, get_or, take, drop, Bytes, bytes_eq,
}
use qsafe.Sss.Field.{gf_mul, gf_div}
use qsafe.Sss.Share.{
  Status, Outcome, done, failed, ◌>>=◌, ◌>>◌, found, stop_if, Calls, sss_magic, sss_header_size,
  sss_min_threshold, sss_max_threshold, load_u32le,
}

-- The fields that `read_share` gives.
pub record Share : Type 0 where
  pub set_id : Bytes
  pub index : ℕ
  pub threshold : ℕ
  pub digest : Bytes
  pub body : Bytes

-- The parameters that a header may not declare.
abbrev pub bad_header : ℕ → ℕ → ℕ → Bool
bad_header index threshold len =
    index == 0
    || (ltb threshold sss_min_threshold
        || (ltb sss_max_threshold threshold || (len == 0 || ltb (2 ^ 24) len)))

-- `read_share` on the bytes of a file.
unfoldable pub parse_share : Bytes → Outcome Share
parse_share file = do
  stop_if (ltb (length file) sss_header_size || not (bytes_eq (take 8 file) sss_magic)) Status.input
  let index = get_or file 24 0
  let threshold = get_or file 25 0
  let len = load_u32le (drop 26 file)
  stop_if (bad_header index threshold len) Status.input
  stop_if (not (length (drop 62 file) == len)) Status.input
  done (record {
    set_id = take 16 (drop 8 file);
    index = index;
    threshold = threshold;
    digest = take 32 (drop 30 file);
    body = drop 62 file;
  })

unfoldable pub read_share : Calls → Bytes → Outcome Share
unfolding parse_share
read_share c path = do file ← found (c.read_file path) Status.io; parse_share file

-- Whether a share belongs to the set of the first one.
abbrev pub same_set : Share → Share → Bool
same_set first s =
    bytes_eq s.set_id first.set_id
    && (s.threshold == first.threshold
        && (length s.body == length first.body && bytes_eq s.digest first.digest))

abbrev pub first_set : List Share → Share → Bool
first_set [] s = true
first_set (first ∷ seen) s = same_set first s

unfoldable pub has_index : List Share → ℕ → Bool
has_index [] i = false
has_index (s ∷ seen) i = s.index == i || has_index seen i

-- The loop that reads the files.
unfoldable pub read_shares : Calls → List Share → List Bytes → Outcome (List Share)
unfolding read_share has_index
read_shares c seen [] = done seen
read_shares c seen (path ∷ paths) = do
  s ← read_share c path
  stop_if (not (first_set seen s)) Status.mismatch
  stop_if (has_index seen s.index) Status.mismatch
  read_shares c (seen ++ (s ∷ [])) paths

-- The two products of one basis coefficient, over all shares but the one at place `i`.
unfoldable pub basis_products : ℕ → ℕ → ℕ → List ℕ → ℕ × ℕ → ℕ × ℕ
basis_products i x k [] nd = nd
basis_products i x k (xk ∷ xs) nd =
    basis_products i x (k + 1) xs
      (if k == i then nd else (gf_mul nd.0 xk, gf_mul nd.1 (bit_xor xk x)))

abbrev pub quotient_of : ℕ × ℕ → ℕ
quotient_of nd = gf_div nd.0 nd.1

unfoldable pub basis_at : List ℕ → ℕ → ℕ → ℕ
unfolding basis_products
basis_at xs i x = quotient_of (basis_products i x 0 xs (1, 1))

-- The basis coefficients from place `i` on.
unfoldable pub basis_from : List ℕ → ℕ → List ℕ → List ℕ
unfolding basis_at
basis_from xs i [] = []
basis_from xs i (x ∷ rest) = basis_at xs i x ∷ basis_from xs (i + 1) rest

-- One byte of the secret: the sum of the shares' bytes times the basis.
unfoldable pub combine : ℕ → List Bytes → List ℕ → ℕ → ℕ
combine j [] basis v = v
combine j (d ∷ ds) [] v = v
combine j (d ∷ ds) (b ∷ basis) v = combine j ds basis (bit_xor v (gf_mul (get_or d j 0) b))

unfoldable pub combine_all : ℕ → ℕ → List Bytes → List ℕ → Bytes
unfolding combine
combine_all zero j bodies basis = []
combine_all (suc rounds) j bodies basis =
    combine j bodies basis 0 ∷ combine_all rounds (j + 1) bodies basis

-- The interpolation at 0 with the first `t` shares.
unfoldable pub reconstruct : ℕ → ℕ → List Share → Bytes
unfolding basis_from combine_all
reconstruct t len shares =
    let xs = map (λ (s : Share). s.index) (take t shares) in
    combine_all len 0 (map (λ (s : Share). s.body) (take t shares)) (basis_from xs 0 xs)

-- The rest of `sss_join_files` once the shares are read.
unfoldable pub join_shares : Calls → ℕ → List Share → Outcome Bytes
unfolding reconstruct
join_shares c n_paths [] = failed Status.input
join_shares c n_paths (first ∷ shares) = do
  stop_if (ltb n_paths first.threshold) Status.input
  let secret = reconstruct first.threshold (length first.body) (first ∷ shares)
  check ← found (c.sha256 secret) Status.crypto
  stop_if (not (bytes_eq check first.digest)) Status.mismatch
  done secret

-- `sss_join_files`
unfoldable pub sss_join_files : Calls → List Bytes → Outcome Bytes
unfolding read_shares join_shares
sss_join_files c paths = do
  stop_if (ltb (length paths) sss_min_threshold || ltb sss_max_threshold (length paths))
      Status.input
  shares ← read_shares c [] paths
  join_shares c (length paths) shares
