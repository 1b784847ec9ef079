-- ===== src/Sss/Tests.antt =====
-- Runs of sss.c's functions on small secrets.
use qsafe.Base.{
  ℕ, ◌+◌, ◌%◌, ◌≡◌, refl, sym, ◌∙◌, true, false, Option, none, some, List, [], ◌∷◌, if◌then◌else◌,
  length, map, replicate, length-replicate, All, IsByte, Bytes, bytes_eq, subst, some_inj, arith,
}
use qsafe.Sss.Field.{gf_mul, gf_init}
use qsafe.Sss.Polynomial.{polynomial_product, gf_mul-polynomial_product}
use qsafe.Sss.Share.{
  Status, done, failed, Calls, share_path, sss_split_to_files, bad_split, share_file,
}
use qsafe.Sss.Join.{sss_join_files, parse_share}
use qsafe.Sss.Files.{SetFits}
use qsafe.Sss.Splitting.{IsCalls}
use qsafe.Sss.Sound.{JoinedFrom, join_sound}
use qsafe.Sss.Secrecy.{Hides, sss_split_to_files-Hides}
use qsafe.Sss.RoundTrip.{Stored, join-split, share_file_long}
use qsafe.Base.Alls.{replicate-All}

gf_mul-polynomial_product_example : gf_mul 0x57 0x83 ≡ polynomial_product 8 0x57 0x83
gf_mul-polynomial_product_example = gf_mul-polynomial_product 0x57 0x83 (omega arith) (omega arith)

-- The product that FIPS 197 computes.
product_known : gf_mul 0x57 0x83 ≡ 0xc1
unfolding gf_mul gf_init
product_known = refl

abbrev file_at : List (Bytes × Bytes) → Bytes → Option Bytes
file_at [] path = none
file_at ((p, content) ∷ files) path = if bytes_eq p path then some content else file_at files path

-- A disk that holds these files, constant random bytes, and a digest that is the same for all.
abbrev disk : List (Bytes × Bytes) → Calls
disk files = record {
  sha256 = λ m. some (replicate 32 7);
  rand_bytes = λ d n. some (replicate n (d % 256));
  opens = λ path. true;
  cut_short = λ path. none;
  read_file = file_at files;
}

disk-IsCalls : (files : List (Bytes × Bytes)) → IsCalls (disk files)
disk-IsCalls files = record {
  fills = λ d n out e.
      subst (λ (l : Bytes). All IsByte l × (length l ≡ n)) (some_inj e)
        (replicate-All IsByte n (d % 256) (omega arith), length-replicate {A = ℕ} n (d % 256));
  digest_size = λ m out e. subst (λ (l : Bytes). length l ≡ 32) (some_inj e) refl;
}

abbrev key : Bytes
key = 0x41 ∷ 0xfe ∷ []

abbrev draws : ℕ → ℕ
draws n = n + 3

abbrev shares : List (Bytes × Bytes)
shares = (sss_split_to_files (disk []) draws key 2 3 (0x6b ∷ [])).0

key_split : sss_split_to_files (disk shares) draws key 2 3 (0x6b ∷ []) ≡ (shares, done tt)
unfolding sss_split_to_files
key_split = refl

key-Stored : Stored (disk shares) shares
unfolding sss_split_to_files bytes_eq
key-Stored = (refl, (refl, (refl, tt)))

key_joins : sss_join_files (disk shares) (map (share_path (0x6b ∷ [])) (3 ∷ 1 ∷ [])) ≡ done key
key_joins =
    join-split (disk shares) draws key 2 3 (0x6b ∷ []) shares (3 ∷ 1 ∷ []) (disk-IsCalls shares)
      (omega arith) (omega arith) key_split key-Stored (omega arith) (omega arith) (omega arith)
      (omega arith)

join-split_example :
    sss_join_files (disk shares) (map (share_path (0x6b ∷ [])) (3 ∷ 1 ∷ [])) ≡ done key
join-split_example =
    join-split (disk shares) draws key 2 3 (0x6b ∷ []) shares (3 ∷ 1 ∷ []) (disk-IsCalls shares)
      (omega arith) (omega arith) key_split key-Stored (omega arith) (omega arith) (omega arith)
      (omega arith)

-- A secret of 2^24 + 1 bytes.
unfoldable long_secret : Bytes
long_secret = replicate 16777217 0

unfoldable long_rows : List Bytes
long_rows = replicate 16777217 (0 ∷ 5 ∷ [])

long_size : length long_secret ≡ 16777217
unfolding long_secret
long_size = length-replicate {A = ℕ} 16777217 0

long_rows_size : length long_rows ≡ 16777217
unfolding long_rows
long_rows_size = length-replicate {A = Bytes} 16777217 (0 ∷ 5 ∷ [])

long-SetFits : SetFits (replicate 16 1) 2 long_secret (replicate 32 7) long_rows
long-SetFits = record {
  id_size = refl;
  digest_size = refl;
  t_low = omega arith;
  t_high = omega arith;
  some_bytes = omega (arith, long_size);
  rows = long_rows_size ∙ sym long_size;
}

share_file_long_example :
    (bad_split long_secret 2 3 ≡ false)
    × (parse_share (share_file (replicate 16 1) 2 long_secret (replicate 32 7) long_rows 1)
        ≡ failed Status.input)
share_file_long_example =
    share_file_long (replicate 16 1) 2 3 long_secret (replicate 32 7) long_rows 1 long-SetFits
      (omega arith) (omega arith) (omega arith) (omega (arith, long_size))
      (omega (arith, long_size))

join_sound_example : JoinedFrom (disk shares) (map (share_path (0x6b ∷ [])) (3 ∷ 1 ∷ [])) key
join_sound_example = join_sound (disk shares) (map (share_path (0x6b ∷ [])) (3 ∷ 1 ∷ [])) key_joins

key_split_blank : sss_split_to_files (disk []) draws key 2 3 (0x6b ∷ []) ≡ (shares, done tt)
unfolding sss_split_to_files
key_split_blank = refl

abbrev other_key : Bytes
other_key = 0x10 ∷ 0x20 ∷ []

sss_split_to_files-Hides_example :
    Hides (disk []) key other_key (replicate 32 7) 2 3 (0x6b ∷ []) shares (2 ∷ [])
sss_split_to_files-Hides_example =
    sss_split_to_files-Hides (disk []) draws key other_key (replicate 32 7) 2 3 (0x6b ∷ []) (2 ∷ [])
      (disk-IsCalls []) (omega arith) (omega arith) refl refl (omega arith) (omega arith)
      key_split_blank
