-- ===== src/Sss/RoundTrip.antt =====
-- A secret that sss.c splits is the one that it joins.
use qsafe.Base.{
  ℕ, suc, ◌^◌, ◌≤◌, ◌<◌, ◌≡◌, ◌≢◌, refl, ◌∙◌, ap, ap₂, Bool, false, ltb, le→ltb, some, List, [],
  ◌∷◌, ◌||◌, length, map, All, IsByte, Bytes, arith,
}
use qsafe.Sss.Share.{
  Status, done, failed, Calls, share_file, share_path, bad_split, sss_split_to_files,
}
use qsafe.Sss.Join.{Share, read_share, parse_share, sss_join_files}
use qsafe.Sss.Secret.{raw_row}
use qsafe.Sss.Files.{SetFits, parse-share_file, parse-share_file_long}
use qsafe.Sss.Picks.{DistinctPicks, InRange}
use qsafe.Sss.Joining.{share, read_shares-run, reconstruct-share, join_shares-share}
use qsafe.Sss.Splitting.{IsCalls, SplitRun, sss_split_to_files-SplitRun, write_shares-All}

accepted_sizes :
    (secret : Bytes) (t n : ℕ)
    → bad_split secret t n ≡ false
    → (0 < length secret) × (2 ≤ t) × (t ≤ 16) × (t ≤ n) × (n < 256)
accepted_sizes secret t n h = ground arith

-- The files that the split wrote, as the join finds them.
abbrev pub Stored : Calls → List (Bytes × Bytes) → Type 0
Stored c files = All (λ (f : Bytes × Bytes). c.read_file f.0 ≡ some f.1) files

read_all :
    (c : Calls) (prefix : Bytes) (made : ℕ → Share) (n : ℕ) (picks : List ℕ)
    → ((i : ℕ) → 1 ≤ i → i ≤ n → read_share c (share_path prefix i) ≡ done (made i))
    → InRange n picks
    → All (λ (i : ℕ). read_share c (share_path prefix i) ≡ done (made i)) picks
read_all c prefix made n [] reads range = tt
read_all c prefix made n (i ∷ picks) reads range =
    (reads i range.0.0 range.0.1, read_all c prefix made n picks reads range.1)

all_fresh : (picks : List ℕ) → All (λ (i : ℕ). All (λ (k : ℕ). k ≢ i) []) picks
all_fresh [] = tt
all_fresh (i ∷ picks) = (tt, all_fresh picks)

length-map : {A B : Type 0} (g : A → B) (l : List A) → length (map g l) ≡ length l
length-map g [] = refl
length-map g (x ∷ l) = ap suc (length-map g l)

module _ (c : Calls) (secret : Bytes) (t n : ℕ) (prefix : Bytes) (files : List (Bytes × Bytes))
    (calls : IsCalls c) (s : SplitRun c secret t n prefix files) (stored : Stored c files) where
  set_fits : SetFits s.set_id t secret s.digest s.polys
  set_fits =
      let (some_bytes, low, high, t_le, n_small) = accepted_sizes secret t n s.accepted in
      record {
        id_size = s.id_size;
        digest_size = calls.digest_size secret s.digest s.hashed;
        t_low = low;
        t_high = high;
        some_bytes = some_bytes;
        rows =
            ap (λ (l : List Bytes). length l) s.drawn.polys_are
            ∙ length-map raw_row s.drawn.rows
            ∙ s.drawn.as_long;
      }

  stored_at :
      (i : ℕ)
      → 1 ≤ i
      → i ≤ n
      → c.read_file (share_path prefix i) ≡ some (share_file s.set_id t secret s.digest s.polys i)
  stored_at i low high =
      write_shares-All (λ (f : Bytes × Bytes). c.read_file f.0 ≡ some f.1) c prefix
        (share_file s.set_id t secret s.digest s.polys) n 1 s.written stored i low (omega arith)

  byte_index : (i : ℕ) → i ≤ n → i < 256
  byte_index i high =
      let (_, _, _, _, n_small) = accepted_sizes secret t n s.accepted in omega arith

  -- A file of the split, read back.
  read_share-written :
      length secret ≤ 2 ^ 24
      → (i : ℕ) → 1 ≤ i
      → i ≤ n
      → read_share c (share_path prefix i) ≡ done (share s.set_id t s.digest s.polys i)
  unfolding read_share
  read_share-written fits i low high =
      rw (stored_at i low high) (
        parse-share_file s.set_id t secret s.digest s.polys set_fits i (byte_index i high) low fits)

-- Any t of the shares give the secret back. Let `sss_split_to_files` succeed on a secret of at most
-- 2^24 bytes, with random bytes and digests as documented, and let the files that it wrote be found
-- where it wrote them. Then `sss_join_files` on the paths of at least t and at most 16 of the n
-- shares, each once and in any order, returns the secret.
pub join-split :
    (c : Calls) (draw : ℕ → ℕ) (secret : Bytes) (t n : ℕ) (prefix : Bytes)
    (files : List (Bytes × Bytes)) (picks : List ℕ)
    → IsCalls c
    → All IsByte secret
    → length secret ≤ 2 ^ 24
    → sss_split_to_files c draw secret t n prefix ≡ (files, done tt)
    → Stored c files
    → InRange n picks
    → DistinctPicks picks
    → t ≤ length picks
    → length picks ≤ 16
    → sss_join_files c (map (share_path prefix) picks) ≡ done secret
unfolding sss_join_files
join-split c draw secret t n prefix files picks calls bytes fits made stored range distinct enough
      few =
    let s = sss_split_to_files-SplitRun c draw secret t n prefix calls bytes made in
    let (some_bytes, low, high, t_le, n_small) = accepted_sizes secret t n s.accepted in
    let all_read =
      read_all c prefix (share s.set_id t s.digest s.polys) n picks
        (read_share-written c secret t n prefix files calls s stored fits) range in
    let shares =
      read_shares-run s.set_id t s.digest s.polys c prefix [] picks all_read (all_fresh picks)
        distinct in
    let same =
      reconstruct-share s.set_id t s.digest s.polys n secret picks s.drawn (omega arith) n_small
        enough range distinct in
    let count : length (map (share_path prefix) picks) ≡ length picks =
      length-map (share_path prefix) picks in
    let counted : (ltb (length (map (share_path prefix) picks)) 2
          || ltb 16 (length (map (share_path prefix) picks)))
        ≡ false =
      ap₂ (λ (a b : Bool). a || b) (le→ltb (length (map (share_path prefix) picks)) 2 (omega arith))
        (le→ltb 16 (length (map (share_path prefix) picks)) (omega arith)) in
    rw (counted, shares)
      (join_shares-share s.set_id t s.digest s.polys c (length (map (share_path prefix) picks))
        secret picks (omega arith) (omega arith)
        (set_fits c secret t n prefix files calls s stored).rows same s.hashed)

-- A long secret is split and cannot be joined. For a secret of more than 2^24 and fewer than 2^32
-- bytes the argument check of `sss_split_to_files` passes for every threshold and number of shares
-- within the limits, and each share file that the code then lays out, whatever its set id, digest
-- and polynomials of the right sizes, is refused by `read_share` as malformed.
pub share_file_long :
    (set_id : Bytes) (t n : ℕ) (secret digest : Bytes) (polys : List Bytes) (i : ℕ)
    → SetFits set_id t secret digest polys
    → t ≤ n
    → n ≤ 255
    → i ≤ n
    → 2 ^ 24 < length secret
    → length secret < 2 ^ 32
    → (bad_split secret t n ≡ false)
      × (parse_share (share_file set_id t secret digest polys i) ≡ failed Status.input)
share_file_long set_id t n secret digest polys i f t_le n_small i_le long small = (
  ground (arith, f.t_low, f.t_high, f.some_bytes),
  parse-share_file_long set_id t secret digest polys f i (omega arith) long small,
)
