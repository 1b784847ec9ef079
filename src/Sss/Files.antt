-- ===== src/Sss/Files.antt =====
-- Reading back the share files that sss.c writes.
use qsafe.Base.{
  ℕ, suc, ◌+◌, ◌%◌, ◌^◌, ◌≤◌, ◌<◌, ◌≡◌, refl, ◌∙◌, sym, ap, ap₂, Bool, not, true, false, ltb,
  le→ltb, ==_refl, List, [], ◌∷◌, ◌++◌, ◌||◌, ◌==◌, append_assoc, length, length-append, get_or,
  take, drop, Bytes, bytes_eq, bytes_eq_refl, arith,
}
use qsafe.Base.Fields.{next, field, get_or-drop}
use qsafe.Sss.Share.{
  Status, done, failed, sss_magic, store_u32le, load_u32le, share_data, share_file, sss_header_size,
}
use qsafe.Sss.Join.{Share, bad_header, parse_share}

pub length-share_data : (polys : List Bytes) (x : ℕ) → length (share_data polys x) ≡ length polys
length-share_data [] x = refl
length-share_data (p ∷ polys) x = ap suc (length-share_data polys x)

load-store_u32le : (v : ℕ) (rest : Bytes) → v < 2 ^ 32 → load_u32le (store_u32le v ++ rest) ≡ v
unfolding load_u32le store_u32le
load-store_u32le v rest h = omega arith

length-store_u32le : (v : ℕ) → length (store_u32le v) ≡ 4
unfolding store_u32le
length-store_u32le v = refl

-- What a share file says, if its parts have the sizes of the C code.
abbrev pub share_of : Bytes → ℕ → Bytes → List Bytes → ℕ → Share
share_of set_id t digest polys i = record {
  set_id = set_id;
  index = i;
  threshold = t;
  digest = digest;
  body = share_data polys i;
}

-- The sizes of the parts of a set of shares.
pub record SetFits (set_id : Bytes) (t : ℕ) (secret digest : Bytes) (polys : List Bytes)
    : Type 0 where
  pub id_size : length set_id ≡ 16
  pub digest_size : length digest ≡ 32
  pub t_low : 2 ≤ t
  pub t_high : t ≤ 16
  pub some_bytes : 0 < length secret
  pub rows : length polys ≡ length secret

module _ (set_id : Bytes) (t : ℕ) (secret digest : Bytes) (polys : List Bytes)
    (f : SetFits set_id t secret digest polys) (i : ℕ) (i_small : i < 256) where
  abbrev len : ℕ
  len = length secret

  abbrev file : Bytes
  file = share_file set_id t secret digest polys i

  abbrev after_magic : Bytes
  after_magic =
      set_id
      ++ ((i % 256) ∷ (t % 256) ∷ (store_u32le (len % 2 ^ 32) ++ (digest ++ share_data polys i)))

  file_is : file ≡ sss_magic ++ after_magic
  unfolding share_file
  file_is =
      append_assoc sss_magic
        (set_id ++ ((i % 256) ∷ (t % 256) ∷ (store_u32le (len % 2 ^ 32) ++ digest)))
        (share_data polys i)
      ∙ ap (λ r. sss_magic ++ r)
          (append_assoc set_id ((i % 256) ∷ (t % 256) ∷ (store_u32le (len % 2 ^ 32) ++ digest))
              (share_data polys i)
            ∙ ap (λ r. set_id ++ ((i % 256) ∷ (t % 256) ∷ r))
                (append_assoc (store_u32le (len % 2 ^ 32)) digest (share_data polys i)))

  at_set_id : drop 8 file ≡ after_magic
  at_set_id = ap (drop 8) file_is

  at_index :
      drop 24 file
      ≡ (i % 256) ∷ (t % 256) ∷ (store_u32le (len % 2 ^ 32) ++ (digest ++ share_data polys i))
  at_index =
      next file set_id
        ((i % 256) ∷ (t % 256) ∷ (store_u32le (len % 2 ^ 32) ++ (digest ++ share_data polys i))) 8
        16 24 at_set_id f.id_size refl

  at_len : drop 26 file ≡ store_u32le (len % 2 ^ 32) ++ (digest ++ share_data polys i)
  at_len =
      next file ((i % 256) ∷ (t % 256) ∷ [])
        (store_u32le (len % 2 ^ 32) ++ (digest ++ share_data polys i)) 24 2 26 at_index refl refl

  at_digest : drop 30 file ≡ digest ++ share_data polys i
  at_digest =
      next file (store_u32le (len % 2 ^ 32)) (digest ++ share_data polys i) 26 4 30 at_len
        (length-store_u32le (len % 2 ^ 32)) refl

  at_body : drop 62 file ≡ share_data polys i
  at_body = next file digest (share_data polys i) 30 32 62 at_digest f.digest_size refl

  length-file : length file ≡ 62 + len
  length-file = omega (
    arith,
    ap (λ (l : Bytes). length l) file_is,
    length-append sss_magic after_magic,
    length-append set_id
        ((i % 256) ∷ (t % 256) ∷ (store_u32le (len % 2 ^ 32) ++ (digest ++ share_data polys i))),
    length-append (store_u32le (len % 2 ^ 32)) (digest ++ share_data polys i),
    length-append digest (share_data polys i),
    length-store_u32le (len % 2 ^ 32),
    length-share_data polys i,
    f.id_size,
    f.digest_size,
    f.rows,
  )

  is_share : (ltb (length file) sss_header_size || not (bytes_eq (take 8 file) sss_magic)) ≡ false
  is_share =
      ap₂ (λ (a b : Bool). a || not b) (le→ltb (length file) 62 (omega (arith, length-file)))
        (ap (λ l. bytes_eq (take 8 l) sss_magic) file_is ∙ bytes_eq_refl sss_magic)

  index_is : get_or file 24 0 ≡ i
  index_is = sym (get_or-drop 24 0 file) ∙ ap (λ l. get_or l 0 0) at_index ∙ omega arith

  threshold_is : get_or file 25 0 ≡ t
  threshold_is =
      sym (get_or-drop 24 1 file) ∙ ap (λ l. get_or l 1 0) at_index ∙ omega (arith, f.t_high)

  len_is : len < 2 ^ 32 → load_u32le (drop 26 file) ≡ len
  len_is small =
      ap load_u32le at_len
      ∙ load-store_u32le (len % 2 ^ 32) (digest ++ share_data polys i) (omega arith)
      ∙ omega arith

  body_size : length (drop 62 file) ≡ len
  body_size = ap (λ (l : Bytes). length l) at_body ∙ length-share_data polys i ∙ f.rows

  good_header : 1 ≤ i → len ≤ 2 ^ 24 → bad_header i t len ≡ false
  good_header low fits = ground (arith, f.t_low, f.t_high, f.some_bytes)

  long_header : 2 ^ 24 < len → bad_header i t len ≡ true
  long_header long = ground (arith, f.t_low, f.t_high, f.some_bytes)

  -- A share that was written is read back.
  pub parse-share_file :
      1 ≤ i → len ≤ 2 ^ 24 → parse_share file ≡ done (share_of set_id t digest polys i)
  unfolding parse_share
  parse-share_file low fits =
      let size : (length (drop 62 file) == load_u32le (drop 26 file)) ≡ true =
        ap₂ ◌==◌ body_size (len_is (omega arith)) ∙ ==_refl len in
      let header : bad_header (get_or file 24 0) (get_or file 25 0) (load_u32le (drop 26 file))
          ≡ false =
        ap₂ (λ a b. bad_header a b (load_u32le (drop 26 file))) index_is threshold_is
        ∙ ap (bad_header i t) (len_is (omega arith))
        ∙ good_header low fits in
      rw (is_share, header, size)
        (λ j. done (record {
          set_id =
              (field file set_id
                  ((i % 256)
                    ∷ (t % 256)
                    ∷ (store_u32le (len % 2 ^ 32) ++ (digest ++ share_data polys i)))
                  8 16 at_set_id f.id_size)
                j;
          index = index_is j;
          threshold = threshold_is j;
          digest = (field file digest (share_data polys i) 30 32 at_digest f.digest_size) j;
          body = at_body j;
        }))

  -- A share of a longer secret is refused.
  pub parse-share_file_long : 2 ^ 24 < len → len < 2 ^ 32 → parse_share file ≡ failed Status.input
  unfolding parse_share
  parse-share_file_long long small =
      let header : bad_header (get_or file 24 0) (get_or file 25 0) (load_u32le (drop 26 file))
          ≡ true =
        ap₂ (λ a b. bad_header a b (load_u32le (drop 26 file))) index_is threshold_is
        ∙ ap (bad_header i t) (len_is small)
        ∙ long_header long in
      rw (is_share, header) refl
