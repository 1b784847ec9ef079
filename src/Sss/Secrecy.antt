-- ===== src/Sss/Secrecy.antt =====
-- Fewer shares of sss.c than the threshold say nothing about the secret but its digest.
use qsafe.Base.{
  ℕ, zero, suc, ◌+◌, ◌-◌, ◌%◌, ◌≤◌, ◌<◌, ◌≡◌, ◌≢◌, refl, ◌∙◌, sym, ap, ap₂, subst, not, false, leb,
  Option, none, some, List, [], ◌∷◌, map, length, drop, All, IsByte, Bytes, arith,
}
use qsafe.Sss.Masks.{moved, length-moved, moved_constant, moved_values, moved_back}
use qsafe.Sss.Interpolation.{eval, eval_at_null}
use qsafe.Sss.Elements.{Element, Element-ext, gf256, raw, lift_all, horner-eval}
use qsafe.Sss.Share.{
  done, Calls, share_data, share_file, share_path, write_shares, draw_polynomials, prepare_split,
  bad_split, sss_split_to_files, add_file, Written, horner,
}
use qsafe.Sss.Secret.{Row, raw_row, raw_rows, secret_of}
use qsafe.Sss.Picks.{InRange}
use qsafe.Sss.Splitting.{write_went_on, IsCalls, sss_split_to_files-SplitRun}

abbrev element : ℕ → Element
element b = (b % 256, omega arith)

-- The polynomial of one byte, with another secret byte and the same values at the indices `picks`.
abbrev pub other_polynomial : ℕ → List ℕ → Bytes → Bytes
other_polynomial o picks p = raw (moved gf256 (element o) (map element picks) (map element p))

-- The polynomials of another secret.
abbrev pub other_polynomials : Bytes → List ℕ → List Bytes → List Bytes
other_polynomials [] picks polys = []
other_polynomials (o ∷ other) picks [] = []
other_polynomials (o ∷ other) picks (p ∷ polys) =
    other_polynomial o picks p ∷ other_polynomials other picks polys

-- The random bytes behind the secret bytes.
abbrev pub coefficients : List Bytes → List Bytes
coefficients polys = map (drop 1) polys

-- `RAND_bytes` that gives these strings, one after the other.
abbrev pub rolled : List Bytes → ℕ → Option Bytes
rolled [] j = none
rolled (r ∷ rolls) zero = some r
rolled (r ∷ rolls) (suc j) = rolled rolls j

abbrev pub with_rolls : Calls → List Bytes → Calls
with_rolls c rolls = record c { rand_bytes = λ j n. rolled rolls j }

element-raw : (l : List Element) → map element (raw l) ≡ l
element-raw [] = refl
element-raw ((b, small) ∷ l) = ap₂ ◌∷◌ (Element-ext _ _ (omega arith)) (element-raw l)

element-bytes : (l : Bytes) (h : All IsByte l) → map element l ≡ lift_all l h
element-bytes [] h = refl
element-bytes (b ∷ l) h = ap₂ ◌∷◌ (Element-ext _ _ (omega (arith, h.0))) (element-bytes l h.1)

raw-All : (l : List Element) → All IsByte (raw l)
raw-All [] = tt
raw-All (x ∷ l) = (x.1, raw-All l)

length-raw : (l : List Element) → length (raw l) ≡ length l
length-raw [] = refl
length-raw (x ∷ l) = ap suc (length-raw l)

length-elements : (l : List ℕ) → length (map element l) ≡ length l
length-elements [] = refl
length-elements (i ∷ l) = ap suc (length-elements l)

picks_nonzero : (picks : List ℕ) → InRange 255 picks → All (λ x. x ≢ gf256.null) (map element picks)
picks_nonzero [] h = tt
picks_nonzero (i ∷ picks) h =
    ((λ e. absurd (not_null (ap (λ (t : Element). t.0) e))), picks_nonzero picks h.1)
  where
    not_null : i % 256 ≡ 0 → ⊥
    not_null e = omega (arith, h.0)

one_is_not_null : gf256.unit ≢ gf256.null
one_is_not_null e = absurd (apart (ap (λ (t : Element). t.0) e))
  where
    apart : ◌≡◌ {A = ℕ} 1 0 → ⊥
    apart h = omega arith

-- A nonempty polynomial begins with its value at 0.
constant_first :
    (l : List Element) (n : ℕ) (o : Element)
    → length l ≡ suc n
    → eval gf256 l gf256.null ≡ o
    → (rest : List Element) × (l ≡ o ∷ rest) × (length rest ≡ n)
constant_first [] n o size at_null = absurd (omega arith)
constant_first (c ∷ l) n o size at_null =
    (l, ap (λ (t : Element). t ∷ l) (sym (eval_at_null gf256 c l) ∙ at_null), omega arith)

values_at :
    (q p : List Element) (picks : List ℕ)
    → InRange 255 picks
    → All (λ x. eval gf256 q x ≡ eval gf256 p x) (map element picks)
    → All (λ i. horner (raw q) i ≡ horner (raw p) i) picks
values_at q p [] range h = tt
values_at q p (i ∷ picks) range h =
    let i_is : i % 256 ≡ i = omega (arith, range.0) in
    (
      subst (λ x. horner (raw q) x ≡ horner (raw p) x) i_is
          (horner-eval q (element i)
            ∙ ap (λ (t : Element). t.0) h.0
            ∙ sym (horner-eval p (element i))),
      values_at q p picks range.1 h.1,
    )

-- What the other polynomial of one byte is.
record Other (o : ℕ) (picks : List ℕ) (r : Row) : Type 0 where
  rest : List Element
  begins : other_polynomial o picks (raw_row r) ≡ o ∷ raw rest
  size : length rest ≡ length r.1
  same : All (λ i. horner (other_polynomial o picks (raw_row r)) i ≡ horner (raw_row r) i) picks
  back : other_polynomial r.0.0 picks (other_polynomial o picks (raw_row r)) ≡ raw_row r

polynomial-Other :
    (o : ℕ) (picks : List ℕ) (r : Row)
    → o < 256
    → InRange 255 picks
    → length picks ≤ length r.1
    → Other o picks r
polynomial-Other o picks r small range few =
    let p = r.0 ∷ r.1 in
    let xs = map element picks in
    let q = moved gf256 (element o) xs p in
    let nonzero = picks_nonzero picks range in
    let fewer : suc (length xs) ≤ length p = omega (arith, length-elements picks) in
    let q_is : other_polynomial o picks (raw_row r) ≡ raw q =
      ap (λ l. raw (moved gf256 (element o) xs l)) (element-raw p) in
    let constant = moved_constant gf256 one_is_not_null (element o) xs p nonzero fewer in
    let (rest, begins, size) =
      constant_first q (length r.1) (element o) (length-moved gf256 (element o) xs p) constant in
    let s_is : element r.0.0 ≡ eval gf256 p gf256.null =
      ap (λ (l : List Element). first_or l) (element-raw (r.0 ∷ []))
      ∙ sym (eval_at_null gf256 r.0 r.1) in
    record {
      rest = rest;
      begins = q_is ∙ ap raw begins ∙ ap (λ b. b ∷ raw rest) (omega arith);
      size = size;
      same =
          subst (λ l. All (λ i. horner l i ≡ horner (raw_row r) i) picks) (sym q_is)
            (values_at q p picks range
              (moved_values gf256 one_is_not_null (element o) xs p nonzero fewer));
      back =
          ap (other_polynomial r.0.0 picks) q_is
          ∙ ap (λ l. raw (moved gf256 (element r.0.0) xs l)) (element-raw q)
          ∙ ap (λ s. raw (moved gf256 s xs q)) s_is
          ∙ ap raw (moved_back gf256 one_is_not_null (element o) xs p nonzero fewer);
    }
  where
    first_or : List Element → Element
    first_or [] = gf256.null
    first_or (x ∷ l) = x

-- The strings that the calls from `j` on give.
abbrev Gives : List Bytes → ℕ → List Bytes → Type 0
Gives rolls j [] = Unit
Gives rolls j (r ∷ rs) = (rolled rolls j ≡ some r) × Gives rolls (suc j) rs

Gives-later :
    (r : Bytes) (rolls : List Bytes) (j : ℕ) (rs : List Bytes)
    → Gives rolls j rs
    → Gives (r ∷ rolls) (suc j) rs
Gives-later r rolls j [] h = tt
Gives-later r rolls j (x ∷ rs) h = (h.0, Gives-later r rolls (suc j) rs h.1)

Gives-all : (rolls : List Bytes) → Gives rolls 0 rolls
Gives-all [] = tt
Gives-all (r ∷ rolls) = (refl, Gives-later r rolls 0 rolls (Gives-all rolls))

-- The rows of polynomials and the other secret that takes their place.
record Matching (t : ℕ) (picks : List ℕ) (other : Bytes) (rows : List Row) : Type 0 where
  bytes : All IsByte other
  as_long : length other ≡ length rows
  degree : All (λ (r : Row). length r.1 ≡ t - 1) rows
  range : InRange 255 picks
  few : suc (length picks) ≤ t

Matching-tail :
    (t : ℕ) (picks : List ℕ) (o : ℕ) (other : Bytes) (r : Row) (rows : List Row)
    → Matching t picks (o ∷ other) (r ∷ rows)
    → Matching t picks other rows
Matching-tail t picks o other r rows m = record {
  bytes = m.bytes.1;
  as_long = omega (arith, m.as_long);
  degree = m.degree.1;
  range = m.range;
  few = m.few;
}

Matching-Other :
    (t : ℕ) (picks : List ℕ) (o : ℕ) (other : Bytes) (r : Row) (rows : List Row)
    → Matching t picks (o ∷ other) (r ∷ rows)
    → Other o picks r
Matching-Other t picks o other r rows m =
    polynomial-Other o picks r m.bytes.0 m.range (omega (arith, m.degree.0, m.few))

-- The code draws the other polynomials when it is given their coefficients.
draw-other :
    (c : Calls) (rolls : List Bytes) (t j : ℕ) (picks : List ℕ) (other : Bytes) (rows : List Row)
    → Matching t picks other rows
    → Gives rolls j (coefficients (other_polynomials other picks (raw_rows rows)))
    → draw_polynomials (with_rolls c rolls) (λ k. k) t j other
      ≡ done (other_polynomials other picks (raw_rows rows))
unfolding draw_polynomials
draw-other c rolls t j picks [] rows m given = refl
draw-other c rolls t j picks (o ∷ other) [] m given = absurd (omega (arith, m.as_long))
draw-other c rolls t j picks (o ∷ other) (r ∷ rows) m given =
    let x = Matching-Other t picks o other r rows m in
    let poly = other_polynomial o picks (raw_row r) in
    let others = other_polynomials other picks (raw_rows rows) in
    let later : Gives rolls (j + 1) (coefficients others) =
      subst (λ k. Gives rolls k (coefficients others)) (omega arith) given.1 in
    let ih =
      draw-other c rolls t (j + 1) picks other rows (Matching-tail t picks o other r rows m)
        later in
    let whole : o ∷ drop 1 poly ≡ poly = ap (λ (l : Bytes). o ∷ drop 1 l) x.begins ∙ sym x.begins in
    rw (given.0, ih, whole)

coefficients-All :
    (t : ℕ) (picks : List ℕ) (other : Bytes) (rows : List Row)
    → Matching t picks other rows
    → All
        (λ (r : Bytes). All IsByte r × (length r ≡ t - 1))
        (coefficients (other_polynomials other picks (raw_rows rows)))
coefficients-All t picks [] rows m = tt
coefficients-All t picks (o ∷ other) [] m = tt
coefficients-All t picks (o ∷ other) (r ∷ rows) m =
    let x = Matching-Other t picks o other r rows m in
    (
      subst (λ (l : Bytes). All IsByte (drop 1 l) × (length (drop 1 l) ≡ t - 1)) (sym x.begins)
          (raw-All x.rest, length-raw x.rest ∙ x.size ∙ m.degree.0),
      coefficients-All t picks other rows (Matching-tail t picks o other r rows m),
    )

All-cons :
    (f g : ℕ → ℕ) (fs gs : ℕ → Bytes) (picks : List ℕ)
    → All (λ i. f i ≡ g i) picks
    → All (λ i. fs i ≡ gs i) picks
    → All (λ i. f i ∷ fs i ≡ g i ∷ gs i) picks
All-cons f g fs gs [] h k = tt
All-cons f g fs gs (i ∷ picks) h k = (ap₂ ◌∷◌ h.0 k.0, All-cons f g fs gs picks h.1 k.1)

All-refl : (fs : ℕ → Bytes) (picks : List ℕ) → All (λ i. fs i ≡ fs i) picks
All-refl fs [] = tt
All-refl fs (i ∷ picks) = (refl, All-refl fs picks)

share_data-same :
    (t : ℕ) (picks : List ℕ) (other : Bytes) (rows : List Row)
    → Matching t picks other rows
    → All
        (λ i.
          share_data (other_polynomials other picks (raw_rows rows)) i
          ≡ share_data (raw_rows rows) i)
        picks
share_data-same t picks [] [] m = All-refl (λ _. []) picks
share_data-same t picks [] (r ∷ rows) m = absurd (omega (arith, m.as_long))
share_data-same t picks (o ∷ other) [] m = absurd (omega (arith, m.as_long))
share_data-same t picks (o ∷ other) (r ∷ rows) m =
    All-cons (horner (other_polynomial o picks (raw_row r))) (horner (raw_row r))
      (share_data (other_polynomials other picks (raw_rows rows))) (share_data (raw_rows rows))
      picks (Matching-Other t picks o other r rows m).same
      (share_data-same t picks other rows (Matching-tail t picks o other r rows m))

other_polynomials-back :
    (t : ℕ) (picks : List ℕ) (other : Bytes) (rows : List Row)
    → Matching t picks other rows
    → other_polynomials (secret_of rows) picks (other_polynomials other picks (raw_rows rows))
      ≡ raw_rows rows
other_polynomials-back t picks [] [] m = refl
other_polynomials-back t picks [] (r ∷ rows) m = absurd (omega (arith, m.as_long))
other_polynomials-back t picks (o ∷ other) [] m = absurd (omega (arith, m.as_long))
other_polynomials-back t picks (o ∷ other) (r ∷ rows) m =
    ap₂ ◌∷◌ (Matching-Other t picks o other r rows m).back
      (other_polynomials-back t picks other rows (Matching-tail t picks o other r rows m))

-- Whether the files can be written does not depend on what is in them.
write_shares-content :
    (c : Calls) (rolls : List Bytes) (prefix : Bytes) (f g : ℕ → Bytes) (rounds i : ℕ)
    {files : List (Bytes × Bytes)}
    → write_shares c prefix f rounds i ≡ (files, done tt)
    → (files' : List (Bytes × Bytes)) × (write_shares (with_rolls c rolls) prefix g rounds i
        ≡ (files', done tt))
unfolding write_shares
write_shares-content c rolls prefix f g zero i h = ([], refl)
write_shares-content c rolls prefix f g (suc rounds) i h =
    let rest : Written = write_shares c prefix f rounds (i + 1) in
    let path = share_path prefix i in
    let (short, opens, whole, passed) =
      write_went_on (leb 1024 (length path)) (not (c.opens path)) path (c.cut_short path)
        (add_file (path, f i) rest) h in
    let rest_ok : rest ≡ (rest.0, done tt) =
      ap (λ e. (rest.0, e)) (ap (λ (t : Written). t.1) passed) in
    let (files', more) = write_shares-content c rolls prefix f g rounds (i + 1) rest_ok in
    ((path, g i) ∷ files', rw (short, opens, whole, more))

-- What two runs of the split with different secrets have in common.
pub record Hides (c : Calls) (secret other other_digest : Bytes) (t n : ℕ) (prefix : Bytes)
    (files : List (Bytes × Bytes)) (picks : List ℕ) : Type 0 where
  pub set_id : Bytes
  pub digest : Bytes
  pub polys : List Bytes
  pub other_files : List (Bytes × Bytes)
  pub written :
      write_shares c prefix (share_file set_id t secret digest polys) n 1 ≡ (files, done tt)
  pub rerun :
      let others = other_polynomials other picks polys in
      let c' = with_rolls c (set_id ∷ coefficients others) in
      (sss_split_to_files c' (λ j. j) other t n prefix ≡ (other_files, done tt))
      × (write_shares c' prefix (share_file set_id t other other_digest others) n 1
          ≡ (other_files, done tt))
  pub fair :
      All
        (λ (r : Bytes). All IsByte r × (length r ≡ t - 1))
        (coefficients (other_polynomials other picks polys))
  pub same :
      All (λ (i : ℕ). share_data (other_polynomials other picks polys) i ≡ share_data polys i) picks
  pub back : other_polynomials secret picks (other_polynomials other picks polys) ≡ polys

range_255 : (n : ℕ) (picks : List ℕ) → n ≤ 255 → InRange n picks → InRange 255 picks
range_255 n [] h r = tt
range_255 n (i ∷ picks) h r = ((r.0.0, omega (arith, r.0.1)), range_255 n picks h r.1)

-- Fewer shares than the threshold fit every secret of that size equally. Let `sss_split_to_files`
-- succeed on a secret, with random bytes and digests as documented; let `other` be another byte
-- string of the same size that has a digest, and `picks` fewer indices than the threshold. There are
-- random bytes, of the sizes that the code asks for and with the same set id, with which the code
-- splits `other` with success into shares whose bodies at the indices `picks` are the same. They come
-- from those of the first run by a function that the exchange of the two secrets inverts, so that
-- as many random strings explain the bodies with the one secret as with the other. (The headers
-- differ in the digest of the secret.)
pub sss_split_to_files-Hides :
    (c : Calls) (draw : ℕ → ℕ) (secret other other_digest : Bytes) (t n : ℕ) (prefix : Bytes)
    (picks : List ℕ) {files : List (Bytes × Bytes)}
    → IsCalls c
    → All IsByte secret
    → All IsByte other
    → length other ≡ length secret
    → c.sha256 other ≡ some other_digest
    → InRange n picks
    → suc (length picks) ≤ t
    → sss_split_to_files c draw secret t n prefix ≡ (files, done tt)
    → Hides c secret other other_digest t n prefix files picks
unfolding sss_split_to_files prepare_split
sss_split_to_files-Hides c draw secret other digest' t n prefix picks {files} calls bytes bytes'
      size hashed range few h =
    let s = sss_split_to_files-SplitRun c draw secret t n prefix calls bytes h in
    let rows = s.drawn.rows in
    let n_small : n ≤ 255 = ground (arith, s.accepted) in
    let m : Matching t picks other rows = record {
      bytes = bytes';
      as_long = size ∙ sym s.drawn.as_long;
      degree = s.drawn.degree;
      range = range_255 n picks n_small range;
      few = few;
    } in
    let others = other_polynomials other picks (raw_rows rows) in
    let rolls = s.set_id ∷ coefficients others in
    let (other_files, rewritten) =
      write_shares-content c rolls prefix (share_file s.set_id t secret s.digest s.polys)
        (share_file s.set_id t other digest' others) n 1 s.written in
    let drawn = draw-other c rolls t 1 picks other rows m (Gives-all rolls).1 in
    let accepted : bad_split other t n ≡ false = ground (arith, s.accepted, size) in
    record {
      set_id = s.set_id;
      digest = s.digest;
      polys = raw_rows rows;
      other_files = other_files;
      written =
          subst
            (λ ps.
              write_shares c prefix (share_file s.set_id t secret s.digest ps) n 1
              ≡ (files, done tt))
            s.drawn.polys_are s.written;
      rerun = (rw (accepted, hashed, drawn, rewritten), rewritten);
      fair = coefficients-All t picks other rows m;
      same = share_data-same t picks other rows m;
      back =
          ap (λ l. other_polynomials l picks others) (sym s.drawn.secret_is)
          ∙ other_polynomials-back t picks other rows m;
    }
