-- ===== src/Sss/Secret.antt =====
-- The reconstruction of sss.c is interpolation at 0 over the field of bytes.
use qsafe.Base.{
  ℕ, ◌+◌, ◌≤◌, ◌<◌, ◌≡◌, ◌≢◌, refl, ◌∙◌, sym, ap, ap₂, false, List, [], ◌∷◌, ◌++◌, append_assoc,
  ◌==◌, ==_refl, if◌then◌else◌, length, length-append, get_or, map, All, Bytes, bit_xor, arith,
}
use qsafe.Base.Alls.{All-append, All-extend}
use qsafe.Sss.Field.{gf_mul}
use qsafe.Base.Xor.{bit_xor_comm, bit_xor_assoc, bit_xor_zero_left}
use qsafe.Sss.Interpolation.{
  eval, weight, weighted, weighted_cons, weighted_nil, Distinct, weighted-eval, eval_at_null,
}
use qsafe.Sss.Products.{products, products_cons, products_nil, products-append, div-products}
use qsafe.Sss.Elements.{Element, gf256, raw, horner-eval}
use qsafe.Sss.Share.{share_data}
use qsafe.Sss.Join.{basis_products, quotient_of, basis_at, basis_from, combine, combine_all}

abbrev raw_pair : Element × Element → ℕ × ℕ
raw_pair nd = (nd.0.0, nd.1.0)

-- Places other than `i`: all of them enter the products.
basis_products_before :
    (i : ℕ) (x : Element) (k : ℕ) (before : List Element) (tail : Bytes) (nd : Element × Element)
    → k + length before ≤ i
    → basis_products i x.0 k (raw before ++ tail) (raw_pair nd)
      ≡ basis_products i x.0 (k + length before) tail (raw_pair (products gf256 nd x before))
unfolding basis_products
basis_products_before i x k [] tail nd h =
    ap₂ (λ k' nd'. basis_products i x.0 k' tail (raw_pair nd')) (omega arith)
      (sym (products_nil gf256 nd x))
basis_products_before i x k (y ∷ before) tail nd h =
    let other : (k == i) ≡ false = ground arith in
    let here : Element × Element = (gf256.mul nd.0 y, gf256.mul nd.1 (gf256.add y x)) in
    ap
      (λ t.
        basis_products i x.0 (k + 1) (raw before ++ tail)
          (if t then raw_pair nd else raw_pair here))
      other
    ∙ basis_products_before i x (k + 1) before tail here (omega arith)
    ∙ ap₂ (λ k' nd'. basis_products i x.0 k' tail (raw_pair nd')) (omega arith)
        (sym (products_cons gf256 nd x y before))

basis_products_after :
    (i : ℕ) (x : Element) (k : ℕ) (after : List Element) (nd : Element × Element)
    → i < k
    → basis_products i x.0 k (raw after) (raw_pair nd) ≡ raw_pair (products gf256 nd x after)
unfolding basis_products
basis_products_after i x k [] nd h = ap raw_pair (sym (products_nil gf256 nd x))
basis_products_after i x k (y ∷ after) nd h =
    let other : (k == i) ≡ false = ground arith in
    let here : Element × Element = (gf256.mul nd.0 y, gf256.mul nd.1 (gf256.add y x)) in
    ap (λ t. basis_products i x.0 (k + 1) (raw after) (if t then raw_pair nd else raw_pair here))
      other
    ∙ basis_products_after i x (k + 1) after here (omega arith)
    ∙ ap raw_pair (sym (products_cons gf256 nd x y after))

basis_products_here :
    (i : ℕ) (x : Element) (tail : Bytes) (nd : Element × Element)
    → basis_products i x.0 (0 + i) (x.0 ∷ tail) (raw_pair nd)
      ≡ basis_products i x.0 (i + 1) tail (raw_pair nd)
unfolding basis_products
basis_products_here i x tail nd =
    let place : 0 + i ≡ i = omega arith in
    let other : ℕ × ℕ = (gf_mul nd.0.0 x.0, gf_mul nd.1.0 (bit_xor x.0 x.0)) in
    ap (λ k. basis_products i x.0 k (x.0 ∷ tail) (raw_pair nd)) place
    ∙ ap (λ t. basis_products i x.0 (i + 1) tail (if t then raw_pair nd else other)) (==_refl i)

raw-append : (a b : List Element) → raw (a ++ b) ≡ raw a ++ raw b
raw-append [] b = refl
raw-append (x ∷ a) b = ap (◌∷◌ x.0) (raw-append a b)

-- The basis coefficient at a place is the weight of its point among the others.
basis_at-weight :
    (seen : List Element) (x : Element) (rest : List Element)
    → All (λ (y : Element). gf256.add y x ≢ gf256.null) (seen ++ rest)
    → basis_at (raw (seen ++ (x ∷ rest))) (length seen) x.0 ≡ (weight gf256 (seen ++ rest) x).0
unfolding basis_at
basis_at-weight seen x rest apart =
    let i = length seen in
    let start : Element × Element = (gf256.unit, gf256.unit) in
    let mid = products gf256 start x seen in
    let skip : basis_products i x.0 (0 + i) (x.0 ∷ raw rest) (raw_pair mid)
        ≡ basis_products i x.0 (i + 1) (raw rest) (raw_pair mid) =
      basis_products_here i x (raw rest) mid in
    let run : basis_products i x.0 0 (raw (seen ++ (x ∷ rest))) (1, 1)
        ≡ raw_pair (products gf256 start x (seen ++ rest)) =
      ap (λ l. basis_products i x.0 0 l (1, 1)) (raw-append seen (x ∷ rest))
      ∙ basis_products_before i x 0 seen (x.0 ∷ raw rest) start (omega arith)
      ∙ skip
      ∙ basis_products_after i x (i + 1) rest mid (omega arith)
      ∙ ap raw_pair (sym (products-append gf256 start x seen rest)) in
    ap quotient_of run
    ∙ ap (λ (t : Element). t.0) (div-products gf256 x (seen ++ rest) one_not_zero apart)
  where
    one_not_zero : gf256.unit ≢ gf256.null
    one_not_zero e = absurd (omega (arith, ap (λ (t : Element). t.0) e))

-- Every point differs from the others, those before it and those after it.
abbrev pub Apart : List Element → List Element → Type 0
Apart seen [] = Unit
Apart seen (x ∷ rest) =
    All (λ (y : Element). gf256.add y x ≢ gf256.null) (seen ++ rest) × Apart (seen ++ (x ∷ [])) rest

All-flip :
    (x : Element) (l : List Element)
    → All (λ (y : Element). gf256.add x y ≢ gf256.null) l
    → All (λ (y : Element). gf256.add y x ≢ gf256.null) l
All-flip x [] h = tt
All-flip x (y ∷ l) h = ((λ e. h.0 (gf256.add_comm x y ∙ e)), All-flip x l h.1)

Distinct-Apart :
    (seen rest : List Element)
    → All (λ (r : Element). All (λ (y : Element). gf256.add y r ≢ gf256.null) seen) rest
    → Distinct gf256 rest
    → Apart seen rest
Distinct-Apart seen [] h d = tt
Distinct-Apart seen (x ∷ rest) h d = (
  All-append (λ (y : Element). gf256.add y x ≢ gf256.null) seen rest h.0 (All-flip x rest d.0),
  Distinct-Apart (seen ++ (x ∷ [])) rest
      (All-extend (λ (y r : Element). gf256.add y r ≢ gf256.null) x seen rest h.1 d.0) d.1,
)

All-trivial : (l : List Element) (P : Element → Type 0) → ((x : Element) → P x) → All P l
All-trivial [] P h = tt
All-trivial (x ∷ l) P h = (h x, All-trivial l P h)

-- The bytes at place `j` of the shares, combined, are the weighted sum of the polynomial's values.
combine-weighted :
    (j : ℕ) (p : List Element) (bodies : Element → Bytes) (seen rest : List Element) (v : Element)
    → ((x : Element) → get_or (bodies x) j 0 ≡ (eval gf256 p x).0)
    → Apart seen rest
    → combine j (map bodies rest) (basis_from (raw (seen ++ rest)) (length seen) (raw rest)) v.0
      ≡ (gf256.add v (weighted gf256 (eval gf256 p) seen rest)).0
unfolding combine basis_from
combine-weighted j p bodies seen [] v at d =
    sym (bit_xor_comm v.0 0 ∙ bit_xor_zero_left v.0)
    ∙ ap (λ (t : Element). bit_xor v.0 t.0) (sym (weighted_nil gf256 (eval gf256 p) seen))
combine-weighted j p bodies seen (x ∷ rest) v at d =
    let w = weight gf256 (seen ++ rest) x in
    let term = gf256.mul (eval gf256 p x) w in
    let seen' = seen ++ (x ∷ []) in
    let product : gf_mul (get_or (bodies x) j 0)
          (basis_at (raw (seen ++ (x ∷ rest))) (length seen) x.0)
        ≡ term.0 =
      ap₂ gf_mul (at x) (basis_at-weight seen x rest d.0) in
    let regroup : seen ++ (x ∷ rest) ≡ seen' ++ rest = sym (append_assoc seen (x ∷ []) rest) in
    let place : length seen + 1 ≡ length seen' = sym (length-append seen (x ∷ [])) in
    ap
      (λ t.
        combine j (map bodies rest)
          (basis_from (raw (seen ++ (x ∷ rest))) (length seen + 1) (raw rest)) (bit_xor v.0 t))
      product
    ∙ ap₂
        (λ (l : List Element) (k : ℕ).
          combine j (map bodies rest) (basis_from (raw l) k (raw rest)) (gf256.add v term).0)
        regroup place
    ∙ combine-weighted j p bodies seen' rest (gf256.add v term) at d.1
    ∙ bit_xor_assoc v.0 term.0 (weighted gf256 (eval gf256 p) seen' rest).0
    ∙ ap (λ (t : Element). bit_xor v.0 t.0) (sym (weighted_cons gf256 (eval gf256 p) seen x rest))

-- One byte of the secret: distinct points, at least as many as the polynomial has coefficients.
combine-secret :
    (j : ℕ) (s : Element) (p : List Element) (bodies : Element → Bytes) (xs : List Element)
    → ((x : Element) → get_or (bodies x) j 0 ≡ (eval gf256 (s ∷ p) x).0)
    → Distinct gf256 xs
    → length (s ∷ p) ≤ length xs
    → combine j (map bodies xs) (basis_from (raw xs) 0 (raw xs)) 0 ≡ s.0
combine-secret j s p bodies xs at d enough =
    combine-weighted j (s ∷ p) bodies [] xs gf256.null at
      (Distinct-Apart [] xs (All-trivial xs (λ _. Unit {0}) (λ _. tt)) d)
    ∙ bit_xor_zero_left (weighted gf256 (eval gf256 (s ∷ p)) [] xs).0
    ∙ ap (λ (t : Element). t.0) (weighted-eval gf256 xs (s ∷ p) d enough ∙ eval_at_null gf256 s p)

-- A secret byte with its random coefficients.
abbrev pub Row : Type 0
Row = Element × List Element

abbrev pub raw_row : Row → Bytes
raw_row r = raw (r.0 ∷ r.1)

abbrev pub raw_rows : List Row → List Bytes
raw_rows rows = map (λ (r : Row). raw_row r) rows

abbrev pub secret_of : List Row → Bytes
secret_of rows = map (λ (r : Row). r.0.0) rows

abbrev pub body_of : List Row → Element → Bytes
body_of rows x = share_data (raw_rows rows) x.0

body_of-at :
    (before : List Row) (r : Row) (rest : List Row) (x : Element)
    → get_or (body_of (before ++ (r ∷ rest)) x) (length before) 0 ≡ (eval gf256 (r.0 ∷ r.1) x).0
body_of-at [] r rest x = horner-eval (r.0 ∷ r.1) x
body_of-at (b ∷ before) r rest x = body_of-at before r rest x

-- All bytes of the secret, from the bodies of shares at distinct points.
pub combine_all-secret :
    (before rest : List Row) (xs : List Element)
    → Distinct gf256 xs
    → All (λ (r : Row). length r.1 < length xs) rest
    → combine_all
        (length rest)
        (length before)
        (map (body_of (before ++ rest)) xs)
        (basis_from (raw xs) 0 (raw xs))
      ≡ secret_of rest
unfolding combine_all
combine_all-secret before [] xs d enough = refl
combine_all-secret before (r ∷ rest) xs d enough =
    let rows = before ++ (r ∷ rest) in
    let before' = before ++ (r ∷ []) in
    let basis = basis_from (raw xs) 0 (raw xs) in
    let regroup : rows ≡ before' ++ rest = sym (append_assoc before (r ∷ []) rest) in
    let place : length before + 1 ≡ length before' = sym (length-append before (r ∷ [])) in
    ap₂ ◌∷◌
      (combine-secret (length before) r.0 r.1 (body_of rows) xs (body_of-at before r rest) d
        enough.0)
      (ap₂ (λ (l : List Row) (k : ℕ). combine_all (length rest) k (map (body_of l) xs) basis)
          regroup place
        ∙ combine_all-secret before' rest xs d enough.1)
