-- ===== src/Merkle/Tree.antt =====
-- `mth` of merkle.c on a range of leaves: one step, and that its recursion ends.
use qsafe.Base.{
  ℕ, zero, suc, ◌+◌, ◌-◌, ◌^◌, ◌≤◌, ◌≡◌, refl, some, List, ◌>>=◌, [], length, get_elem?,
  get_elem?-lt, Bytes, arith, dec_lt,
}
use qsafe.Merkle.{split, hash_children, mth}
use qsafe.Merkle.Split.{Halves, split-Halves}

-- A range of leaves that is in bounds, and that `depth` halvings bring down to one leaf.
pub record InRange (leaves : List Bytes) (lo hi depth : ℕ) : Type 0 where
  pub ordered : lo ≤ hi
  pub bounded : hi ≤ length leaves
  pub small : hi - lo ≤ 2 ^ 63
  pub fits : hi - lo ≤ 2 ^ depth

pub left-InRange :
    {leaves : List Bytes} {lo hi depth k : ℕ}
    → InRange leaves lo hi (suc depth)
    → Halves (hi - lo) depth k
    → InRange leaves lo (lo + k) depth
left-InRange {depth = depth} r h = record {
  ordered = omega arith;
  bounded = omega arith;
  small = omega arith;
  fits = omega arith;
}

pub right-InRange :
    {leaves : List Bytes} {lo hi depth k : ℕ}
    → InRange leaves lo hi (suc depth)
    → Halves (hi - lo) depth k
    → InRange leaves (lo + k) hi depth
right-InRange {depth = depth} r h = record {
  ordered = omega arith;
  bounded = omega arith;
  small = omega arith;
  fits = omega arith;
}

pub range-Halves :
    {leaves : List Bytes} {lo hi depth : ℕ}
    → InRange leaves lo hi (suc depth)
    → 2 ≤ hi - lo
    → (k : ℕ) × Halves (hi - lo) depth k
range-Halves {lo = lo} {hi = hi} {depth = depth} r two =
    split-Halves (hi - lo) depth two (omega arith) (omega arith)

pub whole-InRange :
    {leaves : List Bytes} (n : ℕ) → n ≤ length leaves → n ≤ 2 ^ 63 → InRange leaves 0 n 64
whole-InRange n bound small = record {
  ordered = omega arith;
  bounded = bound;
  small = omega arith;
  fits = omega arith;
}

module _ (sha256 : Bytes → Bytes) (leaves : List Bytes) where
  -- One level of the recursion, with `split` shut.
  pub mth-halves :
      (depth lo hi : ℕ) {k : ℕ}
      → 2 ≤ hi - lo
      → split (hi - lo) ≡ some k
      → mth sha256 (suc depth) leaves lo hi ≡ (do
        l ← mth sha256 depth leaves lo (lo + k)
        r ← mth sha256 depth leaves (lo + k) hi
        some (hash_children sha256 l r))
  unfolding mth
  mth-halves depth lo hi two e = rw e (ground arith)

  pub mth-leaf :
      (depth lo hi : ℕ) → hi - lo ≡ 1 → mth sha256 (suc depth) leaves lo hi ≡ get_elem? leaves lo
  unfolding mth
  mth-leaf depth lo hi one = ground arith

  pub mth-join :
      (depth lo hi : ℕ) {k : ℕ} {l r : Bytes}
      → 2 ≤ hi - lo
      → split (hi - lo) ≡ some k
      → mth sha256 depth leaves lo (lo + k) ≡ some l
      → mth sha256 depth leaves (lo + k) hi ≡ some r
      → mth sha256 (suc depth) leaves lo hi ≡ some (hash_children sha256 l r)
  mth-join depth lo hi two e el er = rw (mth-halves depth lo hi two e, el, er) refl

  mth_small :
      (depth lo hi : ℕ)
      → InRange leaves lo hi depth
      → hi - lo ≤ 1
      → (h : Bytes) × (mth sha256 (suc depth) leaves lo hi ≡ some h)
  unfolding mth
  mth_small depth lo hi r one = elim (dec_lt 0 (hi - lo)) [
    | yes p ↦ let (h, e) = get_elem?-lt leaves lo (omega arith) in (h, ground arith)
    | no p ↦ (sha256 [], ground arith)
  ]

  -- In bounds, and with enough levels, `mth` returns.
  pub mth_total :
      (depth lo hi : ℕ)
      → InRange leaves lo hi depth
      → (h : Bytes) × (mth sha256 (suc depth) leaves lo hi ≡ some h)
  mth_total zero lo hi r = mth_small zero lo hi r (omega arith)
  mth_total (suc depth) lo hi r = elim (dec_lt (hi - lo) 2) [
    | yes p ↦ mth_small (suc depth) lo hi r (omega arith)
    | no p ↦
        let (k, h) = range-Halves r (omega arith) in
        let (x, ex) = mth_total depth lo (lo + k) (left-InRange r h) in
        let (y, ey) = mth_total depth (lo + k) hi (right-InRange r h) in
        (hash_children sha256 x y, mth-join (suc depth) lo hi (omega arith) h.splits ex ey)
  ]
