-- ===== src/Merkle/Soundness.antt =====
-- What an accepted inclusion proof of merkle.c shows about the tree, short of a second preimage.
use qsafe.Base.{
  ℕ, zero, suc, ◌+◌, ◌-◌, ◌^◌, ◌≤◌, ◌<◌, ◌≡◌, ◌≢◌, ◌⊎◌, inl, inr, refl, sym, ◌∙◌, ap, some,
  some_inj, List, [], ◌∷◌, ◌++◌, true, false, Bool-cases, Option-cases, length, length-append,
  get_elem?, All, append_inj_left, Bytes, bytes_eq, bytes_eq_refl, bytes_eq→eq, arith, dec_lt,
}
use qsafe.Merkle.{
  split, hash_children, mth, rebuild, join_left, join_right, Rebuilt, ok, fail, stuck, merkle_root,
  merkle_verify_inclusion, accepts, max_depth,
}
use qsafe.Merkle.Tree.{
  InRange, left-InRange, right-InRange, range-Halves, mth-leaf, mth-join, mth_total, whole-InRange,
}
use qsafe.Merkle.Inclusion.{rebuild-left, rebuild-right, rebuild-leaf}

-- `unsigned char[MERKLE_HASH_SIZE]`.
abbrev pub IsHash : Bytes → Type 0
IsHash h = length h ≡ 32

-- The ranges of the tree over n leaves: the whole, and the two halves of each range of two leaves or
-- more, which stand over the nodes of the tree.
pub data IsNode (n : ℕ) : ℕ → ℕ → Type 0 where
  whole : IsNode n 0 n
  left_half :
      {lo hi k : ℕ} → IsNode n lo hi → 2 ≤ hi - lo → split (hi - lo) ≡ some k → IsNode n lo (lo + k)
  right_half :
      {lo hi k : ℕ} → IsNode n lo hi → 2 ≤ hi - lo → split (hi - lo) ≡ some k → IsNode n (lo + k) hi

-- The children that the verifier puts together at a node with the halves [lo, mid) and [mid, hi): one
-- is what it rebuilds over the half of index m, and the other the next hash of the proof.
pub data PutTogether (sha256 : Bytes → Bytes) (m : ℕ) (leaf : Bytes) (proof : List Bytes)
    (depth lo mid hi : ℕ) : Bytes → Bytes → Type 0 where
  from_left :
      {l r : Bytes} {i : ℕ}
      → m < mid
      → rebuild sha256 depth lo mid m leaf proof 0 ≡ ok l i
      → get_elem? proof i ≡ some r
      → PutTogether sha256 m leaf proof depth lo mid hi l r
  from_right :
      {l r : Bytes} {i : ℕ}
      → mid ≤ m
      → rebuild sha256 depth mid hi m leaf proof 0 ≡ ok r i
      → get_elem? proof i ≡ some l
      → PutTogether sha256 m leaf proof depth lo mid hi l r

-- A second preimage that the proof gives: at an inner node of the tree over the first n leaves, on the
-- way from the root to index m, the verifier puts together two children that are not the node's, and
-- whose hash is the node's.
pub record SecondPreimage (sha256 : Bytes → Bytes) (leaves : List Bytes) (n m : ℕ) (leaf : Bytes)
    (proof : List Bytes) : Type 0 where
  pub lo : ℕ
  pub hi : ℕ
  pub k : ℕ
  pub depth : ℕ
  pub node : IsNode n lo hi
  pub inner : 2 ≤ hi - lo
  pub splits : split (hi - lo) ≡ some k
  pub on_way : (lo ≤ m) × (m < hi)
  pub l : Bytes
  pub r : Bytes
  pub is_left : mth sha256 depth leaves lo (lo + k) ≡ some l
  pub is_right : mth sha256 depth leaves (lo + k) hi ≡ some r
  pub l' : Bytes
  pub r' : Bytes
  pub put_together : PutTogether sha256 m leaf proof depth lo (lo + k) hi l' r'
  pub differs : l' ++ r' ≢ l ++ r
  pub same_hash : hash_children sha256 l' r' ≡ hash_children sha256 l r

All-get_elem? :
    (P : Bytes → Type 0) (xs : List Bytes) (i : ℕ) {a : Bytes}
    → All P xs
    → get_elem? xs i ≡ some a
    → P a
All-get_elem? P [] i h e = absurd (cc)
All-get_elem? P (x ∷ xs) zero h e = subst_some P e h.0
  where
    subst_some : (P : Bytes → Type 0) {x a : Bytes} → some x ≡ some a → P x → P a
    subst_some P e h = rw (some_inj e) at h
All-get_elem? P (x ∷ xs) (suc i) h e = All-get_elem? P xs i h.1 e

module _ (sha256 : Bytes → Bytes) (sha256_size : (x : Bytes) → IsHash (sha256 x))
    (leaves : List Bytes) where
  hash_children-IsHash : (l r : Bytes) → IsHash (hash_children sha256 l r)
  unfolding hash_children
  hash_children-IsHash l r = sha256_size _

  -- Each step of `rebuild` that succeeds took one hash of the proof.
  join_left_inv :
      (proof : List Bytes) (s : Rebuilt) {root : Bytes} {j : ℕ}
      → join_left sha256 proof s ≡ ok root j
      → (sub : Bytes) × (i : ℕ) × (h : Bytes) × (s ≡ ok sub i)
        × (get_elem? proof i ≡ some h)
        × (root ≡ hash_children sha256 sub h)
  unfolding join_left
  join_left_inv proof (ok sub i) e = elim (Option-cases (get_elem? proof i)) [
    | inl missing ↦ absurd (ground arith)
    | inr (h, found) ↦ (sub, i, h, refl, found, ground arith)
  ]
  join_left_inv proof fail e = cc
  join_left_inv proof stuck e = cc

  join_right_inv :
      (proof : List Bytes) (s : Rebuilt) {root : Bytes} {j : ℕ}
      → join_right sha256 proof s ≡ ok root j
      → (sub : Bytes) × (i : ℕ) × (h : Bytes) × (s ≡ ok sub i)
        × (get_elem? proof i ≡ some h)
        × (root ≡ hash_children sha256 h sub)
  unfolding join_right
  join_right_inv proof (ok sub i) e = elim (Option-cases (get_elem? proof i)) [
    | inl missing ↦ absurd (ground arith)
    | inr (h, found) ↦ (sub, i, h, refl, found, ground arith)
  ]
  join_right_inv proof fail e = cc
  join_right_inv proof stuck e = cc

  -- Two node hashes agree only if their inputs do, or the second input is a second preimage.
  same_children :
      (n m : ℕ) (leaf : Bytes) (proof : List Bytes) (l r l' r' : Bytes)
      → ((l' ++ r' ≢ l ++ r) → SecondPreimage sha256 leaves n m leaf proof)
      → (l' ++ r' ≡ l ++ r) ⊎ SecondPreimage sha256 leaves n m leaf proof
  same_children n m leaf proof l r l' r' found = elim (Bool-cases (bytes_eq (l' ++ r') (l ++ r))) [
    | inl same ↦ inl (bytes_eq→eq _ _ same)
    | inr differ ↦ inr (found (unequal (l' ++ r') (l ++ r) differ))
  ]
    where
      unequal : (xs ys : Bytes) → bytes_eq xs ys ≡ false → xs ≢ ys
      unequal xs ys f e = cc (ap (λ (t : Bytes). bytes_eq xs t) e, bytes_eq_refl xs)

  rebuild-IsHash :
      (depth lo hi m : ℕ) (leaf : Bytes) (proof : List Bytes) (pidx : ℕ) {root : Bytes} {j : ℕ}
      → InRange leaves lo hi depth
      → lo ≤ m
      → m < hi
      → IsHash leaf
      → rebuild sha256 (suc depth) lo hi m leaf proof pidx ≡ ok root j
      → IsHash root
  rebuild-IsHash depth lo hi m leaf proof pidx {root} {j} r low high h e =
      elim (dec_lt (hi - lo) 2) [
        | yes p ↦
            let e' : ok leaf pidx ≡ ok root j =
              sym (rebuild-leaf sha256 leaves depth lo hi m leaf proof pidx (omega arith)) ∙ e in
            let e'' : leaf ≡ root = cc in rw e'' at h
        | no p ↦ joined depth r e (omega arith)
      ]
    where
      joined :
          (depth : ℕ)
          → InRange leaves lo hi depth
          → rebuild sha256 (suc depth) lo hi m leaf proof pidx ≡ ok root j
          → 2 ≤ hi - lo
          → IsHash root
      joined zero r e two = absurd (omega arith)
      joined (suc depth) r e two =
          let (k, hv) = range-Halves r two in
          elim (dec_lt m (lo + k)) [
            | yes lt ↦
                let (sub, i, s, es, at, er) = join_left_inv proof _ (
                  sym (
                    rebuild-left sha256 leaves (suc depth) lo hi m leaf proof pidx two hv.splits lt)
                  ∙ e) in
                rw er (hash_children-IsHash sub s)
            | no ge ↦
                let (sub, i, s, es, at, er) = join_right_inv proof _ (
                  sym (
                    rebuild-right sha256 leaves (suc depth) lo hi m leaf proof pidx two hv.splits
                      (omega arith))
                  ∙ e) in
                rw er (hash_children-IsHash s sub)
          ]

  mth-IsHash :
      (depth lo hi : ℕ) {root : Bytes}
      → All IsHash leaves
      → InRange leaves lo hi depth
      → lo < hi
      → mth sha256 (suc depth) leaves lo hi ≡ some root
      → IsHash root
  mth-IsHash depth lo hi {root} hl r lt e = elim (dec_lt (hi - lo) 2) [
    | yes p ↦
        All-get_elem? IsHash leaves lo hl
          (sym (mth-leaf sha256 leaves depth lo hi (omega arith)) ∙ e)
    | no p ↦ joined depth r e (omega arith)
  ]
    where
      joined :
          (depth : ℕ)
          → InRange leaves lo hi depth
          → mth sha256 (suc depth) leaves lo hi ≡ some root
          → 2 ≤ hi - lo
          → IsHash root
      joined zero r e two = absurd (omega arith)
      joined (suc depth) r e two =
          let (k, hv) = range-Halves r two in
          let (x, ex) = mth_total sha256 leaves depth lo (lo + k) (left-InRange r hv) in
          let (y, ey) = mth_total sha256 leaves depth (lo + k) hi (right-InRange r hv) in
          let e' : some (hash_children sha256 x y) ≡ some root =
            sym (mth-join sha256 leaves (suc depth) lo hi two hv.splits ex ey) ∙ e in
          rw (some_inj e') at (hash_children-IsHash x y)

  -- What one round of `rebuild` and one level of the tree have in common.
  left_agrees : (x y sub s : Bytes) → IsHash x → IsHash sub → sub ++ s ≡ x ++ y → sub ≡ x
  left_agrees x y sub s hx hsub e = (append_inj_left sub x (omega arith) e).0

  right_agrees : (x y sub s : Bytes) → IsHash y → IsHash sub → s ++ sub ≡ x ++ y → sub ≡ y
  right_agrees x y sub s hy hsub e =
      (append_inj_left s x (omega (arith, ap length e, length-append s sub, length-append x y)) e).1

  at_leaf :
      (depth lo hi m : ℕ) (leaf : Bytes) (proof : List Bytes) (pidx : ℕ) {root : Bytes} {j : ℕ}
      → hi - lo ≡ 1
      → m ≡ lo
      → mth sha256 (suc depth) leaves lo hi ≡ some root
      → rebuild sha256 (suc depth) lo hi m leaf proof pidx ≡ ok root j
      → get_elem? leaves m ≡ some leaf
  at_leaf depth lo hi m leaf proof pidx {root} {j} one only em e =
      let er : ok leaf pidx ≡ ok root j =
        sym (rebuild-leaf sha256 leaves depth lo hi m leaf proof pidx one) ∙ e in
      let same : leaf ≡ root = cc in
      rw (only, same) (sym (mth-leaf sha256 leaves depth lo hi one) ∙ em)

  inner_node :
      (n depth lo hi m k : ℕ) (leaf : Bytes) (proof : List Bytes)
      → IsNode n lo hi
      → 2 ≤ hi - lo
      → split (hi - lo) ≡ some k
      → (lo ≤ m) × (m < hi)
      → (l r l' r' : Bytes) → mth sha256 depth leaves lo (lo + k) ≡ some l
      → mth sha256 depth leaves (lo + k) hi ≡ some r
      → PutTogether sha256 m leaf proof depth lo (lo + k) hi l' r'
      → l' ++ r' ≢ l ++ r
      → hash_children sha256 l' r' ≡ hash_children sha256 l r
      → SecondPreimage sha256 leaves n m leaf proof
  inner_node n depth lo hi m k leaf proof node inner splits on_way l r l' r' el er put d e =
      record {
        lo = lo;
        hi = hi;
        k = k;
        depth = depth;
        node = node;
        inner = inner;
        splits = splits;
        on_way = on_way;
        l = l;
        r = r;
        is_left = el;
        is_right = er;
        l' = l';
        r' = r';
        put_together = put;
        differs = d;
        same_hash = e;
      }

  -- A rebuilt root that is the root of the tree was rebuilt from the leaf of the tree.
  rebuild_sound :
      (n depth lo hi m : ℕ) (leaf : Bytes) (proof : List Bytes) {root : Bytes} {j : ℕ}
      → IsNode n lo hi
      → All IsHash leaves
      → IsHash leaf
      → InRange leaves lo hi depth
      → lo ≤ m
      → m < hi
      → mth sha256 (suc depth) leaves lo hi ≡ some root
      → rebuild sha256 (suc depth) lo hi m leaf proof 0 ≡ ok root j
      → (get_elem? leaves m ≡ some leaf) ⊎ SecondPreimage sha256 leaves n m leaf proof
  rebuild_sound n zero lo hi m leaf proof node hl hleaf r low high em e =
      inl (at_leaf zero lo hi m leaf proof 0 (omega arith) (omega arith) em e)
  rebuild_sound n (suc depth) lo hi m leaf proof {root} {j} node hl hleaf r low high em e =
      elim (dec_lt (hi - lo) 2) [
        | yes p ↦ inl (at_leaf (suc depth) lo hi m leaf proof 0 (omega arith) (omega arith) em e)
        | no p ↦
            let two : 2 ≤ hi - lo = omega arith in
            let (k, hv) = range-Halves r two in
            let rl = left-InRange r hv in
            let rr = right-InRange r hv in
            let (x, ex) = mth_total sha256 leaves depth lo (lo + k) rl in
            let (y, ey) = mth_total sha256 leaves depth (lo + k) hi rr in
            let em' : some (hash_children sha256 x y) ≡ some root =
              sym (mth-join sha256 leaves (suc depth) lo hi two hv.splits ex ey) ∙ em in
            let root_is : hash_children sha256 x y ≡ root = some_inj em' in
            elim (dec_lt m (lo + k)) [
              | yes lt ↦
                  let (sub, i, s, es, at, er) = join_left_inv proof _ (
                    sym
                      (rebuild-left sha256 leaves (suc depth) lo hi m leaf proof 0 two hv.splits lt)
                    ∙ e) in
                  let hsub = rebuild-IsHash depth lo (lo + k) m leaf proof 0 rl low lt hleaf es in
                  let hx = mth-IsHash depth lo (lo + k) hl rl (omega (arith, hv.positive)) ex in
                  let found = λ (d : sub ++ s ≢ x ++ y).
                    inner_node n (suc depth) lo hi m k leaf proof node two hv.splits (low, high) x y
                      sub s ex ey (from_left lt es at) d (sym er ∙ sym root_is) in
                  elim (same_children n m leaf proof x y sub s found) [
                    | inr other ↦ inr other
                    | inl same ↦
                        let ex' : mth sha256 (suc depth) leaves lo (lo + k) ≡ some sub =
                          ex ∙ ap some (sym (left_agrees x y sub s hx hsub same)) in
                        rebuild_sound n depth lo (lo + k) m leaf proof
                          (left_half node two hv.splits) hl hleaf rl low lt ex' es
                  ]
              | no ge ↦
                  let le : lo + k ≤ m = omega arith in
                  let (sub, i, s, es, at, er) = join_right_inv proof _ (
                    sym (
                      rebuild-right sha256 leaves (suc depth) lo hi m leaf proof 0 two hv.splits le)
                    ∙ e) in
                  let hsub = rebuild-IsHash depth (lo + k) hi m leaf proof 0 rr le high hleaf es in
                  let hy = mth-IsHash depth (lo + k) hi hl rr (omega (arith, hv.below)) ey in
                  let found = λ (d : s ++ sub ≢ x ++ y).
                    inner_node n (suc depth) lo hi m k leaf proof node two hv.splits (low, high) x y
                      s sub ex ey (from_right le es at) d (sym er ∙ sym root_is) in
                  elim (same_children n m leaf proof x y s sub found) [
                    | inr other ↦ inr other
                    | inl same ↦
                        let ey' : mth sha256 (suc depth) leaves (lo + k) hi ≡ some sub =
                          ey ∙ ap some (sym (right_agrees x y sub s hy hsub same)) in
                        rebuild_sound n depth (lo + k) hi m leaf proof
                          (right_half node two hv.splits) hl hleaf rr le high ey' es
                  ]
            ]
      ]

-- What the verifier accepted was rebuilt to the root, with every hash of the proof used.
accepted_root :
    (proof : List Bytes) (root : Bytes) (s : Rebuilt)
    → accepts proof root s ≡ some true
    → s ≡ ok root (length proof)
unfolding accepts
accepted_root proof root (ok c i) e = elim (Bool-cases (bytes_eq c root)) [
  | inl same ↦ let es : c ≡ root = bytes_eq→eq c root same in rw es (ground arith)
  | inr differ ↦ absurd (ground arith)
]
accepted_root proof root fail e = cc
accepted_root proof root stuck e = cc

-- An accepted inclusion proof shows the leaf. Let n <= 2^63, let the root be that of the first n leaf
-- hashes, and let all hashes be of 32 bytes. If the verifier accepts a proof for a leaf hash at index
-- m, then m < n and the leaf hash at m is that one, or the proof gives a second preimage: at an inner
-- node of the tree over the first n leaves, a range on the way from the root to m that `split` halves,
-- the two children that the verifier puts together from the leaf hash and the proof are not the node's
-- two subtree hashes, and have the node's hash.
pub verify_sound :
    (sha256 : Bytes → Bytes) (leaves : List Bytes) (n m : ℕ) (leaf : Bytes) (proof : List Bytes)
    (root : Bytes)
    → ((x : Bytes) → IsHash (sha256 x))
    → n ≤ length leaves
    → n ≤ 2 ^ 63
    → All IsHash leaves
    → IsHash leaf
    → merkle_root sha256 leaves n ≡ some root
    → merkle_verify_inclusion sha256 m n leaf proof root ≡ some true
    → (m < n) × ((get_elem? leaves m ≡ some leaf) ⊎ SecondPreimage sha256 leaves n m leaf proof)
unfolding merkle_verify_inclusion merkle_root
verify_sound sha256 leaves n m leaf proof root size bound small hl hleaf er e = elim (dec_lt m n) [
  | yes lt ↦
      let rebuilt : accepts proof root (rebuild sha256 max_depth 0 n m leaf proof 0) ≡ some true =
        ground arith in
      (
        lt,
        rebuild_sound sha256 size leaves n 64 0 n m leaf proof whole hl hleaf
            (whole-InRange n bound small) (omega arith) lt er (accepted_root proof root _ rebuilt),
      )
  | no ge ↦ absurd (ground arith)
]
