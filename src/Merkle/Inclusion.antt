-- ===== src/Merkle/Inclusion.antt =====
-- The audit paths of merkle.c: what `path` appends, `rebuild` consumes.
use qsafe.Base.{
  ℕ, zero, suc, ◌+◌, ◌-◌, ◌^◌, ◌≤◌, ◌<◌, ◌≡◌, sym, ◌∙◌, ap, some, List, [], ◌∷◌, ◌++◌, append-nil,
  append_assoc, length, length-append, get_elem?, get_elem?-append_length, Bytes, bytes_eq_refl,
  arith, dec_lt, true, lt→ltb, le→ltb,
}
use qsafe.Merkle.{
  split, hash_children, mth, path, rebuild, join_left, join_right, ok, merkle_root,
  merkle_inclusion_proof, merkle_verify_inclusion,
}
use qsafe.Merkle.Tree.{
  InRange, left-InRange, right-InRange, range-Halves, mth-leaf, mth-join, mth_total, whole-InRange,
}

module _ (sha256 : Bytes → Bytes) (leaves : List Bytes) where
  path-left :
      (depth lo hi m : ℕ) (proof : List Bytes) {k : ℕ} {proof' : List Bytes} {h : Bytes}
      → 2 ≤ hi - lo
      → split (hi - lo) ≡ some k
      → m < lo + k
      → path sha256 depth leaves lo (lo + k) m proof ≡ some proof'
      → mth sha256 depth leaves (lo + k) hi ≡ some h
      → path sha256 (suc depth) leaves lo hi m proof ≡ some (proof' ++ (h ∷ []))
  unfolding path
  path-left depth lo hi m proof {k} two e lt ep eh =
      rw (e, lt→ltb m (lo + k) lt, ep, eh) (ground arith)

  path-right :
      (depth lo hi m : ℕ) (proof : List Bytes) {k : ℕ} {proof' : List Bytes} {h : Bytes}
      → 2 ≤ hi - lo
      → split (hi - lo) ≡ some k
      → lo + k ≤ m
      → path sha256 depth leaves (lo + k) hi m proof ≡ some proof'
      → mth sha256 depth leaves lo (lo + k) ≡ some h
      → path sha256 (suc depth) leaves lo hi m proof ≡ some (proof' ++ (h ∷ []))
  unfolding path
  path-right depth lo hi m proof {k} two e le ep eh =
      rw (e, le→ltb m (lo + k) le, ep, eh) (ground arith)

  pub rebuild-left :
      (depth lo hi m : ℕ) (leaf : Bytes) (proof : List Bytes) (pidx : ℕ) {k : ℕ}
      → 2 ≤ hi - lo
      → split (hi - lo) ≡ some k
      → m < lo + k
      → rebuild sha256 (suc depth) lo hi m leaf proof pidx
        ≡ join_left sha256 proof (rebuild sha256 depth lo (lo + k) m leaf proof pidx)
  unfolding rebuild
  rebuild-left depth lo hi m leaf proof pidx {k} two e lt =
      rw (e, lt→ltb m (lo + k) lt) (ground arith)

  pub rebuild-right :
      (depth lo hi m : ℕ) (leaf : Bytes) (proof : List Bytes) (pidx : ℕ) {k : ℕ}
      → 2 ≤ hi - lo
      → split (hi - lo) ≡ some k
      → lo + k ≤ m
      → rebuild sha256 (suc depth) lo hi m leaf proof pidx
        ≡ join_right sha256 proof (rebuild sha256 depth (lo + k) hi m leaf proof pidx)
  unfolding rebuild
  rebuild-right depth lo hi m leaf proof pidx {k} two e le =
      rw (e, le→ltb m (lo + k) le) (ground arith)

  pub rebuild-leaf :
      (depth lo hi m : ℕ) (leaf : Bytes) (proof : List Bytes) (pidx : ℕ)
      → hi - lo ≡ 1
      → rebuild sha256 (suc depth) lo hi m leaf proof pidx ≡ ok leaf pidx
  unfolding rebuild
  rebuild-leaf depth lo hi m leaf proof pidx one = ground arith

  -- What one audit path does, whatever stands before and behind it in the proof.
  record Audit (depth lo hi m : ℕ) (leaf : Bytes) : Type 0 where
    root : Bytes
    siblings : List Bytes
    is_root : mth sha256 depth leaves lo hi ≡ some root
    appended : (pre : List Bytes) → path sha256 depth leaves lo hi m pre ≡ some (pre ++ siblings)
    rebuilt :
        (pre suf proof : List Bytes)
        → proof ≡ pre ++ (siblings ++ suf)
        → rebuild sha256 depth lo hi m leaf proof (length pre) ≡ ok root (length (pre ++ siblings))
    short : suc (length siblings) ≤ depth

  Audit-leaf :
      (depth lo hi m : ℕ) (leaf : Bytes)
      → hi - lo ≡ 1
      → get_elem? leaves lo ≡ some leaf
      → Audit (suc depth) lo hi m leaf
  unfolding path
  Audit-leaf depth lo hi m leaf one e = record {
    root = leaf;
    siblings = [];
    is_root = mth-leaf sha256 leaves depth lo hi one ∙ e;
    appended = λ pre. rw append-nil (ground arith);
    rebuilt =
        λ pre suf proof ep. rw append-nil (rebuild-leaf depth lo hi m leaf proof (length pre) one);
    short = omega arith;
  }

  -- The sibling that `path` appended stands where `rebuild` looks next.
  next_sibling :
      (pre sibs suf proof : List Bytes) (h : Bytes)
      → proof ≡ pre ++ ((sibs ++ (h ∷ [])) ++ suf)
      → (get_elem? proof (length (pre ++ sibs)) ≡ some h)
        × (proof ≡ pre ++ (sibs ++ (h ∷ suf)))
        × (length (pre ++ sibs) + 1 ≡ length (pre ++ (sibs ++ (h ∷ []))))
  next_sibling pre sibs suf proof h e =
      let inner : proof ≡ pre ++ (sibs ++ (h ∷ suf)) = e ∙ simp append_assoc in
      let at_end : proof ≡ (pre ++ sibs) ++ (h ∷ suf) = e ∙ simp append_assoc in
      (
        rw at_end (get_elem?-append_length (pre ++ sibs) h suf),
        inner,
        simp length-append (omega arith),
      )

  join_left-ok :
      (proof : List Bytes) (sub h : Bytes) (i j : ℕ)
      → get_elem? proof i ≡ some h
      → i + 1 ≡ j
      → join_left sha256 proof (ok sub i) ≡ ok (hash_children sha256 sub h) j
  unfolding join_left
  join_left-ok proof sub h i j e ej = ground arith

  join_right-ok :
      (proof : List Bytes) (sub h : Bytes) (i j : ℕ)
      → get_elem? proof i ≡ some h
      → i + 1 ≡ j
      → join_right sha256 proof (ok sub i) ≡ ok (hash_children sha256 h sub) j
  unfolding join_right
  join_right-ok proof sub h i j e ej = ground arith

  length-snoc : (xs : List Bytes) (h : Bytes) → length (xs ++ (h ∷ [])) ≡ suc (length xs)
  length-snoc xs h = rw length-append (omega arith)

  Audit-left :
      (depth lo hi m : ℕ) (leaf : Bytes) {k : ℕ} {h : Bytes}
      → 2 ≤ hi - lo
      → split (hi - lo) ≡ some k
      → m < lo + k
      → Audit depth lo (lo + k) m leaf
      → mth sha256 depth leaves (lo + k) hi ≡ some h
      → Audit (suc depth) lo hi m leaf
  Audit-left depth lo hi m leaf {k} {h} two e lt a eh = record {
    root = hash_children sha256 a.root h;
    siblings = a.siblings ++ (h ∷ []);
    is_root = mth-join sha256 leaves depth lo hi two e a.is_root eh;
    appended = λ pre.
        path-left depth lo hi m pre two e lt (a.appended pre) eh
        ∙ ap some (append_assoc pre a.siblings (h ∷ []));
    rebuilt = λ pre suf proof ep.
        let (at, inner, step) = next_sibling pre a.siblings suf proof h ep in
        rebuild-left depth lo hi m leaf proof (length pre) two e lt
        ∙ ap (join_left sha256 proof) (a.rebuilt pre (h ∷ suf) proof inner)
        ∙ join_left-ok proof a.root h _ _ at step;
    short = rw length-snoc (omega (arith, a.short));
  }

  Audit-right :
      (depth lo hi m : ℕ) (leaf : Bytes) {k : ℕ} {h : Bytes}
      → 2 ≤ hi - lo
      → split (hi - lo) ≡ some k
      → lo + k ≤ m
      → Audit depth (lo + k) hi m leaf
      → mth sha256 depth leaves lo (lo + k) ≡ some h
      → Audit (suc depth) lo hi m leaf
  Audit-right depth lo hi m leaf {k} {h} two e le a eh = record {
    root = hash_children sha256 h a.root;
    siblings = a.siblings ++ (h ∷ []);
    is_root = mth-join sha256 leaves depth lo hi two e eh a.is_root;
    appended = λ pre.
        path-right depth lo hi m pre two e le (a.appended pre) eh
        ∙ ap some (append_assoc pre a.siblings (h ∷ []));
    rebuilt = λ pre suf proof ep.
        let (at, inner, step) = next_sibling pre a.siblings suf proof h ep in
        rebuild-right depth lo hi m leaf proof (length pre) two e le
        ∙ ap (join_right sha256 proof) (a.rebuilt pre (h ∷ suf) proof inner)
        ∙ join_right-ok proof a.root h _ _ at step;
    short = rw length-snoc (omega (arith, a.short));
  }

  audit :
      (depth lo hi m : ℕ) (leaf : Bytes)
      → InRange leaves lo hi depth
      → lo ≤ m
      → m < hi
      → get_elem? leaves m ≡ some leaf
      → Audit (suc depth) lo hi m leaf
  audit zero lo hi m leaf r low high e =
      let only : m ≡ lo = omega arith in Audit-leaf zero lo hi m leaf (omega arith) (rw only at e)
  audit (suc depth) lo hi m leaf r low high e = elim (dec_lt (hi - lo) 2) [
    | yes p ↦
        let only : m ≡ lo = omega arith in
        Audit-leaf (suc depth) lo hi m leaf (omega arith) (rw only at e)
    | no p ↦
        let (k, h) = range-Halves r (omega arith) in
        elim (dec_lt m (lo + k)) [
          | yes lt ↦
              let a = audit depth lo (lo + k) m leaf (left-InRange r h) low lt e in
              let (x, ex) = mth_total sha256 leaves depth (lo + k) hi (right-InRange r h) in
              Audit-left (suc depth) lo hi m leaf (omega arith) h.splits lt a ex
          | no ge ↦
              let a = audit depth (lo + k) hi m leaf (right-InRange r h) (omega arith) high e in
              let (x, ex) = mth_total sha256 leaves depth lo (lo + k) (left-InRange r h) in
              Audit-right (suc depth) lo hi m leaf (omega arith) h.splits (omega arith) a ex
        ]
  ]

-- Every inclusion proof that the log makes is accepted. For a tree of n <= 2^63 leaves and an index
-- m < n, the root and the proof are computed, the proof has at most 64 hashes, and the verifier
-- accepts it for the leaf hash at m against that root.
pub verify-proof :
    (sha256 : Bytes → Bytes) (leaves : List Bytes) (n m : ℕ) (leaf : Bytes)
    → n ≤ length leaves
    → n ≤ 2 ^ 63
    → m < n
    → get_elem? leaves m ≡ some leaf
    → (root : Bytes) × (proof : List Bytes) × (merkle_root sha256 leaves n ≡ some root)
      × (merkle_inclusion_proof sha256 leaves n m ≡ some (some proof))
      × (length proof ≤ 64)
      × (merkle_verify_inclusion sha256 m n leaf proof root ≡ some true)
unfolding merkle_root merkle_inclusion_proof merkle_verify_inclusion
verify-proof sha256 leaves n m leaf bound small lt e =
    let a = audit sha256 leaves 64 0 n m leaf (whole-InRange n bound small) (omega arith) lt e in
    (
      a.root,
      a.siblings,
      a.is_root,
      rw (a.appended []) (ground arith),
      omega (arith, a.short),
      rw (a.rebuilt [] [] a.siblings (sym (append-nil _))) (ground (arith, bytes_eq_refl a.root)),
    )
