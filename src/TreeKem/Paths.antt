-- ===== src/TreeKem/Paths.antt =====
-- The tree arithmetic of treekem.c: blanking a path blanks exactly the ancestors of its leaf.
use native.Mathlib.Nat.{pow-suc}
use qsafe.Base.{
  ℕ, zero, suc, ◌*◌, ◌^◌, ◌≤◌, ◌<◌, ◌≡◌, refl, ◌∙◌, sym, ap, Bool, true, ltb, ◌==◌, if◌then◌else◌,
  Bytes, Bool-cases, inl, inr, arith,
}
use qsafe.Crypto.{Result, ok}
use qsafe.TreeKem.Tree.{
  Node, Tree, blank_node, set_node, with_pub, parent, ancestor_loop, is_ancestor, word_rounds,
}
use qsafe.TreeKem.Members.{blank_path, is_leaf, treekem_blank_leaf, treekem_add_leaf}

ancestor_loop-le : (rounds a v : ℕ) → ancestor_loop rounds a v ≤ v
unfolding ancestor_loop
ancestor_loop-le zero a v = omega arith
ancestor_loop-le (suc rounds) a v = ground (arith, ancestor_loop-le rounds a (parent v))

-- Once there are rounds enough, more of them change nothing.
ancestor_loop-enough :
    (rounds a v : ℕ) → v < 2 ^ rounds → ancestor_loop (suc rounds) a v ≡ ancestor_loop rounds a v
unfolding ancestor_loop
ancestor_loop-enough zero a v lt = ground arith
ancestor_loop-enough (suc rounds) a v lt =
    let half : parent v < 2 ^ rounds = omega (arith, pow-suc 2 rounds) in
    ap (λ rest. if ltb a v then rest else v) (ancestor_loop-enough rounds a (parent v) half)

-- Blanking from v up blanks v and its ancestors.
blank_path_lem :
    (rounds v : ℕ) (t : Tree) (j : ℕ)
    → 1 ≤ v
    → v < 2 ^ rounds
    → 1 ≤ j
    → (blank_path rounds v t).node j
      ≡ (if ancestor_loop rounds j v == j then blank_node else t.node j)
unfolding blank_path ancestor_loop set_node
blank_path_lem zero v t j le lt at = absurd (omega arith)
blank_path_lem (suc rounds) v t j le lt at = elim (Bool-cases (v == 1)) [
  | inl one ↦ ground arith
  | inr more ↦
      let above : 1 ≤ parent v = ground arith in
      let half : parent v < 2 ^ rounds = omega (arith, pow-suc 2 rounds) in
      let rest = blank_path_lem rounds (parent v) (set_node v blank_node t) j above half at in
      ground (arith, rest, ancestor_loop-le rounds j (parent v))
]

ancestor_loop-suc :
    (rounds a v : ℕ)
    → ancestor_loop (suc rounds) a v ≡ (if ltb a v then ancestor_loop rounds a (parent v) else v)
unfolding ancestor_loop
ancestor_loop-suc rounds a v = refl

pub is_ancestor-loop : (a v : ℕ) → is_ancestor a v ≡ (ancestor_loop word_rounds a v == a)
unfolding is_ancestor
is_ancestor-loop a v = refl

-- The leaf itself is its own ancestor, and the others are those of its parent.
pub is_ancestor-parent :
    (j leaf : ℕ)
    → leaf < 2 ^ 32
    → is_ancestor j leaf
      ≡ ((if ltb j leaf then ancestor_loop word_rounds j (parent leaf) else leaf) == j)
is_ancestor-parent j leaf lt =
    is_ancestor-loop j leaf
    ∙ ap (λ x. x == j)
        (sym (ancestor_loop-enough word_rounds j leaf lt) ∙ ancestor_loop-suc word_rounds j leaf)

blank_cases :
    (leaf : ℕ) (own : Node) (t : Tree) (j x : ℕ) (is : Bool)
    → x ≤ parent leaf
    → 1 ≤ leaf
    → is ≡ ((if ltb j leaf then x else leaf) == j)
    → (if x == j then blank_node else (set_node leaf own t).node j)
      ≡ (if j == leaf then own else if is then blank_node else t.node j)
unfolding set_node
blank_cases leaf own t j x is le pos e = ground arith

-- Blanking above a leaf whose own node was set to `own`.
blank_above :
    (leaf : ℕ) (own : Node) (t : Tree) (j : ℕ)
    → 2 ≤ leaf
    → leaf < 2 ^ 32
    → 1 ≤ j
    → (blank_path word_rounds (parent leaf) (set_node leaf own t)).node j
      ≡ (if j == leaf then own else if is_ancestor j leaf then blank_node else t.node j)
blank_above leaf own t j two lt at =
    let half : parent leaf < 2 ^ 32 = omega arith in
    let above : 1 ≤ parent leaf = omega arith in
    blank_path_lem word_rounds (parent leaf) (set_node leaf own t) j above half at
    ∙ blank_cases leaf own t j (ancestor_loop word_rounds j (parent leaf)) (is_ancestor j leaf)
        (ancestor_loop-le word_rounds j (parent leaf)) (omega arith) (is_ancestor-parent j leaf lt)

is_leaf-bounds :
    (t : Tree) (leaf : ℕ) → is_leaf t leaf ≡ true → (t.n_leaves ≤ leaf) × (leaf < 2 * t.n_leaves)
is_leaf-bounds t leaf h = ground arith

blank_leaf-run :
    (leaf : ℕ) (t : Tree)
    → is_leaf t leaf ≡ true
    → treekem_blank_leaf leaf t ≡ blank_path word_rounds (parent leaf) (set_node leaf blank_node t)
unfolding treekem_blank_leaf
blank_leaf-run leaf t at = rw at refl

add_leaf-run :
    (leaf : ℕ) (key : Bytes) (t : Tree)
    → is_leaf t leaf ≡ true
    → treekem_add_leaf leaf key t
      ≡ (ok tt, blank_path word_rounds (parent leaf) (set_node leaf (with_pub key (t.node leaf)) t))
unfolding treekem_add_leaf
add_leaf-run leaf key t at = rw at refl

own_cases :
    (leaf : ℕ) (t : Tree) (j x : ℕ) (is : Bool)
    → is ≡ ((if ltb j leaf then x else leaf) == j)
    → (if j == leaf then blank_node else if is then blank_node else t.node j)
      ≡ (if is then blank_node else t.node j)
own_cases leaf t j x is e = ground arith

own_blank :
    (leaf : ℕ) (t : Tree) (j : ℕ)
    → leaf < 2 ^ 32
    → (if j == leaf then blank_node else if is_ancestor j leaf then blank_node else t.node j)
      ≡ (if is_ancestor j leaf then blank_node else t.node j)
own_blank leaf t j lt =
    own_cases leaf t j (ancestor_loop word_rounds j (parent leaf)) (is_ancestor j leaf)
      (is_ancestor-parent j leaf lt)

-- Removing a member blanks exactly its leaf and the ancestors of the leaf. In a tree of 2 to 16
-- leaves, after `treekem_blank_leaf` on a leaf, a node has neither key if it is an ancestor of the
-- leaf or the leaf itself, as `is_ancestor` tells, and is the one before otherwise.
pub blank_leaf-is_ancestor :
    (leaf : ℕ) (t : Tree) (j : ℕ)
    → 2 ≤ t.n_leaves
    → t.n_leaves ≤ 16
    → is_leaf t leaf ≡ true
    → 1 ≤ j
    → (treekem_blank_leaf leaf t).node j ≡ (if is_ancestor j leaf then blank_node else t.node j)
blank_leaf-is_ancestor leaf t j two few at le =
    let (lo, hi) = is_leaf-bounds t leaf at in
    ap (λ x. x.node j) (blank_leaf-run leaf t at)
    ∙ blank_above leaf blank_node t j (omega arith) (omega arith) le
    ∙ own_blank leaf t j (omega arith)

-- Adding a member seats its key and blanks the path above it. In a tree of 2 to 16 leaves,
-- `treekem_add_leaf` on a leaf succeeds; after it the leaf has the public key and no private one, an
-- ancestor of the leaf has neither key, and any other node is the one before.
pub add_leaf-is_ancestor :
    (leaf : ℕ) (key : Bytes) (t : Tree) (j : ℕ)
    → 2 ≤ t.n_leaves
    → t.n_leaves ≤ 16
    → is_leaf t leaf ≡ true
    → 1 ≤ j
    → ((treekem_add_leaf leaf key t).0 ≡ ok tt)
      × ((treekem_add_leaf leaf key t).1.node j ≡ (
          if j == leaf
          then with_pub key (t.node leaf)
          else if is_ancestor j leaf
          then blank_node
          else t.node j))
add_leaf-is_ancestor leaf key t j two few at le =
    let (lo, hi) = is_leaf-bounds t leaf at in
    (
      ap (λ (r : Result (Unit {0}) × Tree). r.0) (add_leaf-run leaf key t at),
      ap (λ (r : Result (Unit {0}) × Tree). r.1.node j) (add_leaf-run leaf key t at)
          ∙ blank_above leaf (with_pub key (t.node leaf)) t j (omega arith) (omega arith) le,
    )
