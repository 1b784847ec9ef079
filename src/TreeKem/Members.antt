-- ===== src/TreeKem/Members.antt =====
-- Membership of treekem.c: blanking and adding leaves, and the public view of the tree.
use qsafe.Base.{
  ℕ, zero, suc, ◌+◌, ◌*◌, ◌-◌, Bool, true, false, ◌&&◌, ◌||◌, not, Option, none, some, ltb, leb,
  ◌==◌, if◌then◌else◌, Bytes, replicate,
}
use qsafe.Crypto.{Error, Result, ok, err, Primitives}
use qsafe.TreeKem.Tree.{
  Node, Tree, blank_node, set_node, with_pub, parent, leaves_pow2, tree_kdf, treekem_secret,
  treekem_max_leaves, word_rounds,
}

-- The loop that blanks node v and all above it, on fuel.
unfoldable pub blank_path : ℕ → ℕ → Tree → Tree
unfolding set_node
blank_path zero v t = t
blank_path (suc rounds) v t =
    let rest = blank_path rounds (parent v) (set_node v blank_node t) in
    if v == 1 then set_node v blank_node t else rest

abbrev pub is_leaf : Tree → ℕ → Bool
is_leaf t leaf = leb t.n_leaves leaf && ltb leaf (2 * t.n_leaves)

unfoldable pub treekem_blank_leaf : ℕ → Tree → Tree
unfolding blank_path
treekem_blank_leaf leaf t =
    if is_leaf t leaf then blank_path word_rounds (parent leaf) (set_node leaf blank_node t) else t

-- The loop of `treekem_free_leaf` over the leaves from l on, of which `count` are left.
unfoldable pub free_from : ℕ → ℕ → Tree → Option ℕ
free_from zero l t = none
free_from (suc count) l t =
    let rest = free_from count (l + 1) t in if (t.node l).has_pub then rest else some l

-- `none` is the return value -1.
unfoldable pub treekem_free_leaf : Tree → Option ℕ
unfolding free_from
treekem_free_leaf t = free_from t.n_leaves t.n_leaves t

unfoldable pub treekem_add_leaf : ℕ → Bytes → Tree → Result (Unit {0}) × Tree
unfolding blank_path
treekem_add_leaf leaf key t =
    if is_leaf t leaf
    then (
      ok tt,
      blank_path word_rounds (parent leaf) (set_node leaf (with_pub key (t.node leaf)) t),
    )
    else (err Error.invalid_input, t)

-- `treekem_public_t`
pub record PublicTree : Type 0 where
  pub n_leaves : ℕ
  pub node : ℕ → Option Bytes

unfoldable pub treekem_export : Tree → PublicTree
treekem_export t = record {
  n_leaves = t.n_leaves;
  node = λ i.
      if leb 1 i && (leb i (2 * t.n_leaves - 1) && (t.node i).has_pub)
      then some (t.node i).pub_key
      else none;
}

-- The node that is made of a public entry.
abbrev pub public_node : Option Bytes → Node
public_node none = blank_node
public_node (some key) = record blank_node { has_pub = true; pub_key = key }

abbrev pub imported_node : PublicTree → ℕ → Bytes → ℕ → Node
imported_node pt my_leaf my_leaf_priv i =
    let nd =
      if leb 1 i && leb i (2 * pt.n_leaves - 1) then public_node (pt.node i) else blank_node in
    if i == my_leaf then record nd { priv_key = my_leaf_priv; has_priv = true } else nd

unfoldable pub treekem_import : PublicTree → ℕ → Bytes → Result Tree
unfolding leaves_pow2
treekem_import pt my_leaf my_leaf_priv =
    if ltb pt.n_leaves 2 || (ltb treekem_max_leaves pt.n_leaves || not (leaves_pow2 pt.n_leaves))
    then err Error.invalid_input
    else if ltb my_leaf pt.n_leaves || leb (2 * pt.n_leaves) my_leaf
    then err Error.invalid_input
    else ok (record {
      n_leaves = pt.n_leaves;
      my_leaf = my_leaf;
      node = imported_node pt my_leaf my_leaf_priv;
      root_secret = replicate treekem_secret 0;
      have_root = false;
    })

-- `treekem_root_secret`
unfoldable pub treekem_root_secret : Tree → Option Bytes
treekem_root_secret t = if t.have_root then some t.root_secret else none

unfoldable pub treekem_export_secret : Primitives → Tree → Bytes → ℕ → Result Bytes
unfolding tree_kdf
treekem_export_secret p t label out_len =
    if not t.have_root
    then err Error.invalid_input
    else elim (tree_kdf p t.root_secret label out_len) [
      | none ↦ err Error.crypto
      | some out ↦ ok out
    ]
