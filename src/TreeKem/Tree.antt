-- ===== src/TreeKem/Tree.antt =====
-- The ratchet tree of treekem.c: the heap-indexed nodes, the tree arithmetic, the key derivation of
-- a node, resolutions and sealed path secrets. The derandomised ML-KEM key generation of liboqs is a
-- parameter, as are the calls of `Primitives`.
use qsafe.Base.{
  ℕ, zero, suc, ◌+◌, ◌*◌, ◌-◌, ◌/◌, ◌%◌, Bool, true, false, ◌&&◌, not, Option, some, List, [], ◌∷◌,
  ◌++◌, ◌>>=◌, ltb, leb, ◌==◌, if◌then◌else◌, take, drop, replicate, Bytes, codes, bit_and,
}
use qsafe.Crypto.{Primitives}

abbrev pub treekem_max_leaves : ℕ
treekem_max_leaves = 16

abbrev pub treekem_max_path : ℕ
treekem_max_path = 5

abbrev pub treekem_max_res : ℕ
treekem_max_res = treekem_max_leaves / 2

abbrev pub treekem_mlkem_pk : ℕ
treekem_mlkem_pk = 1568

abbrev pub treekem_mlkem_sk : ℕ
treekem_mlkem_sk = 3168

abbrev pub treekem_mlkem_ct : ℕ
treekem_mlkem_ct = 1568

abbrev pub treekem_secret : ℕ
treekem_secret = 32

abbrev pub kem_seed : ℕ
kem_seed = 64

-- `node_t`
pub record Node : Type 0 where
  pub has_pub : Bool
  pub has_priv : Bool
  pub pub_key : Bytes
  pub priv_key : Bytes

abbrev pub blank_node : Node
blank_node = record {
  has_pub = false;
  has_priv = false;
  pub_key = replicate treekem_mlkem_pk 0;
  priv_key = replicate treekem_mlkem_sk 0;
}

-- `struct treekem`; `node` is the array `node[1 .. 2N-1]`.
pub record Tree : Type 0 where
  pub n_leaves : ℕ
  pub my_leaf : ℕ
  pub node : ℕ → Node
  pub root_secret : Bytes
  pub have_root : Bool

-- An assignment to one node.
unfoldable pub set_node : ℕ → Node → Tree → Tree
set_node i nd t = record t { node = λ j. if j == i then nd else t.node j }

-- `nd->pub = pub; nd->has_pub = 1; nd->has_priv = 0`: the private half is stale.
abbrev pub with_pub : Bytes → Node → Node
with_pub key nd = record nd { pub_key = key; has_pub = true; has_priv = false }

abbrev pub parent : ℕ → ℕ
parent i = i / 2

-- `i ^ 1u`
abbrev pub sibling : ℕ → ℕ
sibling i = if i % 2 == 0 then i + 1 else i - 1

-- `while (leaf > a) leaf >>= 1;` on fuel: 32 rounds shift a `uint32_t` to 0.
unfoldable pub ancestor_loop : ℕ → ℕ → ℕ → ℕ
ancestor_loop zero a leaf = leaf
ancestor_loop (suc fuel) a leaf =
    let rest = ancestor_loop fuel a (parent leaf) in if ltb a leaf then rest else leaf

abbrev pub word_rounds : ℕ
word_rounds = 32

unfoldable pub is_ancestor : ℕ → ℕ → Bool
unfolding ancestor_loop
is_ancestor a leaf = ancestor_loop word_rounds a leaf == a

-- `is_pow2`
unfoldable pub leaves_pow2 : ℕ → Bool
leaves_pow2 x = not (x == 0) && bit_and x (x - 1) == 0

abbrev pub label_node : Bytes
label_node = codes "node"

abbrev pub label_path : Bytes
label_path = codes "path"

abbrev pub label_root : Bytes
label_root = codes "root"

abbrev pub label_enc : Bytes
label_enc = codes "enc"

module _ (p : Primitives) where
  -- `kdf`
  unfoldable pub tree_kdf : Bytes → Bytes → ℕ → Option Bytes
  tree_kdf secret label outlen = p.hkdf secret [] label outlen

  -- `seal_ps`: the ML-KEM ciphertext and the sealed path secret with its tag.
  unfoldable pub seal_ps : ℕ → Bytes → Bytes → Option (Bytes × Bytes)
  unfolding tree_kdf
  seal_ps draw pub_key ps = do
    (ct, ss) ← p.kem_encaps draw pub_key
    key ← tree_kdf ss label_enc treekem_secret
    (sealed, tag) ← p.gcm_seal key (replicate 12 0) [] ps
    some (ct, sealed ++ tag)

  -- `open_ps`
  unfoldable pub open_ps : Bytes → Bytes → Bytes → Option Bytes
  unfolding tree_kdf
  open_ps priv_key ct sealed = do
    ss ← p.kem_decaps ct priv_key
    key ← tree_kdf ss label_enc treekem_secret
    p.gcm_open key (replicate 12 0) [] (take treekem_secret sealed) (drop treekem_secret sealed)

-- `node_from_ps`: the node's key pair from its path secret; the private half is kept if `with_priv`.
unfoldable pub node_from_ps :
    Primitives → (Bytes → Option (Bytes × Bytes)) → Node → Bytes → Bool → Option Node
unfolding tree_kdf
node_from_ps p derand nd ps with_priv = do
  seed ← tree_kdf p ps label_node kem_seed
  (pub_key, priv_key) ← derand seed
  some (
      if with_priv
      then record { has_pub = true; has_priv = true; pub_key = pub_key; priv_key = priv_key }
      else record nd { has_pub = true; pub_key = pub_key })

-- `resolution`: the highest populated nodes below v. The first number bounds the depth.
unfoldable pub resolution : ℕ → Tree → ℕ → List ℕ
resolution zero t v = []
resolution (suc depth) t v =
    let below = resolution depth t (2 * v) ++ resolution depth t (2 * v + 1) in
    if ltb (2 * t.n_leaves - 1) v
    then []
    else if (t.node v).has_pub
    then v ∷ []
    else if leb t.n_leaves v
    then []
    else below

-- Below the root of at most 16 leaves there are at most 5 levels, and one more index to refuse.
abbrev pub tree_depth : ℕ
tree_depth = 6
