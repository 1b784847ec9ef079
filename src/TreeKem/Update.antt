-- ===== src/TreeKem/Update.antt =====
-- `treekem_init`, `treekem_commit` and `treekem_process` of treekem.c. A call gives its result and
-- the tree that it leaves, also when it fails half-way.
use qsafe.Base.{
  take, ℕ, zero, suc, ◌+◌, ◌*◌, ◌-◌, Bool, true, false, ◌&&◌, ◌||◌, not, Option, none, some, List,
  [], ◌∷◌, ◌>>=◌, ltb, leb, ◌==◌, if◌then◌else◌, length, get_or, Bytes, replicate,
}
use qsafe.Crypto.{Error, Result, ok, err, Primitives}
use qsafe.TreeKem.Tree.{
  Node, Tree, blank_node, set_node, with_pub, parent, sibling, is_ancestor, leaves_pow2, tree_kdf,
  node_from_ps, seal_ps, open_ps, resolution, tree_depth, label_path, label_root, treekem_secret,
  treekem_max_leaves, treekem_max_path, treekem_max_res, word_rounds,
}

-- A path secret that is sealed for one recipient.
pub record Sealed : Type 0 where
  pub recipient : ℕ
  pub ct : Bytes
  pub sealed : Bytes

-- `treekem_step_t`; `enc` is `enc[0 .. n_enc)`.
pub record Step : Type 0 where
  pub node : ℕ
  pub pub_key : Bytes
  pub enc : List Sealed

-- `treekem_commit_t`; `step` is `step[0 .. n_steps)`.
pub record Commit : Type 0 where
  pub sender_leaf : ℕ
  pub leaf_pub : Bytes
  pub step : List Step

-- The nodes of a new tree: every leaf has its public key, ours its private key too.
abbrev pub leaf_node : ℕ → ℕ → List Bytes → Bytes → ℕ → Node
leaf_node n_leaves me leaf_pubs my_leaf_priv i =
    if leb n_leaves i && ltb i (2 * n_leaves)
    then (let nd = with_pub (get_or leaf_pubs (i - n_leaves) []) blank_node in
        if i == n_leaves + me then record nd { priv_key = my_leaf_priv; has_priv = true } else nd)
    else blank_node

unfoldable pub treekem_init : ℕ → ℕ → List Bytes → Bytes → Result Tree
unfolding leaves_pow2
treekem_init n_leaves me leaf_pubs my_leaf_priv =
    if leb n_leaves me
      || (ltb n_leaves 2 || (ltb treekem_max_leaves n_leaves || not (leaves_pow2 n_leaves)))
    then err Error.invalid_input
    else ok (record {
      n_leaves = n_leaves;
      my_leaf = n_leaves + me;
      node = leaf_node n_leaves me leaf_pubs my_leaf_priv;
      root_secret = replicate treekem_secret 0;
      have_root = false;
    })

abbrev pub set_root : Bytes → Tree → Tree
set_root secret t = record t { root_secret = secret; have_root = true }

abbrev pub prepend : Step → Result (List Step) × Tree → Result (List Step) × Tree
prepend st (ok steps, t) = (ok (st ∷ steps), t)
prepend st (err e, t) = (err e, t)

-- The checks at the top of `treekem_process`.
unfoldable pub commit_refused : Tree → Commit → Bool
commit_refused t c =
    length c.step == 0
    || (ltb treekem_max_path (length c.step)
        || (ltb c.sender_leaf t.n_leaves
            || (leb (2 * t.n_leaves) c.sender_leaf || c.sender_leaf == t.my_leaf)))

-- The recipients of one step: the loop over the resolution stops at TREEKEM_MAX_RES.
abbrev pub recipients : Tree → ℕ → List ℕ
recipients t v = take treekem_max_res (resolution tree_depth t v)

module _ (p : Primitives) (derand : Bytes → Option (Bytes × Bytes)) where
  -- The path secret for every recipient of the copath; `draw` gives the randomness of each.
  unfoldable pub seal_all : (ℕ → ℕ) → Tree → Bytes → List ℕ → Option (List Sealed)
  unfolding seal_ps
  seal_all draw t ps [] = some []
  seal_all draw t ps (r ∷ recipients) = do
    (ct, sealed) ← seal_ps p (draw r) (t.node r).pub_key ps
    rest ← seal_all draw t ps recipients
    some (record { recipient = r; ct = ct; sealed = sealed } ∷ rest)

  -- The loop of `treekem_commit` from node v up, with the path secret of v. The first number
  -- bounds its rounds.
  unfoldable pub commit_path : (ℕ → ℕ) → ℕ → ℕ → ℕ → Bytes → Tree → Result (List Step) × Tree
  unfolding node_from_ps seal_all resolution tree_kdf
  commit_path draw zero child v ps t = (err Error.crypto, t)
  commit_path draw (suc rounds) child v ps t = elim (node_from_ps p derand (t.node v) ps true) [
    | none ↦ (err Error.crypto, t)
    | some nd ↦
        let t' = set_node v nd t in
        elim (seal_all draw t' ps (recipients t' (sibling child))) [
          | none ↦ (err Error.crypto, t')
          | some enc ↦
              let st : Step = record { node = v; pub_key = nd.pub_key; enc = enc } in
              let above : Result (List Step) × Tree =
                elim (tree_kdf p ps label_path treekem_secret) [
                  | none ↦ (err Error.crypto, t')
                  | some nps ↦ prepend st (commit_path draw rounds v (parent v) nps t')
                ] in
              let top : Result (List Step) × Tree = elim (tree_kdf p ps label_root treekem_secret) [
                | none ↦ (err Error.crypto, t')
                | some secret ↦ (ok (st ∷ []), set_root secret t')
              ] in
              if v == 1 then top else above
        ]
  ]

  abbrev pub new_commit : ℕ → Bytes → Result (List Step) × Tree → Result Commit × Tree
  new_commit leaf key (ok steps, t) =
      (ok (record { sender_leaf = leaf; leaf_pub = key; step = steps }), t)
  new_commit leaf key (err e, t) = (err e, t)

  unfoldable pub treekem_commit : ℕ → (ℕ → ℕ) → Tree → Result Commit × Tree
  unfolding commit_path
  treekem_commit rand draw t = elim (p.rand_bytes rand treekem_secret) [
    | none ↦ (err Error.crypto, t)
    | some leaf_secret ↦ elim (node_from_ps p derand (t.node t.my_leaf) leaf_secret true) [
      | none ↦ (err Error.crypto, t)
      | some nd ↦
          let t' = set_node t.my_leaf nd t in
          elim (tree_kdf p leaf_secret label_path treekem_secret) [
            | none ↦ (err Error.crypto, t')
            | some ps ↦
                new_commit t.my_leaf nd.pub_key
                  (commit_path draw word_rounds t.my_leaf (parent t.my_leaf) ps t')
          ]
    ]
  ]

  -- Part 1 of `treekem_process`: the committer's new public keys. A bad node index ends the call, and
  -- the keys before it stay.
  unfoldable pub install : List Step → Tree → Result (Unit {0}) × Tree
  install [] t = (ok tt, t)
  install (st ∷ steps) t =
      let rest = install steps (set_node st.node (with_pub st.pub_key (t.node st.node)) t) in
      if ltb st.node 1 || ltb (2 * t.n_leaves - 1) st.node
      then (err Error.invalid_input, t)
      else rest

  -- The first sealed secret of a step that is for us and that we can open.
  unfoldable pub open_first : Tree → List Sealed → Option Bytes
  unfolding open_ps is_ancestor
  open_first t [] = none
  open_first t (e ∷ enc) =
      let rest = open_first t enc in
      if is_ancestor e.recipient t.my_leaf && (t.node e.recipient).has_priv
      then elim (open_ps p (t.node e.recipient).priv_key e.ct e.sealed) [
        | none ↦ rest
        | some ps ↦ some ps
      ]
      else rest

  -- Part 2: the step whose copath covers our leaf.
  unfoldable pub find_secret : Tree → ℕ → List Step → Option (ℕ × Bytes)
  unfolding open_first is_ancestor
  find_secret t child [] = none
  find_secret t child (st ∷ steps) =
      let rest = find_secret t st.node steps in
      if is_ancestor (sibling child) t.my_leaf
      then elim (open_first t st.enc) [ none ↦ rest | some ps ↦ some (st.node, ps) ]
      else rest

  -- Part 3: from node v to the root. The first number bounds the rounds.
  unfoldable pub climb : ℕ → ℕ → Bytes → Tree → Result (Unit {0}) × Tree
  unfolding node_from_ps tree_kdf
  climb zero v ps t = (err Error.crypto, t)
  climb (suc rounds) v ps t = elim (node_from_ps p derand (t.node v) ps true) [
    | none ↦ (err Error.crypto, t)
    | some nd ↦
        let t' = set_node v nd t in
        let above : Result (Unit {0}) × Tree = elim (tree_kdf p ps label_path treekem_secret) [
          | none ↦ (err Error.crypto, t')
          | some nps ↦ climb rounds (parent v) nps t'
        ] in
        let top : Result (Unit {0}) × Tree = elim (tree_kdf p ps label_root treekem_secret) [
          | none ↦ (err Error.crypto, t')
          | some secret ↦ (ok tt, set_root secret t')
        ] in
        if v == 1 then top else above
  ]

  abbrev pub recover : Commit → Result (Unit {0}) × Tree → Result (Unit {0}) × Tree
  recover c (err e, t) = (err e, t)
  recover c (ok u, t) = elim (find_secret t c.sender_leaf c.step) [
    | none ↦ (err Error.integrity, t)
    | some (v, ps) ↦ climb word_rounds v ps t
  ]

  unfoldable pub treekem_process : Commit → Tree → Result (Unit {0}) × Tree
  unfolding install find_secret climb commit_refused
  treekem_process c t =
      if commit_refused t c
      then (err Error.invalid_input, t)
      else recover c
          (install c.step (set_node c.sender_leaf (with_pub c.leaf_pub (t.node c.sender_leaf)) t))
