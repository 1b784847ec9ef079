-- ===== src/TreeKem/Agreement.antt =====
-- Agreement on the group secret of treekem.c: who processes a commit reaches the committer's root
-- secret.
use qsafe.Base.{
  ℕ, zero, suc, ◌+◌, ◌*◌, ◌%◌, ◌^◌, ◌≤◌, ◌<◌, ◌≡◌, ◌≢◌, ◌⊎◌, inl, inr, refl, ◌∙◌, sym, ap, subst,
  true, false, Option, some, List, [], ◌∷◌, ◌==◌, length, Bytes, Bool-cases, arith,
}
use qsafe.Crypto.{ok, Primitives, IsAead}
use qsafe.TreeKem.Tree.{
  Node, Tree, set_node, parent, sibling, is_ancestor, tree_kdf, resolution, tree_depth, label_path,
  word_rounds,
}
use qsafe.TreeKem.Update.{
  recipients, Sealed, Step, seal_all, commit_path, open_first, find_secret, climb,
}
use qsafe.TreeKem.Ancestors.{Above, Above-le, Above-trans, Above-child, root-Above, siblings-Above}
use qsafe.TreeKem.Sealing.{
  Matched, InResolution, Ready, All-weaken, any_above, leaf_self, resolution-any_above,
  resolution-InResolution, recipients_all, open-seal_all,
}
use qsafe.TreeKem.CommitRun.{AtRoot, Inside, commit_path-Round, climb-agrees}
use qsafe.TreeKem.Install.{HkdfSize, Untouched, HoldsKeys, parent-Above_leaf, set_node-Untouched}

children_of :
    (c : ℕ)
    → 2 ≤ c
    → ((2 * parent c ≡ c) × (2 * parent c + 1 ≡ sibling c))
      ⊎ ((2 * parent c ≡ sibling c) × (2 * parent c + 1 ≡ c))
children_of c two = elim (Bool-cases (c % 2 == 0)) [
  | inl even ↦ inl (ground arith, ground arith)
  | inr odd ↦ inr (ground arith, ground arith)
]

-- If neither a node nor its sibling is above a leaf, their parent is not.
parent-off :
    (c m : ℕ)
    → 2 ≤ c
    → parent c < m
    → m < 2 ^ 32
    → (Above c m → ⊥)
    → is_ancestor (sibling c) m ≡ false
    → Above (parent c) m
    → ⊥
parent-off c m two lt small off other h = elim (children_of c two) [
  | inl (l, r) ↦ elim (Above-child (parent c) m lt small h) [
    | inl k ↦ off (ap (λ x. is_ancestor x m) (sym l) ∙ k)
    | inr k ↦ absurd (cc (other, ap (λ x. is_ancestor x m) (sym r) ∙ k))
  ]
  | inr (l, r) ↦ elim (Above-child (parent c) m lt small h) [
    | inl k ↦ absurd (cc (other, ap (λ x. is_ancestor x m) (sym l) ∙ k))
    | inr k ↦ off (ap (λ x. is_ancestor x m) (sym r) ∙ k)
  ]
]

-- The trees that a commit and its processing start from.
pub record Group (p : Primitives) (n l m : ℕ) (a b : Tree) : Type 0 where
  pub few : n ≤ 16
  pub sender : (n ≤ l) × (l < 2 * n)
  pub member : (n ≤ m) × (m < 2 * n)
  pub other : l ≢ m
  pub is_member : b.my_leaf ≡ m
  pub listed : (a.node m).has_pub ≡ true
  pub holds : HoldsKeys p a l b

module _ (p : Primitives) (derand : Bytes → Option (Bytes × Bytes)) (draw : ℕ → ℕ) (aead : IsAead p)
    (sizes : HkdfSize p) (n l m : ℕ) (a b : Tree) (g : Group p n l m a b) (tb : Tree)
    (tb_leaf : tb.my_leaf ≡ b.my_leaf) (tb_off : Untouched l tb.node b.node) where
  member-off : Above m l → ⊥
  member-off h =
      let e : m ≡ l = leaf_self n m l g.member.0 g.sender.1 (omega (arith, g.few, g.sender.1)) h in
      g.other (sym e)

  -- What the member needs to open a copath node's secret.
  copath-Ready :
      (t : Tree) (child : ℕ)
      → t.n_leaves ≡ n
      → 2 ≤ child
      → Above child l
      → Untouched l t.node a.node
      → (r : ℕ) → InResolution t (sibling child) r
      → Ready p t tb r
  copath-Ready t child size two above same r (below, at, hi, full) mine =
      let small : l < 2 ^ 32 = omega (arith, g.few, g.sender.1) in
      let off : Above r l → ⊥ = λ h.
        siblings-Above child l two small above
          (Above-trans (sibling child) r l (sibling_pos child two) small below h) in
      let node_is = same r off in
      let mine' : Above r b.my_leaf = ap (is_ancestor r) (sym tb_leaf) ∙ mine in
      let (has, matched) =
        g.holds r mine' off (ap (λ (x : Node). x.has_pub) (sym node_is) ∙ full) in
      (
        ap (λ (x : Node). x.has_priv) (tb_off r off) ∙ has,
        subst (λ k. Matched p k (tb.node r).priv_key) (ap (λ (x : Node). x.pub_key) (sym node_is))
            (subst (λ k. Matched p (a.node r).pub_key k)
              (ap (λ (x : Node). x.priv_key) (sym (tb_off r off))) matched),
      )
    where
      sibling_pos : (c : ℕ) → 2 ≤ c → 1 ≤ sibling c
      sibling_pos c two = ground arith

  copath-opens :
      (t : Tree) (child : ℕ) (ps : Bytes) {enc : List Sealed}
      → t.n_leaves ≡ n
      → 2 ≤ child
      → Above child l
      → Untouched l t.node a.node
      → length ps ≡ 32
      → Above (sibling child) m
      → seal_all p derand draw t ps (recipients t (sibling child)) ≡ some enc
      → open_first p derand tb enc ≡ some ps
  copath-opens t child ps size two above same ps_size covers sealed =
      let w_pos : 2 ≤ sibling child = sibling_two child two in
      let few : t.n_leaves ≤ 16 = omega (arith, g.few) in
      let reaches : any_above m (resolution tree_depth t (sibling child)) ≡ true =
        resolution-any_above tree_depth t (sibling child) m
          (ap (λ (x : Node). x.has_pub) (same m member-off) ∙ g.listed) (omega (arith, g.member.0))
          (omega (arith, g.member.1)) few (omega arith) (deep t.n_leaves (sibling child) few w_pos)
          covers in
      open-seal_all p derand draw t tb ps (resolution tree_depth t (sibling child)) aead ps_size
        (All-weaken (InResolution t (sibling child)) (Ready p t tb) _
          (copath-Ready t child size two above same)
          (resolution-InResolution tree_depth t (sibling child) (omega arith) few))
        (ap (λ x. any_above x (resolution tree_depth t (sibling child))) (tb_leaf ∙ g.is_member)
          ∙ reaches)
        (ap (seal_all p derand draw t ps) (sym (recipients_all t (sibling child) few w_pos))
          ∙ sealed)
    where
      sibling_two : (c : ℕ) → 2 ≤ c → 2 ≤ sibling c
      sibling_two c two = ground arith

      deep : (k w : ℕ) → k ≤ 16 → 2 ≤ w → 2 * k ≤ w * 2 ^ tree_depth
      deep k w few two = omega arith

  -- The member finds a path secret that it can open, and climbs to the committer's root secret.
  pub record Found (child : ℕ) (steps : List Step) (t' : Tree) : Type 0 where
    pub at : ℕ
    pub ps : Bytes
    pub left : Tree
    pub found : find_secret p derand tb child steps ≡ some (at, ps)
    pub climbed : climb p derand word_rounds at ps tb ≡ (ok tt, left)
    pub has : left.have_root ≡ true
    pub agreed : left.root_secret ≡ t'.root_secret

  starts :
      {rounds v : ℕ} {ps : Bytes} {st : Step} {t₁ : Tree} {steps : List Step} {t' : Tree}
      → ((v ≡ 1) × AtRoot p derand draw ps st t₁ steps t')
        ⊎ ((v ≢ 1) × Inside p derand draw rounds v ps st t₁ steps t')
      → (rest : List Step) × (steps ≡ st ∷ rest)
  starts (inl (root, here)) = ([], here.last)
  starts (inr (inner, up)) = (up.rest, up.more)

  find_here :
      (child : ℕ) (st : Step) (rest : List Step) {ps : Bytes}
      → Above (sibling child) m
      → open_first p derand tb st.enc ≡ some ps
      → find_secret p derand tb child (st ∷ rest) ≡ some (st.node, ps)
  unfolding find_secret
  find_here child st rest covers opened =
      rw (ap (is_ancestor (sibling child)) (tb_leaf ∙ g.is_member) ∙ covers, opened) refl

  find_next :
      (child : ℕ) (st : Step) (rest : List Step)
      → is_ancestor (sibling child) m ≡ false
      → find_secret p derand tb child (st ∷ rest) ≡ find_secret p derand tb st.node rest
  unfolding find_secret
  find_next child st rest other =
      rw (ap (is_ancestor (sibling child)) (tb_leaf ∙ g.is_member) ∙ other) refl

  pub find-Found :
      (rounds child : ℕ) (ps : Bytes) (t : Tree) {steps : List Step} {t' : Tree}
      → commit_path p derand draw rounds child (parent child) ps t ≡ (ok steps, t')
      → rounds ≤ word_rounds
      → 2 ≤ child
      → Above child l
      → (Above child m → ⊥)
      → Untouched l t.node a.node
      → t.n_leaves ≡ n
      → length ps ≡ 32
      → Found child steps t'
  unfolding commit_path set_node tree_kdf
  find-Found zero child ps t e le two above off same size ps_size = cc
  find-Found (suc rounds) child ps t {steps} {t'} e le two above off same size ps_size =
      let l_small : l < 2 ^ 32 = omega (arith, g.few, g.sender.1) in
      let m_small : m < 2 ^ 32 = omega (arith, g.few, g.member.1) in
      let v = parent child in
      let r = commit_path-Round p derand draw rounds child v ps t e in
      let t₁ = set_node v r.nd t in
      let v_above = parent-Above_leaf child l two l_small above in
      let same₁ = set_node-Untouched l v r.nd t a.node v_above same in
      let v_lt : v < m = omega (arith, Above-le child l l_small above, g.sender.1, g.member.0) in
      let (left, run, has, agreed) =
        climb-agrees p derand draw (suc rounds) word_rounds child v ps t tb le e in
      elim (Bool-cases (is_ancestor (sibling child) m)) [
        | inl covers ↦
            let opened = copath-opens t₁ child ps size two above same₁ ps_size covers r.sealed in
            let (rest, is) = starts r.end in
            record {
              at = v;
              ps = ps;
              left = left;
              found = ap (find_secret p derand tb child) is ∙ find_here child _ rest covers opened;
              climbed = run;
              has = has;
              agreed = agreed;
            }
        | inr other ↦
            let off₁ : Above v m → ⊥ = parent-off child m two v_lt m_small off other in
            elim r.end [
              | inl (root, here) ↦
                  absurd
                    (off₁ (ap (λ x. is_ancestor x m) root ∙ root-Above m (omega arith) m_small))
              | inr (inner, up) ↦
                  let rest =
                    find-Found rounds v up.nps t₁ up.above (omega arith) (omega (arith, inner))
                      v_above off₁ same₁ size (sizes ps [] label_path 32 up.nps up.derived) in
                  record {
                    at = rest.at;
                    ps = rest.ps;
                    left = rest.left;
                    found =
                        ap (find_secret p derand tb child) up.more
                        ∙ find_next child _ up.rest other
                        ∙ rest.found;
                    climbed = rest.climbed;
                    has = rest.has;
                    agreed = rest.agreed;
                  }
            ]
      ]
