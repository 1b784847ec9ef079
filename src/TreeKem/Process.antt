-- ===== src/TreeKem/Process.antt =====
-- `treekem_process` of treekem.c on a commit of `treekem_commit`.
use qsafe.Base.{
  ℕ, ◌*◌, ◌^◌, ◌≤◌, ◌<◌, ◌≡◌, ◌≢◌, refl, ◌∙◌, ap, true, false, Option, some, List, [], length,
  Bytes, Option-cases, inl, inr, arith,
}
use qsafe.Crypto.{Result, ok, err, Primitives, IsAead}
use qsafe.TreeKem.Tree.{
  Node, Tree, set_node, with_pub, parent, tree_kdf, node_from_ps, label_path, treekem_secret,
  word_rounds,
}
use qsafe.TreeKem.Update.{
  Step, Commit, commit_path, new_commit, treekem_commit, install, find_secret, climb, recover,
  commit_refused, treekem_process,
}
use qsafe.TreeKem.Ancestors.{Above, self-Above, is_ancestor-lt}
use qsafe.TreeKem.Sealing.{leaf_self}
use qsafe.TreeKem.Install.{
  HkdfSize, set_node-Untouched, Steps, commit_path-Steps, install-Installed,
}
use qsafe.TreeKem.Agreement.{Group, find-Found}

-- What one successful call of `treekem_commit` made.
record Committed (p : Primitives) (derand : Bytes → Option (Bytes × Bytes)) (draw : ℕ → ℕ)
    (a : Tree) (c : Commit) (a' : Tree) : Type 0 where
  leaf_secret : Bytes
  nd : Node
  ps : Bytes
  steps : List Step
  derived : tree_kdf p leaf_secret label_path treekem_secret ≡ some ps
  run :
      commit_path p derand draw word_rounds a.my_leaf
        (parent a.my_leaf)
        ps
        (set_node a.my_leaf nd a)
      ≡ (ok steps, a')
  is_commit : c ≡ record { sender_leaf = a.my_leaf; leaf_pub = nd.pub_key; step = steps }

new_commit-ok :
    (p : Primitives) (derand : Bytes → Option (Bytes × Bytes)) (leaf : ℕ) (key : Bytes)
    (r : Result (List Step) × Tree) {c : Commit} {t : Tree}
    → new_commit p derand leaf key r ≡ (ok c, t)
    → (steps : List Step) × (r ≡ (ok steps, t))
      × (c ≡ record { sender_leaf = leaf; leaf_pub = key; step = steps })
new_commit-ok p derand leaf key (ok steps, t') e = (steps, ground arith, ground arith)
new_commit-ok p derand leaf key (err x, t') e = cc

committed :
    (p : Primitives) (derand : Bytes → Option (Bytes × Bytes)) (rand : ℕ) (draw : ℕ → ℕ) (a : Tree)
    (leaf_secret : Bytes) (nd : Node) (ps : Bytes)
    → p.rand_bytes rand treekem_secret ≡ some leaf_secret
    → node_from_ps p derand (a.node a.my_leaf) leaf_secret true ≡ some nd
    → tree_kdf p leaf_secret label_path treekem_secret ≡ some ps
    → new_commit p derand a.my_leaf nd.pub_key (
        commit_path p derand draw word_rounds a.my_leaf
          (parent a.my_leaf)
          ps
          (set_node a.my_leaf nd a))
      ≡ treekem_commit p derand rand draw a
unfolding treekem_commit
committed p derand rand draw a leaf_secret nd ps drawn made derived =
    rw (treekem_commit, drawn, made, derived) refl

commit-Committed :
    (p : Primitives) (derand : Bytes → Option (Bytes × Bytes)) (rand : ℕ) (draw : ℕ → ℕ) (a : Tree)
    {c : Commit} {a' : Tree}
    → treekem_commit p derand rand draw a ≡ (ok c, a')
    → Committed p derand draw a c a'
unfolding treekem_commit
commit-Committed p derand rand draw a {c} {a'} e =
    elim (Option-cases (p.rand_bytes rand treekem_secret)) [
      | inl failed ↦ absurd (ground arith)
      | inr (leaf_secret, drawn) ↦
          elim (Option-cases (node_from_ps p derand (a.node a.my_leaf) leaf_secret true)) [
            | inl failed ↦ absurd (ground arith)
            | inr (nd, made) ↦
                elim (Option-cases (tree_kdf p leaf_secret label_path treekem_secret)) [
                  | inl failed ↦ absurd (ground arith)
                  | inr (ps, derived) ↦
                      let path =
                        commit_path p derand draw word_rounds a.my_leaf (parent a.my_leaf) ps
                          (set_node a.my_leaf nd a) in
                      let whole : new_commit p derand a.my_leaf nd.pub_key path ≡ (ok c, a') =
                        committed p derand rand draw a leaf_secret nd ps drawn made derived ∙ e in
                      let (steps, run, is) =
                        new_commit-ok p derand a.my_leaf nd.pub_key path whole in
                      record {
                        leaf_secret = leaf_secret;
                        nd = nd;
                        ps = ps;
                        steps = steps;
                        derived = derived;
                        run = run;
                        is_commit = is;
                      }
                ]
          ]
    ]

recovered :
    (p : Primitives) (derand : Bytes → Option (Bytes × Bytes)) (c : Commit) (t : Tree) {v : ℕ}
    {ps : Bytes}
    → find_secret p derand t c.sender_leaf c.step ≡ some (v, ps)
    → recover p derand c (ok tt, t) ≡ climb p derand word_rounds v ps t
recovered p derand c t found = rw (recover, found) refl

accepted :
    (b : Tree) (c : Commit)
    → 1 ≤ length c.step
    → length c.step ≤ 5
    → b.n_leaves ≤ c.sender_leaf
    → c.sender_leaf < 2 * b.n_leaves
    → c.sender_leaf ≢ b.my_leaf
    → commit_refused b c ≡ false
unfolding commit_refused
accepted b c some_step few lo hi other = ground arith

process-run :
    (p : Primitives) (derand : Bytes → Option (Bytes × Bytes)) (c : Commit) (b : Tree)
    → commit_refused b c ≡ false
    → treekem_process p derand c b
      ≡ recover p derand c (
          install p derand c.step
            (set_node c.sender_leaf (with_pub c.leaf_pub (b.node c.sender_leaf)) b))
unfolding treekem_process
process-run p derand c b fine = rw (treekem_process, fine) refl

-- Agreement on the group secret. Let a group of at most 16 leaves have a committer and another
-- member, whose leaf has a public key in the committer's tree, and let that member hold the private
-- key, one that decapsulates what is encapsulated to the public one, of every node above its leaf and
-- off the committer's path that the committer's tree shows a public key for. When `treekem_commit`
-- succeeds, `treekem_process` of the commit succeeds at the member, and leaves it with the root secret
-- that the committer has.
pub process-commit :
    (p : Primitives) (derand : Bytes → Option (Bytes × Bytes)) (rand : ℕ) (draw : ℕ → ℕ)
    (a b : Tree) (c : Commit) (a' : Tree)
    → IsAead p
    → HkdfSize p
    → 2 ≤ a.n_leaves
    → b.n_leaves ≡ a.n_leaves
    → Group p a.n_leaves a.my_leaf b.my_leaf a b
    → treekem_commit p derand rand draw a ≡ (ok c, a')
    → (b' : Tree) × (treekem_process p derand c b ≡ (ok tt, b'))
      × (b'.have_root ≡ true)
      × (b'.root_secret ≡ a'.root_secret)
unfolding tree_kdf set_node
process-commit p derand rand draw a b c a' aead sizes two same_n g e =
    let l = a.my_leaf in
    let l_small : l < 2 ^ 32 = omega (arith, g.few, g.sender.1) in
    let l_two : 2 ≤ l = omega (arith, g.sender.0) in
    let d = commit-Committed p derand rand draw a e in
    let self = self-Above l l_small in
    let up : Above (parent l) l =
      is_ancestor-lt (parent l) l (omega arith) l_small ∙ self-Above (parent l) (omega arith) in
    let st : Steps b.n_leaves l 4 d.steps =
      commit_path-Steps p derand draw word_rounds l (parent l) d.ps (set_node l d.nd a) b.n_leaves l
        4 d.run up (omega arith) (omega (arith, g.sender.1, same_n)) l_small
        (omega (arith, g.sender.1, g.few)) in
    let made : Commit = record { sender_leaf = l; leaf_pub = d.nd.pub_key; step = d.steps } in
    let b₁ = set_node l (with_pub d.nd.pub_key (b.node l)) b in
    let (tb, installed, i) = install-Installed p derand d.steps l b₁ st.on_path in
    let first =
      set_node-Untouched l l (with_pub d.nd.pub_key (b.node l)) b b.node self (λ x off. refl) in
    let off : Above l b.my_leaf → ⊥ = λ h. g.other (
      leaf_self a.n_leaves l b.my_leaf g.sender.0 g.member.1 (omega (arith, g.few, g.member.1))
        h) in
    let f =
      find-Found p derand draw aead sizes a.n_leaves l b.my_leaf a b g tb i.same_leaf
        (λ x o. i.off_path x o ∙ first x o) word_rounds l d.ps (set_node l d.nd a) d.run
        (omega arith) l_two self off (set_node-Untouched l l d.nd a a.node self (λ x o. refl)) refl
        (sizes d.leaf_secret [] label_path 32 d.ps d.derived) in
    (
      f.left,
      ap (λ x. treekem_process p derand x b) d.is_commit
          ∙ process-run p derand made b (
              accepted b made st.some_step (omega (arith, st.few))
                (omega (arith, same_n, g.sender.0)) (omega (arith, same_n, g.sender.1)) g.other)
          ∙ ap (recover p derand made) installed
          ∙ recovered p derand made tb f.found
          ∙ f.climbed,
      f.has,
      f.agreed,
    )
