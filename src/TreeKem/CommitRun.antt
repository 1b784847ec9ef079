-- ===== src/TreeKem/CommitRun.antt =====
-- One successful commit of treekem.c, round by round, and what its steps are.
use qsafe.Base.{
  ℕ, zero, suc, ◌≤◌, ◌≡◌, ◌≢◌, ◌⊎◌, inl, inr, refl, ◌∙◌, sym, ap, true, false, Option, some, List,
  [], ◌∷◌, ◌==◌, Bytes, Bool-cases, Option-cases, arith,
}
use qsafe.Crypto.{Result, ok, err, Primitives}
use qsafe.TreeKem.Tree.{
  Node, Tree, set_node, parent, sibling, tree_kdf, node_from_ps, label_path, label_root,
  treekem_secret,
}
use qsafe.TreeKem.Update.{recipients, Sealed, Step, set_root, prepend, seal_all, commit_path, climb}

module _ (p : Primitives) (derand : Bytes → Option (Bytes × Bytes)) (draw : ℕ → ℕ) where
  -- The end of the loop at the root, or the round above.
  pub record AtRoot (ps : Bytes) (st : Step) (t₁ : Tree) (steps : List Step) (t' : Tree)
      : Type 0 where
    pub secret : Bytes
    pub derived : tree_kdf p ps label_root treekem_secret ≡ some secret
    pub last : steps ≡ st ∷ []
    pub left : t' ≡ set_root secret t₁

  pub record Inside (rounds v : ℕ) (ps : Bytes) (st : Step) (t₁ : Tree) (steps : List Step)
      (t' : Tree) : Type 0 where
    pub nps : Bytes
    pub rest : List Step
    pub derived : tree_kdf p ps label_path treekem_secret ≡ some nps
    pub above : commit_path p derand draw rounds v (parent v) nps t₁ ≡ (ok rest, t')
    pub more : steps ≡ st ∷ rest

  -- One round that succeeded.
  pub record Round (rounds child v : ℕ) (ps : Bytes) (t : Tree) (steps : List Step) (t' : Tree)
      : Type 0 where
    pub nd : Node
    pub enc : List Sealed
    pub made : node_from_ps p derand (t.node v) ps true ≡ some nd
    pub sealed :
        seal_all p derand draw (set_node v nd t) ps (recipients (set_node v nd t) (sibling child))
        ≡ some enc
    pub end :
        ((v ≡ 1)
          × AtRoot ps
              (record { node = v; pub_key = nd.pub_key; enc = enc })
              (set_node v nd t)
              steps
              t')
        ⊎ ((v ≢ 1)
            × Inside rounds v ps
                (record { node = v; pub_key = nd.pub_key; enc = enc })
                (set_node v nd t)
                steps
                t')

  prepend-ok :
      (st : Step) (r : Result (List Step) × Tree) {steps : List Step} {t' : Tree}
      → prepend st r ≡ (ok steps, t')
      → (rest : List Step) × (r ≡ (ok rest, t')) × (steps ≡ st ∷ rest)
  prepend-ok st (ok rest, t) e = (rest, ground arith, ground arith)
  prepend-ok st (err x, t) e = cc

  pub commit_path-Round :
      (rounds child v : ℕ) (ps : Bytes) (t : Tree) {steps : List Step} {t' : Tree}
      → commit_path p derand draw (suc rounds) child v ps t ≡ (ok steps, t')
      → Round rounds child v ps t steps t'
  unfolding commit_path
  commit_path-Round rounds child v ps t {steps} {t'} e =
      elim (Option-cases (node_from_ps p derand (t.node v) ps true)) [
        | inl failed ↦ absurd (ground arith)
        | inr (nd, made) ↦
            let t₁ = set_node v nd t in
            elim (Option-cases (seal_all p derand draw t₁ ps (recipients t₁ (sibling child)))) [
              | inl failed ↦ absurd (ground arith)
              | inr (enc, sealed) ↦ elim (Bool-cases (v == 1)) [
                | inl root ↦ elim (Option-cases (tree_kdf p ps label_root treekem_secret)) [
                  | inl failed ↦ absurd (ground arith)
                  | inr (secret, derived) ↦ record {
                    nd = nd;
                    enc = enc;
                    made = made;
                    sealed = sealed;
                    end = inl (
                      ground arith,
                      record {
                        secret = secret;
                        derived = derived;
                        last = ground arith;
                        left = ground arith;
                      },
                    );
                  }
                ]
                | inr inner ↦ elim (Option-cases (tree_kdf p ps label_path treekem_secret)) [
                  | inl failed ↦ absurd (ground arith)
                  | inr (nps, derived) ↦
                      let st : Step = record { node = v; pub_key = nd.pub_key; enc = enc } in
                      let run : prepend st (commit_path p derand draw rounds v (parent v) nps t₁)
                          ≡ (ok steps, t') =
                        ground arith in
                      let (rest, above, more) = prepend-ok st _ run in
                      record {
                        nd = nd;
                        enc = enc;
                        made = made;
                        sealed = sealed;
                        end = inr (
                          λ h. absurd (ground arith),
                          record {
                            nps = nps;
                            rest = rest;
                            derived = derived;
                            above = above;
                            more = more;
                          },
                        );
                      }
                ]
              ]
            ]
      ]

  -- A new key pair from a path secret does not depend on the node it replaces.
  node_from_ps-any :
      (nd nd' : Node) (ps : Bytes)
      → node_from_ps p derand nd ps true ≡ node_from_ps p derand nd' ps true
  unfolding node_from_ps
  node_from_ps-any nd nd' ps = refl

  -- Who has a path secret of the committer climbs to the committer's root secret.
  pub climb-agrees :
      (rounds rounds' child v : ℕ) (ps : Bytes) (t tb : Tree) {steps : List Step} {t' : Tree}
      → rounds ≤ rounds'
      → commit_path p derand draw rounds child v ps t ≡ (ok steps, t')
      → (tb' : Tree) × (climb p derand rounds' v ps tb ≡ (ok tt, tb'))
        × (tb'.have_root ≡ true)
        × (tb'.root_secret ≡ t'.root_secret)
  unfolding climb commit_path
  climb-agrees zero rounds' child v ps t tb le e = cc
  climb-agrees (suc rounds) zero child v ps t tb le e = absurd (omega arith)
  climb-agrees (suc rounds) (suc rounds') child v ps t tb {steps} {t'} le e =
      let r = commit_path-Round rounds child v ps t e in
      let made = node_from_ps-any (tb.node v) (t.node v) ps ∙ r.made in
      let tb₁ = set_node v r.nd tb in
      elim r.end [
        | inl (root, here) ↦
            let is_root : (v == 1) ≡ true = ground arith in
            (
              set_root here.secret tb₁,
              rw (climb, made, is_root, here.derived) refl,
              refl,
              ap (λ (x : Tree). x.root_secret) (sym here.left),
            )
        | inr (inner, up) ↦
            let not_root : (v == 1) ≡ false = ground arith in
            let (tb', run, has, same) =
              climb-agrees rounds rounds' v (parent v) up.nps (set_node v r.nd t) tb₁ (omega arith)
                up.above in
            (tb', rw (climb, made, not_root, up.derived) run, has, same)
      ]
