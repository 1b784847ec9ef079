-- ===== src/TreeKem/Install.antt =====
-- The path of a commit of treekem.c, and the installing of its keys at a receiver.
use native.Mathlib.Nat.{pow-suc}
use qsafe.Base.{
  ℕ, zero, suc, ◌*◌, ◌-◌, ◌^◌, ◌≤◌, ◌<◌, ◌≡◌, inl, inr, refl, ◌∙◌, sym, ap, subst, true, ◌||◌,
  Option, some, List, [], ◌∷◌, ltb, ◌==◌, if◌then◌else◌, length, All, Bytes, Bool-cases, arith,
}
use qsafe.Crypto.{Result, ok, Primitives}
use qsafe.TreeKem.Tree.{Node, Tree, set_node, with_pub, parent, is_ancestor}
use qsafe.TreeKem.Update.{Step, commit_path, install}
use qsafe.TreeKem.Ancestors.{Above, self-Above, Above-le, Above-trans, is_ancestor-lt}
use qsafe.TreeKem.Sealing.{Matched}
use qsafe.TreeKem.CommitRun.{commit_path-Round}

-- HKDF as documented: the output has the size that was asked for.
abbrev pub HkdfSize : Primitives → Type 0
HkdfSize p =
    (ikm salt info : Bytes) (n : ℕ) (out : Bytes)
    → p.hkdf ikm salt info n ≡ some out
    → length out ≡ n

-- Node x is untouched by a path update of leaf l.
abbrev pub Untouched : ℕ → (ℕ → Node) → (ℕ → Node) → Type 0
Untouched l f g = (x : ℕ) → (Above x l → ⊥) → f x ≡ g x

-- The member at leaf m has the private key of every node above its leaf, off the path of leaf l, that
-- the tree a shows a public key for.
abbrev pub HoldsKeys : Primitives → Tree → ℕ → Tree → Type 0
HoldsKeys p a l b =
    (r : ℕ)
    → Above r b.my_leaf
    → (Above r l → ⊥)
    → (a.node r).has_pub ≡ true
    → ((b.node r).has_priv ≡ true) × Matched p (a.node r).pub_key (b.node r).priv_key

pub parent-Above_leaf : (c l : ℕ) → 2 ≤ c → l < 2 ^ 32 → Above c l → Above (parent c) l
parent-Above_leaf c l two small h =
    let c_le = Above-le c l small h in
    Above-trans (parent c) c l (omega arith) small
      (is_ancestor-lt (parent c) c (omega arith) (omega arith)
        ∙ self-Above (parent c) (omega arith))
      h

pub set_node-Untouched :
    (l v : ℕ) (nd : Node) (t : Tree) (g : ℕ → Node)
    → Above v l
    → Untouched l t.node g
    → Untouched l (set_node v nd t).node g
unfolding set_node
set_node-Untouched l v nd t g above same x off = elim (Bool-cases (x == v)) [
  | inl e ↦ absurd (off (ap (λ y. is_ancestor y l) (eq x v e) ∙ above))
  | inr ne ↦ rw ne (same x off)
]
  where
    eq : (x v : ℕ) → (x == v) ≡ true → x ≡ v
    eq x v e = ground arith

-- A step of the path of leaf l in a tree of n leaves.
abbrev pub OnPath : ℕ → ℕ → Step → Type 0
OnPath n l st = Above st.node l × (1 ≤ st.node) × (st.node < 2 * n)

-- The steps of a commit are on the path of its leaf, and as many as the path is long.
pub record Steps (n l k : ℕ) (steps : List Step) : Type 0 where
  pub on_path : All (OnPath n l) steps
  pub some_step : 1 ≤ length steps
  pub few : length steps ≤ k

module _ (p : Primitives) (derand : Bytes → Option (Bytes × Bytes)) (draw : ℕ → ℕ) where
  pub commit_path-Steps :
      (rounds child v : ℕ) (ps : Bytes) (t : Tree) {steps : List Step} {t' : Tree} (n l k : ℕ)
      → commit_path p derand draw rounds child v ps t ≡ (ok steps, t')
      → Above v l
      → 1 ≤ v
      → v < 2 * n
      → l < 2 ^ 32
      → v < 2 ^ k
      → Steps n l k steps
  unfolding commit_path
  commit_path-Steps zero child v ps t n l k e above at below small bound = cc
  commit_path-Steps (suc rounds) child v ps t n l zero e above at below small bound =
      absurd (omega arith)
  commit_path-Steps (suc rounds) child v ps t {steps} n l (suc k) e above at below small bound =
      let r = commit_path-Round p derand draw rounds child v ps t e in
      elim r.end [
        | inl (root, here) ↦ subst (Steps n l (suc k)) (sym here.last) (record {
          on_path = ((above, at, below), tt);
          some_step = omega arith;
          few = omega arith;
        })
        | inr (inner, up) ↦
            let two : 2 ≤ v = omega (arith, inner) in
            let half : parent v < 2 ^ k = omega (arith, pow-suc 2 k) in
            let rest =
              commit_path-Steps rounds v (parent v) up.nps (set_node v r.nd t) n l k up.above
                (parent-Above_leaf v l two small above) (omega arith) (omega arith) small half in
            subst (Steps n l (suc k)) (sym up.more) (record {
              on_path = ((above, at, below), rest.on_path);
              some_step = omega arith;
              few = omega (arith, rest.few);
            })
      ]

-- Installing the keys of a path leaves everything off the path.
pub record Installed (l : ℕ) (b b' : Tree) : Type 0 where
  pub same_size : b'.n_leaves ≡ b.n_leaves
  pub same_leaf : b'.my_leaf ≡ b.my_leaf
  pub off_path : Untouched l b'.node b.node

pub install-Installed :
    (p : Primitives) (derand : Bytes → Option (Bytes × Bytes)) (steps : List Step) (l : ℕ)
    (b : Tree)
    → All (OnPath b.n_leaves l) steps
    → (b' : Tree) × (install p derand steps b ≡ (ok tt, b')) × Installed l b b'
unfolding install set_node
install-Installed p derand [] l b f =
    (b, refl, record { same_size = refl; same_leaf = refl; off_path = λ x off. refl })
install-Installed p derand (st ∷ steps) l b ((above, at, below), f) =
    let b₁ = set_node st.node (with_pub st.pub_key (b.node st.node)) b in
    let (b', run, i) = install-Installed p derand steps l b₁ f in
    let first =
      set_node-Untouched l st.node (with_pub st.pub_key (b.node st.node)) b b.node above
        (λ x off. refl) in
    (
      b',
      accepted st.node b.n_leaves at below _ _ ∙ run,
      record {
        same_size = i.same_size;
        same_leaf = i.same_leaf;
        off_path = λ x off. i.off_path x off ∙ first x off;
      },
    )
  where
    accepted :
        (v n : ℕ)
        → 1 ≤ v
        → v < 2 * n
        → (x y : Result (Unit {0}) × Tree) → (if ltb v 1 || ltb (2 * n - 1) v then x else y) ≡ y
    accepted v n at below x y = ground arith
