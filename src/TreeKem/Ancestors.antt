-- ===== src/TreeKem/Ancestors.antt =====
-- `is_ancestor` of treekem.c as a relation on the nodes of the tree.
use qsafe.Base.{
  ℕ, zero, suc, ◌+◌, ◌*◌, ◌^◌, ◌≤◌, ◌<◌, ◌≡◌, ◌⊎◌, inl, inr, ◌∙◌, sym, ap, true, ltb, ◌==◌,
  if◌then◌else◌, arith, dec_lt,
}
use qsafe.TreeKem.Tree.{parent, sibling, ancestor_loop, is_ancestor, word_rounds}
use qsafe.TreeKem.Paths.{is_ancestor-parent, is_ancestor-loop}

-- A node is an ancestor-or-self of another.
abbrev pub Above : ℕ → ℕ → Type 0
Above a v = is_ancestor a v ≡ true

-- Below a smaller node, the question is that of the parent.
pub is_ancestor-lt : (a v : ℕ) → a < v → v < 2 ^ 32 → is_ancestor a v ≡ is_ancestor a (parent v)
is_ancestor-lt a v lt small =
    is_ancestor-parent a v small
    ∙ smaller a v (ancestor_loop word_rounds a (parent v)) lt
    ∙ sym (is_ancestor-loop a (parent v))
  where
    smaller : (a v x : ℕ) → a < v → ((if ltb a v then x else v) == a) ≡ (x == a)
    smaller a v x lt = ground arith

pub is_ancestor-ge : (a v : ℕ) → v ≤ a → v < 2 ^ 32 → is_ancestor a v ≡ (v == a)
is_ancestor-ge a v le small =
    is_ancestor-parent a v small ∙ larger a v (ancestor_loop word_rounds a (parent v)) le
  where
    larger : (a v x : ℕ) → v ≤ a → ((if ltb a v then x else v) == a) ≡ (v == a)
    larger a v x le = ground arith

pub self-Above : (v : ℕ) → v < 2 ^ 32 → Above v v
self-Above v small = is_ancestor-ge v v (omega arith) small ∙ ground arith

pub Above-le : (a v : ℕ) → v < 2 ^ 32 → Above a v → a ≤ v
Above-le a v small h = elim (dec_lt v a) [
  | yes lt ↦ absurd (ground (arith, is_ancestor-ge a v (omega arith) small))
  | no ge ↦ omega arith
]

root-Above_within : (n v : ℕ) → v ≤ n → 1 ≤ v → v < 2 ^ 32 → Above 1 v
root-Above_within zero v le at small = absurd (omega arith)
root-Above_within (suc n) v le at small = elim (dec_lt 1 v) [
  | yes lt ↦
      is_ancestor-lt 1 v lt small
      ∙ root-Above_within n (parent v) (omega arith) (omega arith) (omega arith)
  | no ge ↦ let e : v ≡ 1 = omega arith in ap (is_ancestor 1) e ∙ self-Above 1 (omega arith)
]

pub root-Above : (v : ℕ) → 1 ≤ v → v < 2 ^ 32 → Above 1 v
root-Above v = root-Above_within v v (omega arith)

parent-Above : (c v : ℕ) → 1 ≤ v → v < 2 ^ 32 → Above c (parent v) → Above c v
parent-Above c v at small k =
    is_ancestor-lt c v (omega (arith, Above-le c (parent v) (omega arith) k)) small ∙ k

child-Above_within :
    (n a v : ℕ) → v ≤ n → a < v → v < 2 ^ 32 → Above a v → Above (2 * a) v ⊎ Above (2 * a + 1) v
child-Above_within zero a v le lt small h = absurd (omega arith)
child-Above_within (suc n) a v le lt small h =
    let up : Above a (parent v) = sym (is_ancestor-lt a v lt small) ∙ h in
    elim (dec_lt a (parent v)) [
      | yes above ↦ elim (child-Above_within n a (parent v) (omega arith) above (omega arith) up) [
        | inl k ↦ inl (parent-Above (2 * a) v (omega arith) small k)
        | inr k ↦ inr (parent-Above (2 * a + 1) v (omega arith) small k)
      ]
      | no at ↦
          let small' : parent v < 2 ^ 32 = omega arith in
          let e : parent v ≡ a = omega (arith, Above-le a (parent v) small' up) in
          elim (dec_lt (2 * a) v) [
            | yes odd ↦
                let w : 2 * a + 1 ≡ v = omega arith in
                inr (ap (λ x. is_ancestor x v) w ∙ self-Above v small)
            | no even ↦
                let w : 2 * a ≡ v = omega arith in
                inl (ap (λ x. is_ancestor x v) w ∙ self-Above v small)
          ]
    ]

-- What is below a node is below one of its children.
pub Above-child : (a v : ℕ) → a < v → v < 2 ^ 32 → Above a v → Above (2 * a) v ⊎ Above (2 * a + 1) v
Above-child a v = child-Above_within v a v (omega arith)

Above-trans_within : (n a b v : ℕ) → v ≤ n → 1 ≤ a → v < 2 ^ 32 → Above a b → Above b v → Above a v
Above-trans_within zero a b v le at small h k =
    absurd
      (omega (arith, Above-le b v small k, Above-le a b (omega (arith, Above-le b v small k)) h))
Above-trans_within (suc n) a b v le at small h k =
    let b_le = Above-le b v small k in
    let a_le = Above-le a b (omega arith) h in
    elim (dec_lt b v) [
      | yes lt ↦
          is_ancestor-lt a v (omega arith) small
          ∙ Above-trans_within n a b (parent v) (omega arith) at (omega arith) h
              (sym (is_ancestor-lt b v lt small) ∙ k)
      | no ge ↦ let e : b ≡ v = omega arith in ap (is_ancestor a) (sym e) ∙ h
    ]

pub Above-trans : (a b v : ℕ) → 1 ≤ a → v < 2 ^ 32 → Above a b → Above b v → Above a v
Above-trans a b v = Above-trans_within v a b v (omega arith)

siblings_apart : (n c v : ℕ) → v ≤ n → 2 ≤ c → v < 2 ^ 32 → Above c v → Above (sibling c) v → ⊥
siblings_apart zero c v le two small h k = absurd (omega (arith, Above-le c v small h))
siblings_apart (suc n) c v le two small h k =
    let c_le = Above-le c v small h in
    let s_le = Above-le (sibling c) v small k in
    elim (dec_lt c v) [
      | yes lt ↦ elim (dec_lt (sibling c) v) [
        | yes lt' ↦
            siblings_apart n c (parent v) (omega arith) two (omega arith)
              (sym (is_ancestor-lt c v lt small) ∙ h)
              (sym (is_ancestor-lt (sibling c) v lt' small) ∙ k)
        | no at ↦
            let up : Above c (parent v) = sym (is_ancestor-lt c v lt small) ∙ h in
            absurd (too_high c v lt s_le at (Above-le c (parent v) (omega arith) up) two)
      ]
      | no at ↦
          let apart : sibling c < v = other c v c_le at two s_le in
          let up : Above (sibling c) (parent v) =
            sym (is_ancestor-lt (sibling c) v apart small) ∙ k in
          absurd (too_low c v c_le at two s_le (Above-le (sibling c) (parent v) (omega arith) up))
    ]
  where
    other : (c v : ℕ) → c ≤ v → (c < v → ⊥) → 2 ≤ c → sibling c ≤ v → sibling c < v
    other c v le at two s = ground arith

    too_high : (c v : ℕ) → c < v → sibling c ≤ v → (sibling c < v → ⊥) → c ≤ parent v → 2 ≤ c → ⊥
    too_high c v lt le at up two = ground arith

    too_low : (c v : ℕ) → c ≤ v → (c < v → ⊥) → 2 ≤ c → sibling c ≤ v → sibling c ≤ parent v → ⊥
    too_low c v le at two s up = ground arith

-- A node and its sibling have nothing below them in common.
pub siblings-Above : (c v : ℕ) → 2 ≤ c → v < 2 ^ 32 → Above c v → Above (sibling c) v → ⊥
siblings-Above c v = siblings_apart v c v (omega arith)
