-- ===== src/Group/Store.antt =====
-- The skipped-key store of group.c as a map from message numbers to message keys.
use qsafe.Base.{
  ℕ, zero, suc, ◌≤◌, ◌≡◌, refl, Option, none, some, List, [], ◌∷◌, ◌++◌, ◌==◌, if◌then◌else◌,
  length, Bytes, Bool-cases, Option-cases, inl, inr, arith,
}
use qsafe.Group.State.{
  GroupSkipped, next_place, group_skipped_find, group_skipped_remove, group_entry,
}

abbrev pub key_of : Option (ℕ × GroupSkipped) → Option Bytes
key_of none = none
key_of (some (i, e)) = some e.mk

unfoldable pub group_stored : ℕ → List GroupSkipped → Option Bytes
unfolding group_skipped_find
group_stored n l = key_of (group_skipped_find l n)

key_of-next_place : (r : Option (ℕ × GroupSkipped)) → key_of (next_place r) ≡ key_of r
key_of-next_place none = refl
key_of-next_place (some (i, e)) = refl

pub group_stored-nil : (n : ℕ) → group_stored n [] ≡ none
unfolding group_stored
group_stored-nil n = refl

pub group_stored-cons :
    (n : ℕ) (e : GroupSkipped) (l : List GroupSkipped)
    → group_stored n (e ∷ l) ≡ (if e.index == n then some e.mk else group_stored n l)
unfolding group_stored
group_stored-cons n e l = elim (Bool-cases (e.index == n)) [
  | inl same ↦ rw (same, group_skipped_find) refl
  | inr other ↦ rw (other, group_skipped_find) (key_of-next_place (group_skipped_find l n))
]

-- A new entry at the end is seen unless an older one has its number.
pub group_stored-append :
    (n m : ℕ) (k : Bytes) (l : List GroupSkipped)
    → group_stored m l ≡ none
    → group_stored n (l ++ (group_entry m k ∷ [])) ≡ (if n == m then some k else group_stored n l)
group_stored-append n m k [] free =
    ground (arith, group_stored-cons n (group_entry m k) [], group_stored-nil n)
group_stored-append n m k (x ∷ l) free = ground (
  arith,
  group_stored-cons n x (l ++ (group_entry m k ∷ [])),
  group_stored-cons n x l,
  group_stored-cons m x l,
  group_stored-append n m k l,
)

-- No two entries have one number.
abbrev pub Unrepeated : List GroupSkipped → Type 0
Unrepeated [] = Unit
Unrepeated (e ∷ l) = (group_stored e.index l ≡ none) × Unrepeated l

pub append-Unrepeated :
    (m : ℕ) (k : Bytes) (l : List GroupSkipped)
    → Unrepeated l
    → group_stored m l ≡ none
    → Unrepeated (l ++ (group_entry m k ∷ []))
append-Unrepeated m k [] d free = (group_stored-nil m, tt)
append-Unrepeated m k (x ∷ l) (head, rest) free =
    let later : group_stored m l ≡ none = ground (arith, group_stored-cons m x l) in
    (
      ground (arith, group_stored-append x.index m k l later, group_stored-cons m x l),
      append-Unrepeated m k l rest later,
    )

pub group_stored-find :
    (n : ℕ) (l : List GroupSkipped) {k : Bytes}
    → group_stored n l ≡ some k
    → (i : ℕ) × (e : GroupSkipped) × (group_skipped_find l n ≡ some (i, e)) × (e.mk ≡ k)
unfolding group_stored
group_stored-find n l h = elim (Option-cases (group_skipped_find l n)) [
  | inl missing ↦ absurd (ground arith)
  | inr ((i, e), found) ↦ (i, e, found, ground arith)
]

pub group_stored-none :
    (n : ℕ) (l : List GroupSkipped) → group_stored n l ≡ none → group_skipped_find l n ≡ none
unfolding group_stored
group_stored-none n l h = elim (Option-cases (group_skipped_find l n)) [
  | inl missing ↦ missing
  | inr ((i, e), found) ↦ absurd (ground arith)
]

-- Removing the entry that was found takes out its number and no other, and repeats none.
pub group_skipped_remove-found :
    (n : ℕ) (l : List GroupSkipped) {i : ℕ} {e : GroupSkipped}
    → Unrepeated l
    → group_skipped_find l n ≡ some (i, e)
    → ((m : ℕ)
        → group_stored m (group_skipped_remove l i) ≡ (if m == n then none else group_stored m l))
      × Unrepeated (group_skipped_remove l i)
unfolding group_skipped_find group_skipped_remove
group_skipped_remove-found n [] d h = cc
group_skipped_remove-found n (x ∷ l) {i} {e} (head, rest) h = elim (Bool-cases (x.index == n)) [
  | inl same ↦
      let e' : i ≡ 0 = ground arith in
      rw e' (λ m. ground (arith, head, group_stored-cons m x l), rest)
  | inr other ↦ elim (Option-cases (group_skipped_find l n)) [
    | inl missing ↦ absurd (ground arith)
    | inr ((j, y), found) ↦
        let e' : i ≡ suc j = ground arith in
        let (seen, distinct) = group_skipped_remove-found n l rest found in
        rw e' (
          λ m. ground (
            arith,
            seen m,
            group_stored-cons m x l,
            group_stored-cons m x (group_skipped_remove l j),
          ),
          (ground (arith, head, seen x.index), distinct),
        )
  ]
]

pub length-group_skipped_remove :
    (l : List GroupSkipped) (i : ℕ) → length (group_skipped_remove l i) ≤ length l
unfolding group_skipped_remove
length-group_skipped_remove [] i = omega arith
length-group_skipped_remove (e ∷ l) zero = omega arith
length-group_skipped_remove (e ∷ l) (suc i) = omega (arith, length-group_skipped_remove l i)
