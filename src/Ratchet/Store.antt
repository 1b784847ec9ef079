-- ===== src/Ratchet/Store.antt =====
-- The skipped-key store of ratchet.c as a map from message numbers to message keys, for one
-- ratchet key: what storing and removing do to it.
use qsafe.Base.{
  ℕ, suc, ◌≡◌, refl, Bool, true, ◌&&◌, Option, none, some, List, [], ◌∷◌, ◌++◌, ◌==◌, if◌then◌else◌,
  Bytes, bytes_eq, Bool-cases, Option-cases, inl, inr, arith,
}
use qsafe.Ratchet.State.{SkippedKey}
use qsafe.Ratchet.Skip.{shift_place, find_entry, remove_at}

-- The key that is stored for a message, if one is.
abbrev pub entry_key : Option (ℕ × SkippedKey) → Option Bytes
entry_key none = none
entry_key (some (i, e)) = some e.mk

unfoldable pub stored_key : Bytes → ℕ → List SkippedKey → Option Bytes
unfolding find_entry
stored_key dh n l = entry_key (find_entry dh n l)

pub entry_key-shift_place : (r : Option (ℕ × SkippedKey)) → entry_key (shift_place r) ≡ entry_key r
entry_key-shift_place none = refl
entry_key-shift_place (some (i, e)) = refl

abbrev pub matches : Bytes → ℕ → SkippedKey → Bool
matches dh n e = e.n == n && bytes_eq e.dh_pub dh

pub stored_key-cons :
    (dh : Bytes) (n : ℕ) (e : SkippedKey) (l : List SkippedKey)
    → stored_key dh n (e ∷ l) ≡ (if matches dh n e then some e.mk else stored_key dh n l)
unfolding stored_key
stored_key-cons dh n e l = elim (Bool-cases (matches dh n e)) [
  | inl same ↦ rw (same, find_entry) refl
  | inr other ↦ rw (other, find_entry) (entry_key-shift_place (find_entry dh n l))
]

pub stored_key-nil : (dh : Bytes) (n : ℕ) → stored_key dh n [] ≡ none
unfolding stored_key
stored_key-nil dh n = refl

abbrev pub or_else : Option Bytes → Option Bytes → Option Bytes
or_else none y = y
or_else (some x) y = some x

-- A new entry at the end is seen unless an older one has its number.
pub stored_key-append :
    (dh : Bytes) (n : ℕ) (l : List SkippedKey) (e : SkippedKey)
    → stored_key dh n (l ++ (e ∷ []))
      ≡ or_else (stored_key dh n l) (if matches dh n e then some e.mk else none)
stored_key-append dh n [] e = ground (arith, stored_key-cons dh n e [], stored_key-nil dh n)
stored_key-append dh n (x ∷ l) e = ground (
  arith,
  stored_key-cons dh n x (l ++ (e ∷ [])),
  stored_key-cons dh n x l,
  stored_key-append dh n l e,
)

-- No two entries of the ratchet key have one number.
abbrev pub Distinct : Bytes → List SkippedKey → Type 0
Distinct dh [] = Unit
Distinct dh (e ∷ l) = (bytes_eq e.dh_pub dh ≡ true → stored_key dh e.n l ≡ none) × Distinct dh l

pub append-Distinct :
    (dh : Bytes) (l : List SkippedKey) (e : SkippedKey)
    → Distinct dh l
    → stored_key dh e.n l ≡ none
    → Distinct dh (l ++ (e ∷ []))
append-Distinct dh [] e d free = (λ _. stored_key-nil dh e.n, tt)
append-Distinct dh (x ∷ l) e (head, rest) free = (
  λ same. ground (arith, head same, stored_key-append dh x.n l e, stored_key-cons dh e.n x l),
  append-Distinct dh l e rest (ground (arith, stored_key-cons dh e.n x l)),
)

pub find_entry-n :
    (dh : Bytes) (n : ℕ) (l : List SkippedKey) {i : ℕ} {e : SkippedKey}
    → find_entry dh n l ≡ some (i, e)
    → (e.n ≡ n) × (stored_key dh n l ≡ some e.mk)
unfolding find_entry stored_key
find_entry-n dh n [] h = cc
find_entry-n dh n (x ∷ l) {i} {e} h = elim (Bool-cases (matches dh n x)) [
  | inl same ↦ ground arith
  | inr other ↦ elim (Option-cases (find_entry dh n l)) [
    | inl missing ↦ absurd (ground arith)
    | inr ((j, y), found) ↦ ground (arith, find_entry-n dh n l found)
  ]
]

pub stored_key-find :
    (dh : Bytes) (n : ℕ) (l : List SkippedKey) {k : Bytes}
    → stored_key dh n l ≡ some k
    → (i : ℕ) × (e : SkippedKey) × (find_entry dh n l ≡ some (i, e)) × (e.mk ≡ k)
unfolding stored_key
stored_key-find dh n l h = elim (Option-cases (find_entry dh n l)) [
  | inl missing ↦ absurd (ground arith)
  | inr ((i, e), found) ↦ (i, e, found, ground arith)
]

pub stored_key-none :
    (dh : Bytes) (n : ℕ) (l : List SkippedKey) → stored_key dh n l ≡ none → find_entry dh n l ≡ none
unfolding stored_key
stored_key-none dh n l h = elim (Option-cases (find_entry dh n l)) [
  | inl missing ↦ missing
  | inr ((i, e), found) ↦ absurd (ground arith)
]

-- Removing the entry that was found takes out its number and no other, and leaves no duplicate.
pub remove_found :
    (dh : Bytes) (n : ℕ) (l : List SkippedKey) {i : ℕ} {e : SkippedKey}
    → Distinct dh l
    → find_entry dh n l ≡ some (i, e)
    → ((m : ℕ) → stored_key dh m (remove_at l i) ≡ (if m == n then none else stored_key dh m l))
      × Distinct dh (remove_at l i)
unfolding find_entry remove_at
remove_found dh n [] d h = cc
remove_found dh n (x ∷ l) {i} {e} (head, rest) h = elim (Bool-cases (matches dh n x)) [
  | inl same ↦
      let e' : i ≡ 0 = ground arith in
      rw e' (λ m. ground (arith, head, stored_key-cons dh m x l), rest)
  | inr other ↦ elim (Option-cases (find_entry dh n l)) [
    | inl missing ↦ absurd (ground arith)
    | inr ((j, y), found) ↦
        let e' : i ≡ suc j = ground arith in
        let (seen, distinct) = remove_found dh n l rest found in
        rw e' (
          λ m.
              ground
                (arith, seen m, stored_key-cons dh m x l, stored_key-cons dh m x (remove_at l j)),
          (λ same. ground (arith, head same, seen x.n), distinct),
        )
  ]
]
