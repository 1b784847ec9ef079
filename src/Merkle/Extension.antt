-- ===== src/Merkle/Extension.antt =====
-- Every consistency proof that merkle.c makes is accepted by its verifier.
use native.Mathlib.Nat.{div-eq_of_lt}
use qsafe.Base.{
  ℕ, ◌+◌, ◌-◌, ◌/◌, ◌^◌, ◌≤◌, ◌<◌, ◌≡◌, refl, ◌∙◌, sym, ap, ap₂, Bool, true, false, ◌&&◌, ◌||◌,
  ◌==◌, ltb, if◌then◌else◌, Option, none, some, ◌>>=◌, List, [], ◌∷◌, length, Bytes, bytes_eq,
  bytes_eq_refl, dec_lt, inr, arith,
}
use qsafe.Merkle.{mth, merkle_root, max_depth}
use qsafe.Merkle.Consistency.{
  Walk, is_pow2, shift_odd, subproof, merkle_consistency_proof, walk, walk_ends, walk_from,
  merkle_verify_consistency,
}
use qsafe.Merkle.Powers.{pow-lt_inv}
use qsafe.Merkle.Prefix.{seeded}
use qsafe.Merkle.Growth.{walk_at, start, Grown}
use qsafe.Merkle.Levels.{Level, grow}
use qsafe.Merkle.Tree.{InRange, mth_total, whole-InRange}

-- The branches of the calls, over their tests.
abbrev refused_or_same : {A : Type 0} → Bool → Bool → A → A → A → A
refused_or_same bad same x y z = if bad then x else if same then y else z

abbrev seed_walk : (Bytes → Bytes) → Bool → ℕ × ℕ → Bytes → List Bytes → Option Walk
seed_walk sha256 p z first proof =
    if p
    then walk sha256 proof (walk_at z.0 z.1 first first)
    else elim proof [ [] ↦ none | c ∷ rest ↦ walk sha256 rest (walk_at z.0 z.1 c c) ]

third :
    {A : Type 0} (bad same : Bool) (x y z : A)
    → bad ≡ false
    → same ≡ false
    → refused_or_same bad same x y z ≡ z
third true same x y z h k = absurd (cc h)
third false true x y z h k = absurd (cc k)
third false false x y z h k = refl

second_of :
    {A : Type 0} (bad same : Bool) (x y z : A)
    → bad ≡ false
    → same ≡ true
    → refused_or_same bad same x y z ≡ y
second_of true same x y z h k = absurd (cc h)
second_of false false x y z h k = absurd (cc k)
second_of false true x y z h k = refl

module _ (sha256 : Bytes → Bytes) (m n : ℕ) where
  proof_is :
      (leaves : List Bytes)
      → merkle_consistency_proof sha256 leaves n m
        ≡ refused_or_same
            (m == 0 || ltb n m)
            (m == n)
            (some none)
            (some (some []))
            (subproof sha256 max_depth leaves 0 n m true [] >>= λ p. some (some p))
  unfolding merkle_consistency_proof
  proof_is leaves = refl

  walk_from_is :
      (first : Bytes) (proof : List Bytes)
      → walk_from sha256 m n first proof
        ≡ seed_walk sha256 (is_pow2 m) (shift_odd 64 (m - 1) (n - 1)) first proof
  unfolding walk_from
  walk_from_is first proof = refl

  verify_is :
      (first second : Bytes) (proof : List Bytes)
      → merkle_verify_consistency sha256 m n first second proof
        ≡ refused_or_same (ltb n m) (m == n) false (length proof == 0 && bytes_eq first second) (
            if m == 0
            then length proof == 0
            else walk_ends sha256 first second (walk_from sha256 m n first proof))
  unfolding merkle_verify_consistency
  verify_is first second proof = refl

  -- The verifier begins with the root that it was given, or with the first hash of the proof.
  from_seed :
      (leaves : List Bytes) (first seed : Bytes) (rest : List Bytes) (skips : Bool)
      → skips ≡ is_pow2 m
      → (skips ≡ true → seed ≡ first)
      → walk_from sha256 m n first (seeded skips seed rest)
        ≡ walk sha256 rest (start sha256 leaves n m seed)
  from_seed leaves first seed rest true e at =
      walk_from_is first rest
      ∙ ap (λ p. seed_walk sha256 p (shift_odd 64 (m - 1) (n - 1)) first rest) (sym e)
      ∙ ap (λ t. walk sha256 rest (start sha256 leaves n m t)) (sym (at refl))
  from_seed leaves first seed rest false e at =
      walk_from_is first (seed ∷ rest)
      ∙ ap (λ p. seed_walk sha256 p (shift_odd 64 (m - 1) (n - 1)) first (seed ∷ rest)) (sym e)

  walk_ends-at :
      (fn sn : ℕ) (first second : Bytes)
      → sn ≡ 0
      → walk_ends sha256 first second (some (walk_at fn sn first second)) ≡ true
  unfolding walk_ends
  walk_ends-at fn sn first second e =
      ap (λ t. t == 0 && (bytes_eq first first && bytes_eq second second)) e
      ∙ ap₂ ◌&&◌ (bytes_eq_refl first) (bytes_eq_refl second)

  -- What the verifier does with the proof for a prefix that is smaller than the tree.
  verifies :
      (leaves : List Bytes) (depth : ℕ)
      → 1 ≤ m
      → m < n
      → (g : Grown sha256 leaves n depth 0 n m true) → (n - 1) / 2 ^ g.e ≡ 0
      → merkle_verify_consistency sha256 m n g.old g.new (seeded g.skips g.seed g.rest) ≡ true
  verifies leaves depth low high g top =
      let proof = seeded g.skips g.seed g.rest in
      let ends = walk_ends sha256 g.old g.new (walk_from sha256 m n g.old proof) in
      let m_is : 0 + m ≡ m = omega arith in
      verify_is g.old g.new proof
      ∙ third (ltb n m) (m == n) false (length proof == 0 && bytes_eq g.old g.new)
          (if m == 0 then length proof == 0 else ends) (not_less m n high) (not_same m n high)
      ∙ ap (λ t. if t then length proof == 0 else ends) (not_zero m low)
      ∙ ap (walk_ends sha256 g.old g.new) (
          from_seed leaves g.old g.seed g.rest g.skips g.skips_is g.seed_is
          ∙ ap (λ t. walk sha256 g.rest (start sha256 leaves n t g.seed)) (sym m_is)
          ∙ g.walked)
      ∙ walk_ends-at g.q ((n - 1) / 2 ^ g.e) g.old g.new top
    where
      not_less : (a b : ℕ) → a < b → ltb b a ≡ false
      not_less a b h = ground arith

      not_same : (a b : ℕ) → a < b → (a == b) ≡ false
      not_same a b h = ground arith

      not_zero : (a : ℕ) → 1 ≤ a → (a == 0) ≡ false
      not_zero a h = ground arith

-- Every consistency proof that the log makes is accepted. For 1 <= m <= n <= 2^63 and a log of at
-- least n leaves, the roots of the first m and of the first n leaves and the consistency proof are
-- computed, the proof has at most 64 hashes, and the verifier accepts it for the two roots.
pub verify-consistency_proof :
    (sha256 : Bytes → Bytes) (leaves : List Bytes) (n m : ℕ)
    → n ≤ length leaves
    → n ≤ 2 ^ 63
    → 1 ≤ m
    → m ≤ n
    → (first : Bytes) × (second : Bytes) × (proof : List Bytes) × (merkle_root sha256 leaves m
        ≡ some first)
      × (merkle_root sha256 leaves n ≡ some second)
      × (merkle_consistency_proof sha256 leaves n m ≡ some (some proof))
      × (length proof ≤ 64)
      × (merkle_verify_consistency sha256 m n first second proof ≡ true)
unfolding merkle_root
verify-consistency_proof sha256 leaves n m bound small low high = elim (dec_lt m n) [
  | yes lt ↦
      let r : InRange leaves 0 n 64 = whole-InRange n bound small in
      let v : Level sha256 leaves n 0 n 64 0 = record {
        at = omega arith;
        fits = omega arith;
        whole = inr refl;
        inside = omega arith;
      } in
      let g = grow sha256 leaves n 64 0 n m 64 0 true small r v low (omega arith) in
      let m_is : m ≡ 0 + m = omega arith in
      let e_small : g.e < 64 = pow-lt_inv g.e 64 (omega (arith, g.tight)) in
      let top : (n - 1) / 2 ^ g.e ≡ 0 = div-eq_of_lt (omega (arith, g.fits)) in
      (
        g.old,
        g.new,
        seeded g.skips g.seed g.rest,
        ap (mth sha256 65 leaves 0) m_is ∙ g.is_old,
        g.is_new,
        proof_is sha256 m n leaves
            ∙ third (m == 0 || ltb n m) (m == n) (some none) (some (some []))
                (subproof sha256 max_depth leaves 0 n m true [] >>= λ p. some (some p))
                (in_order m n low high) (apart m n lt)
            ∙ ap (λ o. o >>= λ p. some (some p)) (g.appended []),
        length_seeded g.skips g.seed g.rest (omega (arith, g.short)),
        verifies sha256 m n leaves 65 low lt g top,
      )
  | no ge ↦
      let (root, e) = mth_total sha256 leaves 64 0 n (whole-InRange n bound small) in
      let m_is : n ≡ m = omega arith in
      (
        root,
        root,
        [],
        ap (λ t. mth sha256 65 leaves 0 t) (sym m_is) ∙ e,
        e,
        proof_is sha256 m n leaves
            ∙ second_of (m == 0 || ltb n m) (m == n) (some none) (some (some []))
                (subproof sha256 max_depth leaves 0 n m true [] >>= λ p. some (some p))
                (in_order m n low high) (same m n m_is),
        omega arith,
        verify_is sha256 m n root root []
            ∙ second_of (ltb n m) (m == n) false (bytes_eq root root)
                (if m == 0 then true else walk_ends sha256 root root (walk_from sha256 m n root []))
                (not_less m n high) (same m n m_is)
            ∙ bytes_eq_refl root,
      )
]
  where
    in_order : (a b : ℕ) → 1 ≤ a → a ≤ b → (a == 0 || ltb b a) ≡ false
    in_order a b h k = ground arith

    apart : (a b : ℕ) → a < b → (a == b) ≡ false
    apart a b h = ground arith

    same : (a b : ℕ) → b ≡ a → (a == b) ≡ true
    same a b h = ground arith

    not_less : (a b : ℕ) → a ≤ b → ltb b a ≡ false
    not_less a b h = ground arith

    length_seeded :
        (skips : Bool) (seed : Bytes) (rest : List Bytes)
        → length rest ≤ 63
        → length (seeded skips seed rest) ≤ 64
    length_seeded true seed rest h = omega arith
    length_seeded false seed rest h = omega arith
