-- ===== src/Merkle/Consistency.antt =====
-- The consistency proof of merkle.c and its iterative verifier.
use qsafe.Base.{
  ℕ, zero, suc, ◌+◌, ◌-◌, ◌/◌, ◌%◌, Bool, true, false, ◌&&◌, ◌||◌, not, Option, none, some, List,
  [], ◌∷◌, ◌++◌, ltb, leb, ◌==◌, if◌then◌else◌, ◌>>=◌, length, Bytes, bytes_eq, bit_and,
}
use qsafe.Merkle.{split, word_bits, max_depth, mth, hash_children}

-- `is_pow2`
unfoldable pub is_pow2 : ℕ → Bool
is_pow2 x = not (x == 0) && bit_and x (x - 1) == 0

abbrev pub is_odd : ℕ → Bool
is_odd x = x % 2 == 1

-- `while (fn & 1) { fn >>= 1; sn >>= 1; }` on fuel.
unfoldable pub shift_odd : ℕ → ℕ → ℕ → ℕ × ℕ
shift_odd zero fn sn = (fn, sn)
shift_odd (suc fuel) fn sn =
    let rest = shift_odd fuel (fn / 2) (sn / 2) in if is_odd fn then rest else (fn, sn)

-- `while (fn != 0 && !(fn & 1)) { fn >>= 1; sn >>= 1; }` on fuel.
unfoldable pub shift_even : ℕ → ℕ → ℕ → ℕ × ℕ
shift_even zero fn sn = (fn, sn)
shift_even (suc fuel) fn sn =
    let rest = shift_even fuel (fn / 2) (sn / 2) in
    if not (fn == 0) && not (is_odd fn) then rest else (fn, sn)

-- The variables of the verifier's loop.
pub record Walk : Type 0 where
  pub fn : ℕ
  pub sn : ℕ
  pub fr : Bytes
  pub sr : Bytes

module _ (sha256 : Bytes → Bytes) where
  -- `subproof`; the first number bounds the depth of the recursion, and `none` is a call that does
  -- not return.
  unfoldable pub subproof : ℕ → List Bytes → ℕ → ℕ → ℕ → Bool → List Bytes → Option (List Bytes)
  subproof zero leaves lo hi m b proof = none
  subproof (suc depth) leaves lo hi m b proof =
      let whole = do h ← mth sha256 (suc depth) leaves lo hi; some (proof ++ (h ∷ []))
      in let halves = do
        k ← split (hi - lo)
        let left = do
          proof' ← subproof depth leaves lo (lo + k) m b proof
          h ← mth sha256 depth leaves (lo + k) hi
          some (proof' ++ (h ∷ []))
        let right = do
          proof' ← subproof depth leaves (lo + k) hi (m - k) false proof
          h ← mth sha256 depth leaves lo (lo + k)
          some (proof' ++ (h ∷ []))
        if leb m k then left else right
        in if m == hi - lo then (if b then some proof else whole) else halves

  -- The inner `none` is the return value -1.
  unfoldable pub merkle_consistency_proof : List Bytes → ℕ → ℕ → Option (Option (List Bytes))
  unfolding subproof
  merkle_consistency_proof leaves n m =
      if m == 0 || ltb n m
      then some none
      else if m == n
      then some (some [])
      else (subproof max_depth leaves 0 n m true [] >>= λ p. some (some p))

  -- One round of the loop; `none` is `return 0`.
  unfoldable pub walk_step : Bytes → Walk → Option Walk
  unfolding shift_even
  walk_step c w =
      let (fn', sn') = shift_even word_bits w.fn w.sn in
      if w.sn == 0
      then none
      else if is_odd w.fn || w.fn == w.sn
      then some (record {
        fn = fn' / 2;
        sn = sn' / 2;
        fr = hash_children sha256 c w.fr;
        sr = hash_children sha256 c w.sr;
      })
      else some (record w { fn = w.fn / 2; sn = w.sn / 2; sr = hash_children sha256 w.sr c })

  unfoldable pub walk : List Bytes → Walk → Option Walk
  walk [] w = some w
  walk (c ∷ proof) w = walk_step c w >>= λ w'. walk proof w'

  -- The final comparisons.
  unfoldable pub walk_ends : Bytes → Bytes → Option Walk → Bool
  walk_ends first_root second_root none = false
  walk_ends first_root second_root (some w) =
      w.sn == 0 && (bytes_eq w.fr first_root && bytes_eq w.sr second_root)

  -- Both hashes begin with the root of the first tree, if that is a full subtree, and with the first
  -- hash of the proof otherwise.
  unfoldable pub walk_from : ℕ → ℕ → Bytes → List Bytes → Option Walk
  unfolding shift_odd is_pow2 walk
  walk_from m n first_root proof =
      let (fn, sn) = shift_odd word_bits (m - 1) (n - 1) in
      if is_pow2 m
      then walk proof (record { fn = fn; sn = sn; fr = first_root; sr = first_root })
      else elim proof [
        | [] ↦ none
        | c ∷ rest ↦ walk rest (record { fn = fn; sn = sn; fr = c; sr = c })
      ]

  unfoldable pub merkle_verify_consistency : ℕ → ℕ → Bytes → Bytes → List Bytes → Bool
  unfolding walk_from walk_ends
  merkle_verify_consistency m n first_root second_root proof =
      if ltb n m
      then false
      else if m == n
      then length proof == 0 && bytes_eq first_root second_root
      else if m == 0
      then length proof == 0
      else walk_ends first_root second_root (walk_from m n first_root proof)
