-- ===== src/Merkle.antt =====
-- The RFC 6962 Merkle tree of merkle.c: roots, inclusion and consistency proofs, and the verifiers.
-- SHA-256 is OpenSSL's, so it is a parameter. `none` stands for a call that does not return (the
-- `size_t` loop of `split` does not end above 2^63) or that reads past the leaves.
pub mod Split
pub mod Tree
pub mod Inclusion
pub mod Soundness
pub mod Consistency
pub mod Powers
pub mod Prefix
pub mod Growth
pub mod RightHalf
pub mod Levels
pub mod Extension
mod Tests
use qsafe.Base.{
  ℕ, zero, suc, ◌+◌, ◌-◌, ◌*◌, ◌/◌, ◌%◌, ◌^◌, Bool, true, false, ◌&&◌, ◌||◌, not, Option, none,
  some, List, [], ◌∷◌, ◌++◌, ltb, leb, ◌==◌, if◌then◌else◌, ◌>>=◌, length, get_elem?, drop, Bytes,
  bytes_eq, bit_and,
}

-- `size_t` multiplication by two.
abbrev pub double : ℕ → ℕ
double k = k * 2 % 2 ^ 64

-- The loop of `split`, on fuel.
unfoldable pub split_loop : ℕ → ℕ → ℕ → Option ℕ
split_loop zero n k = none
split_loop (suc fuel) n k =
    let rest = split_loop fuel n (double k) in if ltb (double k) n then rest else some k

-- 64 rounds are all that a doubling `size_t` can take before it is 0.
abbrev pub word_bits : ℕ
word_bits = 64

unfoldable pub split : ℕ → Option ℕ
split n = split_loop word_bits n 1

-- What `rebuild` leaves: its return value 1 with the hash and the new `*pidx`, 0, or no return.
pub data Rebuilt : Type 0 where
  ok : Bytes → ℕ → Rebuilt
  fail : Rebuilt
  stuck : Rebuilt

-- A `size_t` range halves at most 64 times.
abbrev pub max_depth : ℕ
max_depth = 65

-- `pidx != proof_len` rejects trailing junk, and `memcmp` compares the roots.
unfoldable pub accepts : List Bytes → Bytes → Rebuilt → Option Bool
accepts proof root (ok computed pidx) =
    some (if pidx == length proof then bytes_eq computed root else false)
accepts proof root fail = some false
accepts proof root stuck = none

module _ (sha256 : Bytes → Bytes) where
  unfoldable pub hash_children : Bytes → Bytes → Bytes
  hash_children l r = sha256 (0x01 ∷ (l ++ r))

  unfoldable pub merkle_hash_leaf : Bytes → Bytes
  merkle_hash_leaf leaf = sha256 (0x00 ∷ leaf)

  -- The first number bounds the depth of the recursion.
  unfoldable pub mth : ℕ → List Bytes → ℕ → ℕ → Option Bytes
  mth zero leaves lo hi = none
  mth (suc depth) leaves lo hi =
      let halves = do
        k ← split (hi - lo)
        l ← mth depth leaves lo (lo + k)
        r ← mth depth leaves (lo + k) hi
        some (hash_children l r)
      in if hi - lo == 0
        then some (sha256 [])
        else if hi - lo == 1
        then get_elem? leaves lo
        else halves

  unfoldable pub merkle_root : List Bytes → ℕ → Option Bytes
  merkle_root leaves n = mth max_depth leaves 0 n

  -- The last argument is `proof[0 .. *plen)`, and the result what it is after the call.
  pub path : ℕ → List Bytes → ℕ → ℕ → ℕ → List Bytes → Option (List Bytes)
  path zero leaves lo hi m proof = none
  path (suc depth) leaves lo hi m proof =
      let halves = do
        k ← split (hi - lo)
        let left = do
          proof' ← path depth leaves lo (lo + k) m proof
          h ← mth depth leaves (lo + k) hi
          some (proof' ++ (h ∷ []))
        let right = do
          proof' ← path depth leaves (lo + k) hi m proof
          h ← mth depth leaves lo (lo + k)
          some (proof' ++ (h ∷ []))
        if ltb m (lo + k) then left else right
      in if leb (hi - lo) 1 then some proof else halves

  -- The inner `none` is the return value -1.
  pub merkle_inclusion_proof : List Bytes → ℕ → ℕ → Option (Option (List Bytes))
  merkle_inclusion_proof leaves n m =
      if leb n m then some none else (path max_depth leaves 0 n m [] >>= λ p. some (some p))

  -- `proof[(*pidx)++]` beside or below the hash that was rebuilt so far.
  unfoldable pub join_left : List Bytes → Rebuilt → Rebuilt
  join_left proof (ok sub pidx) = elim (get_elem? proof pidx) [
    | none ↦ fail
    | some h ↦ ok (hash_children sub h) (pidx + 1)
  ]
  join_left proof fail = fail
  join_left proof stuck = stuck

  unfoldable pub join_right : List Bytes → Rebuilt → Rebuilt
  join_right proof (ok sub pidx) = elim (get_elem? proof pidx) [
    | none ↦ fail
    | some h ↦ ok (hash_children h sub) (pidx + 1)
  ]
  join_right proof fail = fail
  join_right proof stuck = stuck

  unfoldable pub rebuild : ℕ → ℕ → ℕ → ℕ → Bytes → List Bytes → ℕ → Rebuilt
  unfolding join_left join_right
  rebuild zero lo hi m leaf proof pidx = stuck
  rebuild (suc depth) lo hi m leaf proof pidx =
      let inner : Rebuilt = elim (split (hi - lo)) [
        | none ↦ stuck
        | some k ↦
            let left = join_left proof (rebuild depth lo (lo + k) m leaf proof pidx) in
            let right = join_right proof (rebuild depth (lo + k) hi m leaf proof pidx) in
            if ltb m (lo + k) then left else right
      ] in
      if hi - lo == 1 then ok leaf pidx else inner

  unfoldable pub merkle_verify_inclusion : ℕ → ℕ → Bytes → List Bytes → Bytes → Option Bool
  unfolding accepts
  merkle_verify_inclusion m n leaf_hash proof root =
      if leb n m then some false else accepts proof root (rebuild max_depth 0 n m leaf_hash proof 0)
