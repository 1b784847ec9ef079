-- ===== src/Merkle/Tests.antt =====
-- Runs of merkle.c's functions on small trees, with a stand-in for SHA-256.
use qsafe.Base.{
  ℕ, suc, ◌+◌, ◌^◌, ◌≤◌, ◌<◌, ◌≡◌, ◌⊎◌, refl, none, some, List, [], ◌∷◌, ◌++◌, length, get_elem?,
  take, replicate, length-append, length-take, length-replicate, Bytes, bytes_eq, true, false,
  arith,
}
use qsafe.Merkle.{
  split, split_loop, mth, path, rebuild, merkle_root, merkle_inclusion_proof,
  merkle_verify_inclusion, hash_children, accepts, join_left, join_right,
}
use qsafe.Merkle.Split.{split_power, split_diverges}
use qsafe.Merkle.Inclusion.{verify-proof}
use qsafe.Merkle.Consistency.{merkle_consistency_proof, merkle_verify_consistency}
use qsafe.Merkle.Extension.{verify-consistency_proof}
use qsafe.Merkle.Soundness.{IsHash, SecondPreimage, verify_sound}

-- A stand-in with outputs of 32 bytes.
abbrev toy : Bytes → Bytes
toy x = take 32 (x ++ replicate 32 0)

toy-IsHash : (x : Bytes) → IsHash (toy x)
toy-IsHash x =
    length-take 32 (x ++ replicate 32 0)
      (omega (arith, length-append x (replicate 32 0), length-replicate {A = ℕ} 32 0))

abbrev leaf_of : ℕ → Bytes
leaf_of b = b ∷ replicate 31 0

abbrev three : List Bytes
three = leaf_of 1 ∷ leaf_of 2 ∷ leaf_of 3 ∷ []

split_power_example : (i : ℕ) × (split 6 ≡ some (2 ^ i)) × (2 ^ i < 6) × (6 ≤ 2 ^ suc i)
split_power_example = split_power 6 (omega arith) (omega arith)

split_diverges_example : split_loop 100 (2 ^ 63 + 1) 1 ≡ none
split_diverges_example = split_diverges 100 (2 ^ 63 + 1) (omega arith)

verify-proof_example :
    (root : Bytes) × (proof : List Bytes) × (merkle_root toy three 3 ≡ some root)
    × (merkle_inclusion_proof toy three 3 2 ≡ some (some proof))
    × (length proof ≤ 64)
    × (merkle_verify_inclusion toy 2 3 (leaf_of 3) proof root ≡ some true)
verify-proof_example =
    verify-proof toy three 3 2 (leaf_of 3) (omega arith) (omega arith) (omega arith) refl

abbrev node_1_2 : Bytes
node_1_2 = toy (0x01 ∷ (leaf_of 1 ++ leaf_of 2))

abbrev root_of_three : Bytes
root_of_three = toy (0x01 ∷ (node_1_2 ++ leaf_of 3))

root_three : merkle_root toy three 3 ≡ some root_of_three
unfolding merkle_root mth split split_loop hash_children
root_three = refl

proof_two : merkle_inclusion_proof toy three 3 2 ≡ some (some (node_1_2 ∷ []))
unfolding merkle_inclusion_proof path mth split split_loop hash_children
proof_two = refl

accepted_two : merkle_verify_inclusion toy 2 3 (leaf_of 3) (node_1_2 ∷ []) root_of_three ≡ some true
unfolding merkle_verify_inclusion rebuild split split_loop hash_children accepts join_left
    join_right bytes_eq
accepted_two = refl

-- Trailing junk in the proof is refused.
junk_refused :
    merkle_verify_inclusion toy 2 3 (leaf_of 3) (node_1_2 ∷ node_1_2 ∷ []) root_of_three
    ≡ some false
unfolding merkle_verify_inclusion rebuild split split_loop hash_children accepts join_left
    join_right bytes_eq
junk_refused = refl

verify_sound_example :
    (2 < 3)
    × ((get_elem? three 2 ≡ some (leaf_of 3))
        ⊎ SecondPreimage toy three 3 2 (leaf_of 3) (node_1_2 ∷ []))
verify_sound_example =
    verify_sound toy three 3 2 (leaf_of 3) (node_1_2 ∷ []) root_of_three toy-IsHash (omega arith)
      (omega arith) (omega arith) refl root_three accepted_two

verify-consistency_proof_example :
    (first : Bytes) × (second : Bytes) × (proof : List Bytes) × (merkle_root toy three 2
      ≡ some first)
    × (merkle_root toy three 3 ≡ some second)
    × (merkle_consistency_proof toy three 3 2 ≡ some (some proof))
    × (length proof ≤ 64)
    × (merkle_verify_consistency toy 2 3 first second proof ≡ true)
verify-consistency_proof_example =
    verify-consistency_proof toy three 3 2 (omega arith) (omega arith) (omega arith) (omega arith)
