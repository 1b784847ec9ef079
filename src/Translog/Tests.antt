-- ===== src/Translog/Tests.antt =====
-- Runs of translog.c's functions on small logs, with stand-ins for SHA-256 and ML-DSA.
use qsafe.Base.{
  ℕ, ◌≤◌, ◌<◌, ◌≡◌, ◌⊎◌, refl, true, some, List, [], ◌∷◌, ◌++◌, length, get_elem?, replicate,
  length-append, length-take, length-replicate, Bytes, bytes_eq, arith,
}
use qsafe.Crypto.{sig_verify_buf}
use qsafe.Crypto.Toy.{fill, toy_sign, toy_signatures}
use qsafe.Merkle.{
  split, split_loop, mth, rebuild, merkle_root, merkle_hash_leaf, merkle_verify_inclusion,
  hash_children, accepts, join_left, join_right,
}
use qsafe.Merkle.Soundness.{IsHash}
use qsafe.Translog.{
  TreeHead, Translog, consistent, sth_bytes, translog_append, translog_head, translog_root,
  translog_prove_inclusion, translog_verify_inclusion, translog_gossip_check, translog_sth_verify,
  judge,
}
use qsafe.Translog.Log.{Forged, log_of, verify_inclusion-append, verify_inclusion_sound}
use qsafe.Translog.Heads.{HeadFits, sth_bytes_inj, gossip_check_consistent}

-- A stand-in with outputs of 32 bytes.
abbrev toy_hash : Bytes → Bytes
toy_hash x = fill x 32

toy_hash-IsHash : (x : Bytes) → IsHash (toy_hash x)
toy_hash-IsHash x =
    length-take 32 (x ++ replicate 32 0)
      (omega (arith, length-append x (replicate 32 0), length-replicate {A = ℕ} 32 0))

abbrev one : Bytes
one = 1 ∷ []

abbrev two : Bytes
two = 2 ∷ []

abbrev entries : List Bytes
entries = one ∷ two ∷ []

abbrev log_one : Translog
log_one = log_of toy_hash (one ∷ [])

abbrev log_two : Translog
log_two = (translog_append toy_hash two log_one).1

verify_inclusion-append_example :
    (sth : TreeHead) × (proof : List Bytes) × (translog_head toy_hash 9 log_two ≡ some sth)
    × (translog_prove_inclusion toy_hash log_two (translog_append toy_hash two log_one).0
        ≡ some (some proof))
    × (length proof ≤ 64)
    × (translog_verify_inclusion toy_hash sth (translog_append toy_hash two log_one).0 two proof
        ≡ some true)
unfolding translog_append
verify_inclusion-append_example =
    verify_inclusion-append toy_hash two 9 log_one log_two ([], refl) (omega arith)

abbrev root_two : Bytes
root_two = toy_hash (0x01 ∷ (toy_hash (0x00 ∷ one) ++ toy_hash (0x00 ∷ two)))

root_of_two : translog_root toy_hash (log_of toy_hash entries) ≡ some root_two
unfolding translog_root merkle_root mth split split_loop hash_children merkle_hash_leaf
root_of_two = refl

abbrev head_two : TreeHead
head_two = record { size = 2; root = root_two; timestamp = 9 }

shown_two :
    translog_verify_inclusion toy_hash head_two 1 two (toy_hash (0x00 ∷ one) ∷ []) ≡ some true
unfolding translog_verify_inclusion merkle_verify_inclusion rebuild split split_loop hash_children
    accepts join_left join_right bytes_eq merkle_hash_leaf
shown_two = refl

verify_inclusion_sound_example :
    (1 < 2)
    × ((get_elem? entries 1 ≡ some two)
        ⊎ Forged toy_hash entries 1 two (toy_hash (0x00 ∷ one) ∷ []))
verify_inclusion_sound_example =
    verify_inclusion_sound toy_hash entries 9 1 two root_two (toy_hash (0x00 ∷ one) ∷ [])
      toy_hash-IsHash (omega arith) root_of_two shown_two

head_two-HeadFits : HeadFits head_two
head_two-HeadFits = record { size_small = omega arith; root_size = refl; time_small = omega arith }

sth_bytes_inj_example : head_two ≡ head_two
sth_bytes_inj_example = sth_bytes_inj head_two head_two head_two-HeadFits head_two-HeadFits refl

abbrev later_head : TreeHead
later_head = record head_two { timestamp = 10 }

abbrev sig_two : Bytes
sig_two = toy_sign (replicate 2592 1) (86 ∷ 101 ∷ 105 ∷ 108 ∷ [])

judged :
    translog_gossip_check toy_hash toy_signatures
      (replicate 2592 1)
      head_two
      sig_two
      later_head
      sig_two
      []
    ≡ consistent
unfolding translog_gossip_check translog_sth_verify judge sth_bytes sig_verify_buf bytes_eq
judged = refl

gossip_check_consistent_example :
    (toy_signatures.sig_verify (sth_bytes head_two) sig_two (replicate 2592 1) ≡ true)
    × (toy_signatures.sig_verify (sth_bytes later_head) sig_two (replicate 2592 1) ≡ true)
    × (head_two.root ≡ later_head.root)
gossip_check_consistent_example =
    gossip_check_consistent toy_hash toy_signatures (replicate 2592 1) head_two later_head sig_two
      sig_two [] refl judged
