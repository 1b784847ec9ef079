-- ===== src/Translog.antt =====
-- The transparency log of translog.c: signed tree heads, the client's checks and the operator's log.
pub mod Log
pub mod Heads
mod Tests
use qsafe.Base.{
  ℕ, ◌+◌, ◌/◌, ◌%◌, ◌^◌, Bool, true, false, Option, none, some, List, [], ◌∷◌, ◌++◌, ltb, leb, ◌||◌,
  ◌==◌, ◌>>=◌, if◌then◌else◌, length, Bytes, put_u64, codes, bytes_eq,
}
use qsafe.Crypto.{Result, ok, err, Signatures, sig_sign_buf, sig_verify_buf}
use qsafe.Merkle.{merkle_hash_leaf, merkle_root, merkle_inclusion_proof, merkle_verify_inclusion}
use qsafe.Merkle.Consistency.{merkle_consistency_proof, merkle_verify_consistency}

-- `translog_sth_t`
pub record TreeHead : Type 0 where
  pub size : ℕ
  pub root : Bytes
  pub timestamp : ℕ

-- `translog_verdict_t`
pub data Verdict : Type 0 where
  consistent fork badsig : Verdict

-- `STH_LABEL`
abbrev pub sth_label : Bytes
sth_label = codes "Veil-STH-v1"

-- `sth_bytes`
unfoldable pub sth_bytes : TreeHead → Bytes
unfolding put_u64
sth_bytes sth = sth_label ++ (put_u64 sth.size ++ (sth.root ++ put_u64 sth.timestamp))

unfoldable pub translog_sth_sign : Signatures → ℕ → Bytes → TreeHead → Result Bytes
unfolding sth_bytes sig_sign_buf
translog_sth_sign q draw sk sth = sig_sign_buf q draw (sth_bytes sth) sk

unfoldable pub translog_sth_verify : Signatures → Bytes → TreeHead → Bytes → Result (Unit {0})
unfolding sth_bytes sig_verify_buf
translog_sth_verify q pk sth sig = sig_verify_buf q (sth_bytes sth) sig pk

abbrev pub is_ok : Result (Unit {0}) → Bool
is_ok (ok u) = true
is_ok (err e) = false

-- `struct translog`. `leaves` is `leaves[0 .. n)`, so `n` is its length; `cap` is only the room that
-- was allocated.
pub record Translog : Type 0 where
  pub leaves : List Bytes

module _ (sha256 : Bytes → Bytes) where
  -- `none` is a call of `merkle_verify_inclusion` that does not return.
  unfoldable pub translog_verify_inclusion : TreeHead → ℕ → Bytes → List Bytes → Option Bool
  translog_verify_inclusion sth index leaf_data proof =
      if leb sth.size index
      then some false
      else merkle_verify_inclusion sha256 index sth.size (merkle_hash_leaf sha256 leaf_data) proof
          sth.root

  unfoldable pub translog_verify_consistency : TreeHead → TreeHead → List Bytes → Bool
  translog_verify_consistency a b proof =
      if ltb b.size a.size
      then false
      else merkle_verify_consistency sha256 a.size b.size a.root b.root proof

  -- The verdict on two heads, the smaller one first.
  unfoldable pub judge : TreeHead → TreeHead → List Bytes → Verdict
  judge lo hi proof =
      if lo.size == hi.size
      then (if bytes_eq lo.root hi.root then consistent else fork)
      else if merkle_verify_consistency sha256 lo.size hi.size lo.root hi.root proof
      then consistent
      else fork

  unfoldable pub translog_gossip_check :
      Signatures → Bytes → TreeHead → Bytes → TreeHead → Bytes → List Bytes → Verdict
  unfolding judge translog_sth_verify
  translog_gossip_check q log_pk a sig_a b sig_b proof =
      if is_ok (translog_sth_verify q log_pk a sig_a)
      then (if is_ok (translog_sth_verify q log_pk b sig_b)
          then (if ltb b.size a.size then judge b a proof else judge a b proof)
          else badsig)
      else badsig

  -- `translog_append`: the index of the new leaf, and the log.
  unfoldable pub translog_append : Bytes → Translog → ℕ × Translog
  translog_append leaf_data log = (
    length log.leaves,
    record { leaves = log.leaves ++ (merkle_hash_leaf sha256 leaf_data ∷ []) },
  )

  unfoldable pub translog_root : Translog → Option Bytes
  translog_root log = merkle_root sha256 log.leaves (length log.leaves)

  unfoldable pub translog_head : ℕ → Translog → Option TreeHead
  unfolding translog_root
  translog_head timestamp log = do
    root ← translog_root log
    some (record { size = length log.leaves; root = root; timestamp = timestamp })

  unfoldable pub translog_prove_inclusion : Translog → ℕ → Option (Option (List Bytes))
  translog_prove_inclusion log index =
      if leb (length log.leaves) index
      then some none
      else merkle_inclusion_proof sha256 log.leaves (length log.leaves) index

  unfoldable pub translog_prove_consistency : Translog → ℕ → Option (Option (List Bytes))
  translog_prove_consistency log old_size =
      if old_size == 0 || ltb (length log.leaves) old_size
      then some none
      else merkle_consistency_proof sha256 log.leaves (length log.leaves) old_size

abbrev pub translog_new : Translog
translog_new = record { leaves = [] }

abbrev pub translog_size : Translog → ℕ
translog_size log = length log.leaves
