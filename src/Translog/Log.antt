-- ===== src/Translog/Log.antt =====
-- The operator's log of translog.c and the client's inclusion check: every entry can be shown at
-- every later head, and what is shown is an entry.
use qsafe.Base.{
  ℕ, zero, suc, ◌^◌, ◌≤◌, ◌<◌, ◌≡◌, ◌≢◌, ◌⊎◌, inl, inr, refl, ◌∙◌, ap, subst, true, some, some_inj,
  List, [], ◌∷◌, ◌++◌, map, append_assoc, leb, ◌>>=◌, length, length-append, get_elem?,
  get_elem?-append_length, All, Bytes, bytes_eq, bytes_eq_refl, bytes_eq→eq, Bool-cases, arith,
}
use qsafe.Merkle.{merkle_hash_leaf, merkle_root, merkle_inclusion_proof, merkle_verify_inclusion}
use qsafe.Merkle.Inclusion.{verify-proof}
use qsafe.Merkle.Soundness.{IsHash, SecondPreimage, verify_sound}
use qsafe.Translog.{
  TreeHead, Translog, translog_append, translog_head, translog_root, translog_prove_inclusion,
  translog_verify_inclusion,
}

-- A later log: the leaves of the earlier one, and more.
abbrev pub Extends : Translog → Translog → Type 0
Extends earlier later = (more : List Bytes) × (later.leaves ≡ earlier.leaves ++ more)

-- A log of these entries.
abbrev pub log_of : (Bytes → Bytes) → List Bytes → Translog
log_of sha256 entries = record { leaves = map (merkle_hash_leaf sha256) entries }

-- A second preimage of the log's own leaf hash at an index: the entry that is shown in place of the
-- log's.
pub record LeafPreimage (sha256 : Bytes → Bytes) (entries : List Bytes) (index : ℕ)
    (leaf_data : Bytes) : Type 0 where
  pub entry : Bytes
  pub logged : get_elem? entries index ≡ some entry
  pub differs : entry ≢ leaf_data
  pub same_hash : merkle_hash_leaf sha256 entry ≡ merkle_hash_leaf sha256 leaf_data

-- How a check can be passed without the entry: with a second preimage of its leaf hash, or with one
-- that the proof gives of a node on the way from the head's root to the index.
abbrev pub Forged : (Bytes → Bytes) → List Bytes → ℕ → Bytes → List Bytes → Type 0
Forged sha256 entries index leaf_data proof =
    LeafPreimage sha256 entries index leaf_data
    ⊎ SecondPreimage sha256 (log_of sha256 entries).leaves (length entries) index
        (merkle_hash_leaf sha256 leaf_data) proof

-- The leaf that was appended is in every later log, under the index that was returned.
appended_leaf :
    (sha256 : Bytes → Bytes) (leaf_data : Bytes) (log later : Translog)
    → Extends (translog_append sha256 leaf_data log).1 later
    → (get_elem? later.leaves (translog_append sha256 leaf_data log).0
        ≡ some (merkle_hash_leaf sha256 leaf_data))
      × ((translog_append sha256 leaf_data log).0 < length later.leaves)
unfolding translog_append
appended_leaf sha256 leaf_data log later (more, e) =
    let h = merkle_hash_leaf sha256 leaf_data in
    let whole : later.leaves ≡ log.leaves ++ (h ∷ more) =
      e ∙ append_assoc log.leaves (h ∷ []) more in
    (
      ap (λ l. get_elem? l (length log.leaves)) whole ∙ get_elem?-append_length log.leaves h more,
      omega (arith, ap (λ (l : List Bytes). length l) whole, length-append log.leaves (h ∷ more)),
    )

head_is :
    (sha256 : Bytes → Bytes) (timestamp : ℕ) (log : Translog) {root : Bytes}
    → merkle_root sha256 log.leaves (length log.leaves) ≡ some root
    → translog_head sha256 timestamp log
      ≡ some (record { size = length log.leaves; root = root; timestamp = timestamp })
unfolding translog_head translog_root
head_is sha256 timestamp log e =
    ap
      (λ o. o >>= λ root.
        some (record { size = length log.leaves; root = root; timestamp = timestamp }))
      e

prove_is :
    (sha256 : Bytes → Bytes) (log : Translog) (index : ℕ)
    → index < length log.leaves
    → translog_prove_inclusion sha256 log index
      ≡ merkle_inclusion_proof sha256 log.leaves (length log.leaves) index
unfolding translog_prove_inclusion
prove_is sha256 log index lt = ground arith

verify_is :
    (sha256 : Bytes → Bytes) (sth : TreeHead) (index : ℕ) (leaf_data : Bytes) (proof : List Bytes)
    → index < sth.size
    → translog_verify_inclusion sha256 sth index leaf_data proof
      ≡ merkle_verify_inclusion sha256 index sth.size
          (merkle_hash_leaf sha256 leaf_data)
          proof
          sth.root
unfolding translog_verify_inclusion
verify_is sha256 sth index leaf_data proof lt = ground arith

-- Every entry can be shown at every later head. Append an entry to a log, and let a later log have
-- its leaves and any more, at most 2^63 in all. The later log has a head for any timestamp, makes an
-- inclusion proof of at most 64 hashes for the index that the append returned, and the client's check
-- accepts the entry at that index against that head.
pub verify_inclusion-append :
    (sha256 : Bytes → Bytes) (leaf_data : Bytes) (timestamp : ℕ) (log later : Translog)
    → Extends (translog_append sha256 leaf_data log).1 later
    → length later.leaves ≤ 2 ^ 63
    → (sth : TreeHead) × (proof : List Bytes) × (translog_head sha256 timestamp later ≡ some sth)
      × (translog_prove_inclusion sha256 later (translog_append sha256 leaf_data log).0
          ≡ some (some proof))
      × (length proof ≤ 64)
      × (translog_verify_inclusion sha256 sth
            (translog_append sha256 leaf_data log).0
            leaf_data
            proof
          ≡ some true)
verify_inclusion-append sha256 leaf_data timestamp log later extends small =
    let index = (translog_append sha256 leaf_data log).0 in
    let (here, lt) = appended_leaf sha256 leaf_data log later extends in
    let (root, proof, is_root, is_proof, short, accepted) =
      verify-proof sha256 later.leaves (length later.leaves) index
        (merkle_hash_leaf sha256 leaf_data) (omega arith) small lt here in
    let sth : TreeHead = record {
      size = length later.leaves;
      root = root;
      timestamp = timestamp;
    } in
    (
      sth,
      proof,
      head_is sha256 timestamp later is_root,
      prove_is sha256 later index lt ∙ is_proof,
      short,
      verify_is sha256 sth index leaf_data proof lt ∙ accepted,
    )

length-map_leaf :
    (sha256 : Bytes → Bytes) (entries : List Bytes)
    → length (map (merkle_hash_leaf sha256) entries) ≡ length entries
length-map_leaf sha256 [] = refl
length-map_leaf sha256 (d ∷ entries) = ap suc (length-map_leaf sha256 entries)

get_elem?-map_leaf :
    (sha256 : Bytes → Bytes) (entries : List Bytes) (i : ℕ) {h : Bytes}
    → get_elem? (map (merkle_hash_leaf sha256) entries) i ≡ some h
    → (d : Bytes) × (get_elem? entries i ≡ some d) × (merkle_hash_leaf sha256 d ≡ h)
get_elem?-map_leaf sha256 [] i e = cc
get_elem?-map_leaf sha256 (d ∷ entries) zero e = (d, refl, some_inj e)
get_elem?-map_leaf sha256 (d ∷ entries) (suc i) e = get_elem?-map_leaf sha256 entries i e

leaves-IsHash :
    (sha256 : Bytes → Bytes) (entries : List Bytes)
    → ((x : Bytes) → IsHash (sha256 x))
    → All IsHash (map (merkle_hash_leaf sha256) entries)
unfolding merkle_hash_leaf
leaves-IsHash sha256 [] size = tt
leaves-IsHash sha256 (d ∷ entries) size = (size (0x00 ∷ d), leaves-IsHash sha256 entries size)

-- The log's entry is the one that is shown, or its leaf hash has a second preimage.
same_entry :
    (sha256 : Bytes → Bytes) (entries : List Bytes) (index : ℕ) (d leaf_data : Bytes)
    → get_elem? entries index ≡ some d
    → merkle_hash_leaf sha256 d ≡ merkle_hash_leaf sha256 leaf_data
    → (get_elem? entries index ≡ some leaf_data) ⊎ LeafPreimage sha256 entries index leaf_data
same_entry sha256 entries index d leaf_data here e = elim (Bool-cases (bytes_eq d leaf_data)) [
  | inl same ↦ inl (here ∙ ap some (bytes_eq→eq d leaf_data same))
  | inr other ↦ inr (record {
    entry = d;
    logged = here;
    differs = λ h. absurd (cc (other, ap (bytes_eq d) h, bytes_eq_refl d));
    same_hash = e;
  })
]

leaf-IsHash :
    (sha256 : Bytes → Bytes) (d : Bytes)
    → ((x : Bytes) → IsHash (sha256 x))
    → IsHash (merkle_hash_leaf sha256 d)
unfolding merkle_hash_leaf
leaf-IsHash sha256 d size = size (0x00 ∷ d)

root_is :
    (sha256 : Bytes → Bytes) (log : Translog) {root : Bytes}
    → translog_root sha256 log ≡ some root
    → merkle_root sha256 log.leaves (length log.leaves) ≡ some root
unfolding translog_root
root_is sha256 log e = e

accepted_within :
    (sha256 : Bytes → Bytes) (sth : TreeHead) (index : ℕ) (leaf_data : Bytes) (proof : List Bytes)
    → translog_verify_inclusion sha256 sth index leaf_data proof ≡ some true
    → (index < sth.size)
      × (merkle_verify_inclusion sha256 index sth.size
            (merkle_hash_leaf sha256 leaf_data)
            proof
            sth.root
          ≡ some true)
unfolding translog_verify_inclusion
accepted_within sha256 sth index leaf_data proof e = elim (Bool-cases (leb sth.size index)) [
  | inl past ↦ absurd (ground arith)
  | inr within ↦ (ground arith, ground arith)
]

-- What is shown is an entry. Let SHA-256 give 32 bytes, and take the log of at most 2^63 entries and
-- its head. When the client's check accepts an entry at an index, the index is within the log and
-- the log's entry there is that one; or the log's entry there is another with the same leaf hash, or
-- the proof gives a second preimage at an inner node of the log's own tree, on the way from its root
-- to the index.
pub verify_inclusion_sound :
    (sha256 : Bytes → Bytes) (entries : List Bytes) (timestamp index : ℕ) (leaf_data root : Bytes)
    (proof : List Bytes)
    → ((x : Bytes) → IsHash (sha256 x))
    → length entries ≤ 2 ^ 63
    → translog_root sha256 (log_of sha256 entries) ≡ some root
    → translog_verify_inclusion sha256
        (record { size = length entries; root = root; timestamp = timestamp })
        index
        leaf_data
        proof
      ≡ some true
    → (index < length entries)
      × ((get_elem? entries index ≡ some leaf_data) ⊎ Forged sha256 entries index leaf_data proof)
verify_inclusion_sound sha256 entries timestamp index leaf_data root proof size small is_root
      accepted =
    let leaves = map (merkle_hash_leaf sha256) entries in
    let n_is = length-map_leaf sha256 entries in
    let (lt, run) = accepted_within sha256 _ index leaf_data proof accepted in
    let is_root' : merkle_root sha256 leaves (length entries) ≡ some root =
      subst (λ n. merkle_root sha256 leaves n ≡ some root) n_is (root_is sha256 _ is_root) in
    let (_, shown) =
      verify_sound sha256 leaves (length entries) index (merkle_hash_leaf sha256 leaf_data) proof
        root size (omega (arith, n_is)) small (leaves-IsHash sha256 entries size)
        (leaf-IsHash sha256 leaf_data size) is_root' run in
    (
      lt,
      elim shown [
        | inl found ↦
            let (d, here, same) = get_elem?-map_leaf sha256 entries index found in
            elim (same_entry sha256 entries index d leaf_data here same) [
              | inl e ↦ inl e
              | inr other ↦ inr (inl other)
            ]
        | inr other ↦ inr (inr other)
      ],
    )
