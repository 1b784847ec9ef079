-- ===== src/TreeKem/Tests.antt =====
-- Runs of treekem.c's functions on small trees.
use qsafe.Base.{
  ℕ, ◌+◌, ◌≡◌, ◌⊎◌, inl, inr, refl, ◌∙◌, sym, ap, true, false, Option, some, some_inj, [], ◌∷◌,
  ◌++◌, if◌then◌else◌, ◌==◌, length, get_or, take, replicate, length-replicate, Bytes, put_u32,
  arith,
}
use qsafe.Crypto.{Result, ok, err}
use qsafe.Crypto.Toy.{length-fill, toy, toy-IsAead}
use qsafe.TreeKem.Tree.{
  Tree, blank_node, with_pub, is_ancestor, node_from_ps, tree_kdf, seal_ps, resolution, set_node,
}
use qsafe.TreeKem.Update.{Commit, leaf_node, treekem_commit, treekem_process, commit_path, seal_all}
use qsafe.TreeKem.Members.{treekem_blank_leaf, treekem_add_leaf}
use qsafe.TreeKem.Wire.{treekem_commit_serialize, treekem_commit_deserialize, put_steps}
use qsafe.TreeKem.Ancestors.{self-Above}
use qsafe.TreeKem.Sealing.{Matched}
use qsafe.TreeKem.Install.{HkdfSize}
use qsafe.TreeKem.Agreement.{Group}
use qsafe.TreeKem.Process.{process-commit}
use qsafe.TreeKem.RoundTrip.{CommitFits, commit_deserialize-serialize}
use qsafe.TreeKem.Paths.{blank_leaf-is_ancestor, add_leaf-is_ancestor}

abbrev key_of : ℕ → Bytes
key_of i = replicate 1568 i

abbrev update : Commit
update = record {
  sender_leaf = 2;
  leaf_pub = key_of 1;
  step =
      record {
        node = 1;
        pub_key = key_of 2;
        enc = record { recipient = 3; ct = key_of 3; sealed = replicate 48 4 } ∷ [];
      }
      ∷ [];
}

update-CommitFits : CommitFits update
update-CommitFits = (
  omega arith,
  length-replicate {A = ℕ} 1568 1,
  (
    (
      omega arith,
      length-replicate {A = ℕ} 1568 2,
      ((omega arith, length-replicate {A = ℕ} 1568 3, length-replicate {A = ℕ} 48 4), tt),
    ),
    tt,
  ),
)

abbrev update_bytes : Bytes
update_bytes = put_u32 2 ++ (put_u32 1 ++ (key_of 1 ++ put_steps update.step))

update_written : treekem_commit_serialize update ≡ ok update_bytes
unfolding treekem_commit_serialize
update_written = refl

commit_deserialize-serialize_example : treekem_commit_deserialize update_bytes ≡ ok update
commit_deserialize-serialize_example =
    commit_deserialize-serialize update update_bytes update-CommitFits update_written

abbrev four : Tree
four = record {
  n_leaves = 4;
  my_leaf = 4;
  node = leaf_node 4 0 (key_of 4 ∷ key_of 5 ∷ key_of 6 ∷ key_of 7 ∷ []) (replicate 3168 1);
  root_secret = replicate 32 0;
  have_root = false;
}

blank_leaf-is_ancestor_example :
    (treekem_blank_leaf 5 four).node 2 ≡ (if is_ancestor 2 5 then blank_node else four.node 2)
blank_leaf-is_ancestor_example =
    blank_leaf-is_ancestor 5 four 2 (omega arith) (omega arith) refl (omega arith)

add_leaf-is_ancestor_example :
    ((treekem_add_leaf 5 (key_of 9) four).0 ≡ ok tt)
    × ((treekem_add_leaf 5 (key_of 9) four).1.node 7 ≡ (
        if 7 == 5
        then with_pub (key_of 9) (four.node 5)
        else if is_ancestor 7 5
        then blank_node
        else four.node 7))
add_leaf-is_ancestor_example =
    add_leaf-is_ancestor 5 (key_of 9) four 7 (omega arith) (omega arith) refl (omega arith)

toy-HkdfSize : HkdfSize toy
toy-HkdfSize ikm salt info n out e =
    ap (λ (x : Bytes). length x) (sym (some_inj e)) ∙ length-fill (info ++ ikm) n

toy-Matched : (pub_key priv_key : Bytes) → Matched toy pub_key priv_key
toy-Matched pub_key priv_key draw ct ss e =
    let parts : (replicate 1568 draw, replicate 32 draw) ≡ (ct, ss) = some_inj e in
    ap (λ (t : Bytes × Bytes). some (take 32 t.0)) (sym parts)
    ∙ ap (λ (t : Bytes × Bytes). some t.1) parts

abbrev toy_derand : Bytes → Option (Bytes × Bytes)
toy_derand seed = some (replicate 1568 (get_or seed 0 0), replicate 3168 0)

abbrev pair_of : ℕ → Tree
pair_of me = record {
  n_leaves = 2;
  my_leaf = 2 + me;
  node = leaf_node 2 me (key_of 2 ∷ key_of 3 ∷ []) (replicate 3168 me);
  root_secret = replicate 32 0;
  have_root = false;
}

abbrev first : Tree
first = pair_of 0

abbrev second : Tree
second = pair_of 1

leaf_two_or_three : (r : ℕ) → (first.node r).has_pub ≡ true → (r ≡ 2) ⊎ (r ≡ 3)
leaf_two_or_three r h = ground arith

pair-Group : Group toy 2 2 3 first second
pair-Group = record {
  few = omega arith;
  sender = (omega arith, omega arith);
  member = (omega arith, omega arith);
  other = λ h. omega (arith, h);
  is_member = refl;
  listed = refl;
  holds = λ r mine off full. elim (leaf_two_or_three r full) [
    | inl e ↦ absurd (off (ap (λ x. is_ancestor x 2) e ∙ self-Above 2 (omega arith)))
    | inr e ↦ (
      ap (λ x. (second.node x).has_priv) e,
      toy-Matched (first.node r).pub_key (second.node r).priv_key,
    )
  ];
}

-- The commit that a call made.
abbrev commit_of : Result Commit → Commit
commit_of (ok c) = c
commit_of (err e) = update

abbrev first_call : Result Commit × Tree
first_call = treekem_commit toy toy_derand 1 (λ r. r) first

first_commits : first_call ≡ (ok (commit_of first_call.0), first_call.1)
unfolding treekem_commit node_from_ps tree_kdf commit_path seal_all seal_ps resolution set_node
first_commits = refl

process-commit_example :
    (b' : Tree) × (treekem_process toy toy_derand (commit_of first_call.0) second ≡ (ok tt, b'))
    × (b'.have_root ≡ true)
    × (b'.root_secret ≡ first_call.1.root_secret)
process-commit_example =
    process-commit toy toy_derand 1 (λ r. r) first second (commit_of first_call.0) first_call.1
      toy-IsAead toy-HkdfSize (omega arith) refl pair-Group first_commits
