-- ===== src/TreeKem/Wire.antt =====
-- The wire formats of treekem.c: commits and the public tree.
use qsafe.Base.{
  ℕ, zero, suc, ◌+◌, ◌*◌, ◌-◌, Bool, true, false, ◌||◌, not, Option, none, some, List, [], ◌∷◌,
  ◌++◌, ltb, ◌==◌, if◌then◌else◌, length, take, drop, Bytes, put_u32, get_u32,
}
use qsafe.Crypto.{Error, Result, ok, err}
use qsafe.TreeKem.Tree.{
  treekem_max_leaves, treekem_max_path, treekem_max_res, treekem_mlkem_pk, treekem_mlkem_ct,
  treekem_secret, leaves_pow2,
}
use qsafe.TreeKem.Update.{Sealed, Step, Commit}
use qsafe.TreeKem.Members.{PublicTree}

-- `SEALED`
abbrev pub sealed_size : ℕ
sealed_size = treekem_secret + 16

unfoldable pub put_enc : List Sealed → Bytes
put_enc [] = []
put_enc (e ∷ enc) = put_u32 e.recipient ++ (e.ct ++ (e.sealed ++ put_enc enc))

unfoldable pub put_steps : List Step → Bytes
unfolding put_enc
put_steps [] = []
put_steps (st ∷ steps) =
    put_u32 st.node
    ++ (st.pub_key ++ (put_u32 (length st.enc) ++ (put_enc st.enc ++ put_steps steps)))

-- A step with more recipients than there is room for.
unfoldable pub some_step_full : List Step → Bool
some_step_full [] = false
some_step_full (st ∷ steps) =
    let rest = some_step_full steps in if ltb treekem_max_res (length st.enc) then true else rest

unfoldable pub treekem_commit_serialize : Commit → Result Bytes
unfolding put_steps some_step_full
treekem_commit_serialize c =
    if ltb treekem_max_path (length c.step) || some_step_full c.step
    then err Error.invalid_input
    else ok (put_u32 c.sender_leaf ++ (put_u32 (length c.step) ++ (c.leaf_pub ++ put_steps c.step)))

-- What a loop of the reader read, and the bytes from `q` to `end`.
abbrev pub Reading : Type 0 → Type 0
Reading A = Option (A × Bytes)

abbrev pub cons_enc : Sealed → Reading (List Sealed) → Reading (List Sealed)
cons_enc e none = none
cons_enc e (some (enc, q)) = some (e ∷ enc, q)

abbrev pub cons_step : ℕ → Bytes → List Sealed → Reading (List Step) → Reading (List Step)
cons_step v key enc none = none
cons_step v key enc (some (steps, q)) =
    some (record { node = v; pub_key = key; enc = enc } ∷ steps, q)

-- `count` recipients; `none` is CRYPTO_ERR_INTEGRITY.
unfoldable pub get_enc : ℕ → Bytes → Reading (List Sealed)
get_enc zero q = some ([], q)
get_enc (suc count) q =
    let rest =
      cons_enc
        (record {
          recipient = get_u32 q;
          ct = take treekem_mlkem_ct (drop 4 q);
          sealed = take sealed_size (drop treekem_mlkem_ct (drop 4 q));
        })
        (get_enc count (drop sealed_size (drop treekem_mlkem_ct (drop 4 q)))) in
    if ltb (length q) (4 + treekem_mlkem_ct + sealed_size) then none else rest

-- The recipients of a step, then the steps behind it.
abbrev pub after_enc :
    (Bytes → Reading (List Step)) → ℕ → Bytes → Reading (List Sealed) → Reading (List Step)
after_enc more v key none = none
after_enc more v key (some (enc, q)) = cons_step v key enc (more q)

unfoldable pub get_steps : ℕ → Bytes → Reading (List Step)
unfolding get_enc
get_steps zero q = some ([], q)
get_steps (suc count) q =
    let n_enc = get_u32 (drop treekem_mlkem_pk (drop 4 q)) in
    let rest =
      after_enc (get_steps count) (get_u32 q) (take treekem_mlkem_pk (drop 4 q))
        (get_enc n_enc (drop 4 (drop treekem_mlkem_pk (drop 4 q)))) in
    if ltb (length q) (4 + treekem_mlkem_pk + 4)
    then none
    else if ltb treekem_max_res n_enc
    then none
    else rest

-- `q == end`
abbrev pub whole_commit : ℕ → Bytes → Reading (List Step) → Result Commit
whole_commit leaf key none = err Error.integrity
whole_commit leaf key (some (steps, [])) =
    ok (record { sender_leaf = leaf; leaf_pub = key; step = steps })
whole_commit leaf key (some (steps, b ∷ q)) = err Error.integrity

unfoldable pub treekem_commit_deserialize : Bytes → Result Commit
unfolding get_steps
treekem_commit_deserialize buf =
    let n_steps = get_u32 (drop 4 buf) in
    if ltb (length buf) (8 + treekem_mlkem_pk)
    then err Error.integrity
    else if ltb treekem_max_path n_steps
    then err Error.integrity
    else whole_commit (get_u32 buf) (take treekem_mlkem_pk (drop 4 (drop 4 buf)))
        (get_steps n_steps (drop treekem_mlkem_pk (drop 4 (drop 4 buf))))

-- The entries from node i on, of which `count` are left, that have a key.
unfoldable pub present_from : ℕ → ℕ → PublicTree → List (ℕ × Bytes)
present_from zero i pt = []
present_from (suc count) i pt =
    let rest = present_from count (i + 1) pt in
    elim (pt.node i) [ none ↦ rest | some key ↦ (i, key) ∷ rest ]

unfoldable pub put_entries : List (ℕ × Bytes) → Bytes
put_entries [] = []
put_entries ((i, key) ∷ entries) = put_u32 i ++ (key ++ put_entries entries)

unfoldable pub treekem_public_serialize : PublicTree → Result Bytes
unfolding present_from put_entries
treekem_public_serialize pt =
    let entries = present_from (2 * pt.n_leaves - 1) 1 pt in
    if ltb pt.n_leaves 2 || ltb treekem_max_leaves pt.n_leaves
    then err Error.invalid_input
    else ok (put_u32 pt.n_leaves ++ (put_u32 (length entries) ++ put_entries entries))

abbrev pub with_key : ℕ → Bytes → PublicTree → PublicTree
with_key i key pt = record pt { node = λ j. if j == i then some key else pt.node j }

-- `present` entries; the bytes left must be none.
unfoldable pub get_entries : ℕ → Bytes → PublicTree → Result PublicTree
get_entries zero q pt = if length q == 0 then ok pt else err Error.integrity
get_entries (suc present) q pt =
    let i = get_u32 q in
    let rest =
      get_entries present (drop treekem_mlkem_pk (drop 4 q))
        (with_key i (take treekem_mlkem_pk (drop 4 q)) pt) in
    if ltb (length q) (4 + treekem_mlkem_pk)
    then err Error.integrity
    else if ltb i 1 || ltb (2 * pt.n_leaves - 1) i
    then err Error.integrity
    else rest

unfoldable pub treekem_public_deserialize : Bytes → Result PublicTree
unfolding get_entries leaves_pow2
treekem_public_deserialize buf =
    let n_leaves = get_u32 buf in
    if ltb (length buf) 8
    then err Error.integrity
    else if ltb n_leaves 2 || (ltb treekem_max_leaves n_leaves || not (leaves_pow2 n_leaves))
    then err Error.integrity
    else get_entries (get_u32 (drop 4 buf)) (drop 4 (drop 4 buf))
        (record { n_leaves = n_leaves; node = λ i. none })
