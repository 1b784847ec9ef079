-- ===== src/TreeKem/RoundTrip.antt =====
-- A commit of treekem.c on the wire: what is written is read back.
use qsafe.Base.{
  ℕ, suc, ◌+◌, ◌≡◌, refl, ◌∙◌, sym, ap, ap₂, false, List, [], ◌∷◌, ◌++◌, append_assoc, append-nil,
  ltb, length, length-append, take, drop, take-append_length, drop-append_length, All, some, Bytes,
  Bool-cases, inl, inr, arith, put_u32, get_u32, get_u32-put_u32, length-put_u32, IsU32,
}
use qsafe.Crypto.{ok}
use qsafe.TreeKem.Tree.{treekem_mlkem_pk, treekem_mlkem_ct, treekem_max_res, treekem_max_path}
use qsafe.TreeKem.Update.{Sealed, Step, Commit}
use qsafe.TreeKem.Wire.{
  sealed_size, put_enc, put_steps, some_step_full, treekem_commit_serialize, cons_enc, cons_step,
  get_enc, get_steps, after_enc, whole_commit, treekem_commit_deserialize,
}

-- A word in front of the rest.
module _ (v : ℕ) (rest : Bytes) (small : IsU32 v) where
  word_is : get_u32 (put_u32 v ++ rest) ≡ v
  word_is = get_u32-put_u32 v rest small

  behind_word : drop 4 (put_u32 v ++ rest) ≡ rest
  behind_word = drop-append_length (put_u32 v) rest 4 (length-put_u32 v)

-- The sizes of the fields.
abbrev pub SealedFits : Sealed → Type 0
SealedFits e =
    IsU32 e.recipient × (length e.ct ≡ treekem_mlkem_ct) × (length e.sealed ≡ sealed_size)

abbrev pub StepFits : Step → Type 0
StepFits st = IsU32 st.node × (length st.pub_key ≡ treekem_mlkem_pk) × All SealedFits st.enc

abbrev pub CommitFits : Commit → Type 0
CommitFits c = IsU32 c.sender_leaf × (length c.leaf_pub ≡ treekem_mlkem_pk) × All StepFits c.step

get_enc_step :
    (e : Sealed) (count : ℕ) (tail : Bytes)
    → SealedFits e
    → get_enc (suc count) (put_u32 e.recipient ++ (e.ct ++ (e.sealed ++ tail)))
      ≡ cons_enc e (get_enc count tail)
unfolding get_enc
get_enc_step e count tail (small, ct_size, sealed_is) =
    let rest = e.ct ++ (e.sealed ++ tail) in
    let q = put_u32 e.recipient ++ rest in
    let at_four : drop 4 q ≡ rest = behind_word e.recipient rest small in
    let at_sealed : drop treekem_mlkem_ct (drop 4 q) ≡ e.sealed ++ tail =
      ap (drop treekem_mlkem_ct) at_four
      ∙ drop-append_length e.ct (e.sealed ++ tail) treekem_mlkem_ct ct_size in
    let is_ct : take treekem_mlkem_ct (drop 4 q) ≡ e.ct =
      ap (take treekem_mlkem_ct) at_four
      ∙ take-append_length e.ct (e.sealed ++ tail) treekem_mlkem_ct ct_size in
    let is_sealed : take sealed_size (drop treekem_mlkem_ct (drop 4 q)) ≡ e.sealed =
      ap (take sealed_size) at_sealed ∙ take-append_length e.sealed tail sealed_size sealed_is in
    let is_tail : drop sealed_size (drop treekem_mlkem_ct (drop 4 q)) ≡ tail =
      ap (drop sealed_size) at_sealed ∙ drop-append_length e.sealed tail sealed_size sealed_is in
    let is_word = word_is e.recipient rest small in
    let long : ltb (length q) (4 + treekem_mlkem_ct + sealed_size) ≡ false =
      long_enough (length q) (length tail) (
        omega (
          arith,
          length-append (put_u32 e.recipient) rest,
          length-append e.ct (e.sealed ++ tail),
          length-append e.sealed tail,
          length-put_u32 e.recipient,
        )) in
    rw long (λ i.
      cons_enc (record { recipient = is_word i; ct = is_ct i; sealed = is_sealed i })
        (get_enc count (is_tail i)))
  where
    long_enough : (a k : ℕ) → a ≡ 4 + 1568 + 48 + k → ltb a (4 + 1568 + 48) ≡ false
    long_enough a k e = ground arith

get-put_enc :
    (enc : List Sealed) (rest : Bytes)
    → All SealedFits enc
    → get_enc (length enc) (put_enc enc ++ rest) ≡ some (enc, rest)
unfolding get_enc put_enc
get-put_enc [] rest f = refl
get-put_enc (e ∷ enc) rest (fe, f) =
    let whole : (put_u32 e.recipient ++ (e.ct ++ (e.sealed ++ put_enc enc))) ++ rest
        ≡ put_u32 e.recipient ++ (e.ct ++ (e.sealed ++ (put_enc enc ++ rest))) =
      append_assoc (put_u32 e.recipient) (e.ct ++ (e.sealed ++ put_enc enc)) rest
      ∙ ap (λ t. put_u32 e.recipient ++ t)
          (append_assoc e.ct (e.sealed ++ put_enc enc) rest
            ∙ ap (λ t. e.ct ++ t) (append_assoc e.sealed (put_enc enc) rest)) in
    ap (get_enc (suc (length enc))) whole
    ∙ get_enc_step e (length enc) (put_enc enc ++ rest) fe
    ∙ ap (cons_enc e) (get-put_enc enc rest f)

full_rest :
    (st : Step) (steps : List Step)
    → some_step_full (st ∷ steps) ≡ false
    → (ltb treekem_max_res (length st.enc) ≡ false) × (some_step_full steps ≡ false)
unfolding some_step_full
full_rest st steps h = elim (Bool-cases (ltb treekem_max_res (length st.enc))) [
  | inl full ↦ absurd (ground arith)
  | inr room ↦ (room, ground arith)
]

get_steps_step :
    (st : Step) (count : ℕ) (tail : Bytes)
    → StepFits st
    → ltb treekem_max_res (length st.enc) ≡ false
    → get_steps
        (suc count)
        (put_u32 st.node ++ (st.pub_key ++ (put_u32 (length st.enc) ++ (put_enc st.enc ++ tail))))
      ≡ cons_step st.node st.pub_key st.enc (get_steps count tail)
unfolding get_steps
get_steps_step st count tail (small, key_size, enc_fit) room =
    let counted = put_u32 (length st.enc) ++ (put_enc st.enc ++ tail) in
    let rest = st.pub_key ++ counted in
    let q = put_u32 st.node ++ rest in
    let n_small : IsU32 (length st.enc) = few (length st.enc) room in
    let at_four : drop 4 q ≡ rest = behind_word st.node rest small in
    let at_count : drop treekem_mlkem_pk (drop 4 q) ≡ counted =
      ap (drop treekem_mlkem_pk) at_four
      ∙ drop-append_length st.pub_key counted treekem_mlkem_pk key_size in
    let is_key : take treekem_mlkem_pk (drop 4 q) ≡ st.pub_key =
      ap (take treekem_mlkem_pk) at_four
      ∙ take-append_length st.pub_key counted treekem_mlkem_pk key_size in
    let is_count : get_u32 (drop treekem_mlkem_pk (drop 4 q)) ≡ length st.enc =
      ap get_u32 at_count ∙ word_is (length st.enc) (put_enc st.enc ++ tail) n_small in
    let at_enc : drop 4 (drop treekem_mlkem_pk (drop 4 q)) ≡ put_enc st.enc ++ tail =
      ap (drop 4) at_count ∙ behind_word (length st.enc) (put_enc st.enc ++ tail) n_small in
    let is_word = word_is st.node rest small in
    let read : get_enc (get_u32 (drop treekem_mlkem_pk (drop 4 q)))
          (drop 4 (drop treekem_mlkem_pk (drop 4 q)))
        ≡ some (st.enc, tail) =
      ap₂ get_enc is_count at_enc ∙ get-put_enc st.enc tail enc_fit in
    let long : ltb (length q) (4 + treekem_mlkem_pk + 4) ≡ false =
      long_enough (length q) (length (put_enc st.enc ++ tail)) (
        omega (
          arith,
          length-append (put_u32 st.node) rest,
          length-append st.pub_key counted,
          length-append (put_u32 (length st.enc)) (put_enc st.enc ++ tail),
          length-put_u32 st.node,
          length-put_u32 (length st.enc),
        )) in
    let fits : ltb treekem_max_res (get_u32 (drop treekem_mlkem_pk (drop 4 q))) ≡ false =
      ap (ltb treekem_max_res) is_count ∙ room in
    rw (long, fits) (λ i. after_enc (get_steps count) (is_word i) (is_key i) (read i))
  where
    long_enough : (a k : ℕ) → a ≡ 4 + 1568 + 4 + k → ltb a (4 + 1568 + 4) ≡ false
    long_enough a k e = ground arith

    few : (k : ℕ) → ltb treekem_max_res k ≡ false → IsU32 k
    few k h = ground arith

get-put_steps :
    (steps : List Step) (rest : Bytes)
    → All StepFits steps
    → some_step_full steps ≡ false
    → get_steps (length steps) (put_steps steps ++ rest) ≡ some (steps, rest)
unfolding get_steps put_steps
get-put_steps [] rest f room = refl
get-put_steps (st ∷ steps) rest (fst, f) room =
    let (here, later) = full_rest st steps room in
    let behind = put_steps steps in
    let enc = put_enc st.enc in
    let n = put_u32 (length st.enc) in
    let whole : (put_u32 st.node ++ (st.pub_key ++ (n ++ (enc ++ behind)))) ++ rest
        ≡ put_u32 st.node ++ (st.pub_key ++ (n ++ (enc ++ (behind ++ rest)))) =
      append_assoc (put_u32 st.node) (st.pub_key ++ (n ++ (enc ++ behind))) rest
      ∙ ap (λ t. put_u32 st.node ++ t)
          (append_assoc st.pub_key (n ++ (enc ++ behind)) rest
            ∙ ap (λ t. st.pub_key ++ t)
                (append_assoc n (enc ++ behind) rest
                  ∙ ap (λ t. n ++ t) (append_assoc enc behind rest))) in
    ap (get_steps (suc (length steps))) whole
    ∙ get_steps_step st (length steps) (behind ++ rest) fst here
    ∙ ap (cons_step st.node st.pub_key st.enc) (get-put_steps steps rest f later)

abbrev commit_bytes : Commit → Bytes
commit_bytes c =
    put_u32 c.sender_leaf ++ (put_u32 (length c.step) ++ (c.leaf_pub ++ put_steps c.step))

serialized :
    (c : Commit) {buf : Bytes}
    → treekem_commit_serialize c ≡ ok buf
    → (ltb treekem_max_path (length c.step) ≡ false)
      × (some_step_full c.step ≡ false)
      × (commit_bytes c ≡ buf)
unfolding treekem_commit_serialize
serialized c e = elim (Bool-cases (ltb treekem_max_path (length c.step))) [
  | inl long ↦ absurd (ground arith)
  | inr short ↦ elim (Bool-cases (some_step_full c.step)) [
    | inl full ↦ absurd (ground arith)
    | inr room ↦ (short, room, ground arith)
  ]
]

deserialize-bytes :
    (c : Commit)
    → CommitFits c
    → ltb treekem_max_path (length c.step) ≡ false
    → some_step_full c.step ≡ false
    → treekem_commit_deserialize (commit_bytes c) ≡ ok c
unfolding treekem_commit_deserialize
deserialize-bytes c (small, key_size, steps_fit) short room =
    let steps = put_steps c.step in
    let counted = put_u32 (length c.step) ++ (c.leaf_pub ++ steps) in
    let n_small : IsU32 (length c.step) = few (length c.step) short in
    let at_count : drop 4 (commit_bytes c) ≡ counted = behind_word c.sender_leaf counted small in
    let is_count : get_u32 (drop 4 (commit_bytes c)) ≡ length c.step =
      ap get_u32 at_count ∙ word_is (length c.step) (c.leaf_pub ++ steps) n_small in
    let at_key : drop 4 (drop 4 (commit_bytes c)) ≡ c.leaf_pub ++ steps =
      ap (drop 4) at_count ∙ behind_word (length c.step) (c.leaf_pub ++ steps) n_small in
    let is_key : take treekem_mlkem_pk (drop 4 (drop 4 (commit_bytes c))) ≡ c.leaf_pub =
      ap (take treekem_mlkem_pk) at_key
      ∙ take-append_length c.leaf_pub steps treekem_mlkem_pk key_size in
    let at_steps : drop treekem_mlkem_pk (drop 4 (drop 4 (commit_bytes c))) ≡ steps ++ [] =
      ap (drop treekem_mlkem_pk) at_key
      ∙ drop-append_length c.leaf_pub steps treekem_mlkem_pk key_size
      ∙ sym (append-nil steps) in
    let read = ap₂ get_steps is_count at_steps ∙ get-put_steps c.step [] steps_fit room in
    let is_word = word_is c.sender_leaf counted small in
    let long : ltb (length (commit_bytes c)) (8 + treekem_mlkem_pk) ≡ false =
      long_enough (length (commit_bytes c)) (length steps) (
        omega (
          arith,
          length-append (put_u32 c.sender_leaf) counted,
          length-append (put_u32 (length c.step)) (c.leaf_pub ++ steps),
          length-append c.leaf_pub steps,
          length-put_u32 c.sender_leaf,
          length-put_u32 (length c.step),
        )) in
    let fits : ltb treekem_max_path (get_u32 (drop 4 (commit_bytes c))) ≡ false =
      ap (ltb treekem_max_path) is_count ∙ short in
    rw (long, fits) (λ i. whole_commit (is_word i) (is_key i) (read i))
  where
    long_enough : (a k : ℕ) → a ≡ 8 + 1568 + k → ltb a (8 + 1568) ≡ false
    long_enough a k e = ground arith

    few : (k : ℕ) → ltb treekem_max_path k ≡ false → IsU32 k
    few k h = ground arith

-- A commit survives the wire: what `treekem_commit_serialize` writes for a commit whose fields have
-- their sizes, `treekem_commit_deserialize` reads back as that commit.
pub commit_deserialize-serialize :
    (c : Commit) (buf : Bytes)
    → CommitFits c
    → treekem_commit_serialize c ≡ ok buf
    → treekem_commit_deserialize buf ≡ ok c
commit_deserialize-serialize c buf fits e =
    let (short, room, is_buf) = serialized c e in
    ap treekem_commit_deserialize (sym is_buf) ∙ deserialize-bytes c fits short room
