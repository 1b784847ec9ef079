-- ===== src/Translog/Heads.antt =====
-- Signed tree heads of translog.c: what a signature binds, and the verdict on two heads.
use qsafe.Base.{
  put_u64, put_u64_inj, length-put_u64, ◌^◌, ◌<◌, ◌≡◌, inl, inr, refl, ◌∙◌, sym, ap, true, false,
  List, [], ◌∷◌, ltb, ◌==◌, if◌then◌else◌, append_inj_left, Bytes, bytes_eq, bytes_eq→eq,
  Bool-cases, arith,
}
use qsafe.Crypto.{Error, ok, err, Signatures, sig_verify_buf}
use qsafe.Merkle.Soundness.{IsHash}
use qsafe.Translog.{
  TreeHead, consistent, sth_label, sth_bytes, translog_sth_verify, is_ok, judge,
  translog_gossip_check,
}

-- The sizes of the C struct.
pub record HeadFits (sth : TreeHead) : Type 0 where
  pub size_small : sth.size < 2 ^ 64
  pub root_size : IsHash sth.root
  pub time_small : sth.timestamp < 2 ^ 64

-- A signature is over one head: two heads within their sizes that have the same signed bytes are the
-- same in size, root and timestamp.
pub sth_bytes_inj : (a b : TreeHead) → HeadFits a → HeadFits b → sth_bytes a ≡ sth_bytes b → a ≡ b
unfolding sth_bytes
sth_bytes_inj a b fa fb e =
    let (_, tails) = append_inj_left sth_label sth_label refl e in
    let (sizes, rest) =
      append_inj_left (put_u64 a.size) (put_u64 b.size)
        (length-put_u64 a.size ∙ sym (length-put_u64 b.size)) tails in
    let (roots, times) = append_inj_left a.root b.root (fa.root_size ∙ sym fb.root_size) rest in
    let size = put_u64_inj a.size b.size fa.size_small fb.size_small sizes in
    let time = put_u64_inj a.timestamp b.timestamp fa.time_small fb.time_small times in
    λ i. record { size = size i; root = roots i; timestamp = time i }

bytes_eq_sym : (xs ys : Bytes) → bytes_eq xs ys ≡ bytes_eq ys xs
unfolding bytes_eq
bytes_eq_sym [] [] = refl
bytes_eq_sym [] (y ∷ ys) = refl
bytes_eq_sym (x ∷ xs) [] = refl
bytes_eq_sym (x ∷ xs) (y ∷ ys) = ground (arith, bytes_eq_sym xs ys)

judge_swap :
    (sha256 : Bytes → Bytes) (a b : TreeHead) (proof : List Bytes)
    → a.size ≡ b.size
    → judge sha256 a b proof ≡ judge sha256 b a proof
unfolding judge
judge_swap sha256 a b proof e = ground (arith, bytes_eq_sym a.root b.root)

-- The verdict does not depend on which head is named first.
gossip_check_swap :
    (sha256 : Bytes → Bytes) (q : Signatures) (log_pk : Bytes) (a b : TreeHead)
    (sig_a sig_b : Bytes) (proof : List Bytes)
    → translog_gossip_check sha256 q log_pk a sig_a b sig_b proof
      ≡ translog_gossip_check sha256 q log_pk b sig_b a sig_a proof
unfolding translog_gossip_check
gossip_check_swap sha256 q log_pk a b sig_a sig_b proof = elim (Bool-cases (a.size == b.size)) [
  | inl same ↦
      let e : a.size ≡ b.size = ground arith in ground (arith, judge_swap sha256 a b proof e)
  | inr other ↦ ground arith
]

verified :
    (q : Signatures) (log_pk : Bytes) (sth : TreeHead) (sig : Bytes)
    → is_ok (translog_sth_verify q log_pk sth sig) ≡ true
    → q.sig_verify (sth_bytes sth) sig log_pk ≡ true
unfolding translog_sth_verify sig_verify_buf
verified q log_pk sth sig h = elim (Bool-cases (q.sig_verify (sth_bytes sth) sig log_pk)) [
  | inl good ↦ good
  | inr bad ↦ absurd (cc (h, ap (λ t. is_ok (if t then ok tt else err Error.integrity)) bad))
]

same_roots :
    (sha256 : Bytes → Bytes) (a b : TreeHead) (proof : List Bytes)
    → a.size ≡ b.size
    → judge sha256 a b proof ≡ consistent
    → a.root ≡ b.root
unfolding judge
same_roots sha256 a b proof e h = elim (Bool-cases (bytes_eq a.root b.root)) [
  | inl same ↦ bytes_eq→eq a.root b.root same
  | inr other ↦ absurd (ground arith)
]

-- What a verdict other than a bad signature needed.
both_verified :
    (sha256 : Bytes → Bytes) (q : Signatures) (log_pk : Bytes) (a b : TreeHead)
    (sig_a sig_b : Bytes) (proof : List Bytes)
    → a.size ≡ b.size
    → translog_gossip_check sha256 q log_pk a sig_a b sig_b proof ≡ consistent
    → (is_ok (translog_sth_verify q log_pk a sig_a) ≡ true)
      × (is_ok (translog_sth_verify q log_pk b sig_b) ≡ true)
      × (judge sha256 a b proof ≡ consistent)
unfolding translog_gossip_check
both_verified sha256 q log_pk a b sig_a sig_b proof e h =
    elim (Bool-cases (is_ok (translog_sth_verify q log_pk a sig_a))) [
      | inl good_a ↦ elim (Bool-cases (is_ok (translog_sth_verify q log_pk b sig_b))) [
        | inl good_b ↦
            let below : ltb b.size a.size ≡ false = ground arith in (good_a, good_b, ground arith)
        | inr bad ↦ absurd (ground arith)
      ]
      | inr bad ↦ absurd (ground arith)
    ]

-- Two heads of one size are judged consistent only if the log signed both and their roots are equal:
-- with two roots the verdict is a fork or a bad signature.
pub gossip_check_consistent :
    (sha256 : Bytes → Bytes) (q : Signatures) (log_pk : Bytes) (a b : TreeHead)
    (sig_a sig_b : Bytes) (proof : List Bytes)
    → a.size ≡ b.size
    → translog_gossip_check sha256 q log_pk a sig_a b sig_b proof ≡ consistent
    → (q.sig_verify (sth_bytes a) sig_a log_pk ≡ true)
      × (q.sig_verify (sth_bytes b) sig_b log_pk ≡ true)
      × (a.root ≡ b.root)
gossip_check_consistent sha256 q log_pk a b sig_a sig_b proof e h =
    let (good_a, good_b, judged) = both_verified sha256 q log_pk a b sig_a sig_b proof e h in
    (
      verified q log_pk a sig_a good_a,
      verified q log_pk b sig_b good_b,
      same_roots sha256 a b proof e judged,
    )
