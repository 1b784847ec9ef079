-- ===== src/Sss/Sound.antt =====
-- What a successful join of sss.c has checked.
use qsafe.Base.{
  ℕ, ◌≤◌, ◌≡◌, ◌≢◌, refl, ◌∙◌, sym, ap, subst, Bool, not, true, false, ltb, ltb→le, ◌||◌, some,
  List, [], ◌∷◌, ◌++◌, append-nil, append_assoc, length, All, Bytes, bytes_eq, bytes_eq→eq, arith,
}
use qsafe.Sss.Share.{Status, done, found, stop_if, Calls}
use qsafe.Sss.Join.{
  Share, same_set, first_set, has_index, read_share, read_shares, reconstruct, join_shares,
  sss_join_files,
}
use qsafe.Sss.Splitting.{after_done-eq_done, found-eq_done}

-- Each path was read as the share at its place.
abbrev pub ReadAs : Calls → List Bytes → List Share → Type 0
ReadAs c [] [] = Unit
ReadAs c [] (s ∷ shares) = ⊥
ReadAs c (path ∷ paths) [] = ⊥
ReadAs c (path ∷ paths) (s ∷ shares) = (read_share c path ≡ done s) × ReadAs c paths shares

-- Two shares of one set.
pub record SameSet (first s : Share) : Type 0 where
  pub same_id : s.set_id ≡ first.set_id
  pub same_threshold : s.threshold ≡ first.threshold
  pub same_size : length s.body ≡ length first.body
  pub same_digest : s.digest ≡ first.digest

-- No index twice.
abbrev pub DistinctIndices : List Share → Type 0
DistinctIndices [] = Unit
DistinctIndices (s ∷ shares) =
    All (λ (s' : Share). s.index ≢ s'.index) shares × DistinctIndices shares

-- The checks that the shares passed as they were read.
abbrev Passed : List Share → List Share → Type 0
Passed seen [] = Unit
Passed seen (s ∷ new) =
    (first_set seen s ≡ true) × (has_index seen s.index ≡ false) × Passed (seen ++ (s ∷ [])) new

record Reading (c : Calls) (seen : List Share) (paths : List Bytes) (all : List Share)
    : Type 0 where
  new : List Share
  all_are : all ≡ seen ++ new
  read : ReadAs c paths new
  passed : Passed seen new

not_stopped : (test : Bool) (e : Status) → stop_if test e ≡ done tt → test ≡ false
not_stopped true e h = cc
not_stopped false e h = refl

not-eq_false : (b : Bool) → not b ≡ false → b ≡ true
not-eq_false true h = refl
not-eq_false false h = cc

read_shares-Reading :
    (c : Calls) (seen : List Share) (paths : List Bytes) {all : List Share}
    → read_shares c seen paths ≡ done all
    → Reading c seen paths all
unfolding read_shares
read_shares-Reading c seen [] {all} h = record {
  new = [];
  all_are = inverse h ∙ sym (append-nil seen);
  read = tt;
  passed = tt;
}
  where
    inverse : done seen ≡ done all → all ≡ seen
    inverse e = cc
read_shares-Reading c seen (path ∷ paths) {all} h =
    let (s, read, h₁) = after_done-eq_done (read_share c path) _ h in
    let (_, same, h₂) =
      after_done-eq_done (stop_if (not (first_set seen s)) Status.mismatch) _ h₁ in
    let (_, fresh, h₃) =
      after_done-eq_done (stop_if (has_index seen s.index) Status.mismatch) _ h₂ in
    let r = read_shares-Reading c (seen ++ (s ∷ [])) paths h₃ in
    record {
      new = s ∷ r.new;
      all_are = r.all_are ∙ append_assoc seen (s ∷ []) r.new;
      read = (read, r.read);
      passed = (
        not-eq_false (first_set seen s) (not_stopped (not (first_set seen s)) Status.mismatch same),
        not_stopped (has_index seen s.index) Status.mismatch fresh,
        r.passed,
      );
    }

same_set-SameSet : (first s : Share) → same_set first s ≡ true → SameSet first s
same_set-SameSet first s h =
    ground (arith, bytes_eq→eq s.set_id first.set_id, bytes_eq→eq s.digest first.digest)

new_shares-SameSet :
    (first : Share) (seen new : List Share) → Passed (first ∷ seen) new → All (SameSet first) new
new_shares-SameSet first seen [] p = tt
new_shares-SameSet first seen (s ∷ new) p =
    (same_set-SameSet first s p.0, new_shares-SameSet first (seen ++ (s ∷ [])) new p.2)

-- What a test for an index says of one share that was seen.
has_index-split :
    (before : List Share) (s : Share) (after : List Share) (i : ℕ)
    → has_index (before ++ (s ∷ after)) i ≡ false
    → s.index ≢ i
unfolding has_index
has_index-split [] s after i h = ground arith
has_index-split (x ∷ before) s after i h = has_index-split before s after i (ground arith)

new_shares-apart :
    (before : List Share) (s : Share) (after new : List Share)
    → Passed (before ++ (s ∷ after)) new
    → All (λ (s' : Share). s.index ≢ s'.index) new
new_shares-apart before s after [] p = tt
new_shares-apart before s after (x ∷ new) p = (
  has_index-split before s after x.index p.1,
  new_shares-apart before s (after ++ (x ∷ [])) new
      (subst (λ (l : List Share). Passed l new) (append_assoc before (s ∷ after) (x ∷ [])) p.2),
)

new_shares-DistinctIndices : (seen new : List Share) → Passed seen new → DistinctIndices new
new_shares-DistinctIndices seen [] p = tt
new_shares-DistinctIndices seen (s ∷ new) p =
    (new_shares-apart seen s [] new p.2, new_shares-DistinctIndices (seen ++ (s ∷ [])) new p.2)

-- What stands behind a joined secret.
pub record JoinedFrom (c : Calls) (paths : List Bytes) (secret : Bytes) : Type 0 where
  pub first : Share
  pub others : List Share
  pub read : ReadAs c paths (first ∷ others)
  pub same : All (SameSet first) others
  pub distinct : DistinctIndices (first ∷ others)
  pub count : (2 ≤ length paths) × (length paths ≤ 16) × (first.threshold ≤ length paths)
  pub rebuilt : secret ≡ reconstruct first.threshold (length first.body) (first ∷ others)
  pub verified : c.sha256 secret ≡ some first.digest

-- The end of the join, on the shares that were read.
joined :
    (c : Calls) (paths : List Bytes) (all : List Share) {secret : Bytes}
    → (2 ≤ length paths) × (length paths ≤ 16)
    → ReadAs c paths all
    → Passed [] all
    → join_shares c (length paths) all ≡ done secret
    → JoinedFrom c paths secret
unfolding join_shares
joined c paths [] count read passed h = cc
joined c paths (first ∷ others) {secret} count read passed h =
    let built = reconstruct first.threshold (length first.body) (first ∷ others) in
    let (_, enough, h₁) =
      after_done-eq_done (stop_if (ltb (length paths) first.threshold) Status.input) _ h in
    let (check, hashed, h₂) = after_done-eq_done (found (c.sha256 built) Status.crypto) _ h₁ in
    let (_, equal, end) =
      after_done-eq_done (stop_if (not (bytes_eq check first.digest)) Status.mismatch) _ h₂ in
    let secret_is : secret ≡ built = inverse built end in
    let same_digest : check ≡ first.digest = bytes_eq→eq check first.digest (
      not-eq_false (bytes_eq check first.digest)
        (not_stopped (not (bytes_eq check first.digest)) Status.mismatch equal)) in
    record {
      first = first;
      others = others;
      read = read;
      same = new_shares-SameSet first [] others passed.2;
      distinct = new_shares-DistinctIndices [] (first ∷ others) passed;
      count = (
        count.0,
        count.1,
        ltb→le (length paths) first.threshold
            (not_stopped (ltb (length paths) first.threshold) Status.input enough),
      );
      rebuilt = secret_is;
      verified =
          ap c.sha256 secret_is
          ∙ found-eq_done (c.sha256 built) Status.crypto hashed
          ∙ ap some same_digest;
    }
  where
    inverse : (x : Bytes) → done x ≡ done secret → secret ≡ x
    inverse x e = cc

-- The join fails closed. When `sss_join_files` returns a secret, between 2 and 16 files were given and
-- each was read as a share; all declare the same set, threshold, size and digest; no index occurs
-- twice; there are at least as many as the threshold; the secret is the reconstruction from them;
-- and its digest is the one that they declare.
pub join_sound :
    (c : Calls) (paths : List Bytes) {secret : Bytes}
    → sss_join_files c paths ≡ done secret
    → JoinedFrom c paths secret
unfolding sss_join_files
join_sound c paths {secret} h =
    let counted = ltb (length paths) 2 || ltb 16 (length paths) in
    let (_, in_limits, h₁) = after_done-eq_done (stop_if counted Status.input) _ h in
    let (all, read, h₂) = after_done-eq_done (read_shares c [] paths) _ h₁ in
    let r = read_shares-Reading c [] paths read in
    let limits = limits_of (not_stopped counted Status.input in_limits) in
    joined c paths r.new limits r.read r.passed
      (ap (join_shares c (length paths)) (sym r.all_are) ∙ h₂)
  where
    limits_of :
        (ltb (length paths) 2 || ltb 16 (length paths)) ≡ false
        → (2 ≤ length paths) × (length paths ≤ 16)
    limits_of e = ground arith
