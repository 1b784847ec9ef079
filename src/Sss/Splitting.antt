-- ===== src/Sss/Splitting.antt =====
-- What a successful split of sss.c has made and written.
use qsafe.Base.{
  ℕ, zero, suc, ◌+◌, ◌-◌, ◌≤◌, ◌<◌, ◌≡◌, inl, inr, refl, ◌∙◌, sym, ap, ap₂, subst, Bool, Bool-cases,
  not, true, false, leb, Option, none, some, List, [], ◌∷◌, ◌==◌, if◌then◌else◌, length, All,
  IsByte, Bytes, arith,
}
use qsafe.Sss.Elements.{lift_all, raw-lift_all, length-lift_all}
use qsafe.Sss.Share.{
  after_write, Status, Outcome, done, failed, after_done, found, Calls, share_file, share_path,
  write_shares, draw_polynomials, prepare_split, bad_split, sss_split_to_files, add_file, Written,
  write_prepared,
}
use qsafe.Sss.Secret.{Row, raw_rows, secret_of}

-- The calls as documented: random bytes fill the buffer, and a digest has 32 bytes.
pub record IsCalls (c : Calls) : Type 0 where
  pub fills :
      (draw n : ℕ) (out : Bytes)
      → c.rand_bytes draw n ≡ some out
      → All IsByte out × (length out ≡ n)
  pub digest_size : (message out : Bytes) → c.sha256 message ≡ some out → length out ≡ 32

-- A call that went on.
pub after_done-eq_done :
    {A B : Type 0} (m : Outcome A) (next : A → Outcome B) {b : B}
    → after_done next m ≡ done b
    → (a : A) × (m ≡ done a) × (next a ≡ done b)
after_done-eq_done (done a) next h = (a, refl, h)
after_done-eq_done (failed e) next h = cc

pub found-eq_done :
    {A : Type 0} (o : Option A) (e : Status) {a : A} → found o e ≡ done a → o ≡ some a
found-eq_done none e h = cc
found-eq_done (some a) e h = cc

done_inj : {A : Type 0} {a b : A} → done a ≡ done b → a ≡ b
done_inj h = cc

-- The polynomials that were drawn.
pub record Drawn (t : ℕ) (secret : Bytes) (polys : List Bytes) : Type 0 where
  pub rows : List Row
  pub polys_are : polys ≡ raw_rows rows
  pub secret_is : secret_of rows ≡ secret
  pub degree : All (λ (r : Row). length r.1 ≡ t - 1) rows
  pub as_long : length rows ≡ length secret

draw-Drawn :
    (c : Calls) (draw : ℕ → ℕ) (t j : ℕ) (secret : Bytes) {polys : List Bytes}
    → IsCalls c
    → All IsByte secret
    → draw_polynomials c draw t j secret ≡ done polys
    → Drawn t secret polys
unfolding draw_polynomials
draw-Drawn c draw t j [] calls bytes h = record {
  rows = [];
  polys_are = sym (done_inj h);
  secret_is = refl;
  degree = tt;
  as_long = refl;
}
draw-Drawn c draw t j (s ∷ secret) calls bytes h =
    let (coeffs, drawn, h₁) =
      after_done-eq_done (found (c.rand_bytes (draw j) (t - 1)) Status.crypto) _ h in
    let (polys, more, end) = after_done-eq_done (draw_polynomials c draw t (j + 1) secret) _ h₁ in
    let (small, size) =
      calls.fills (draw j) (t - 1) coeffs
        (found-eq_done (c.rand_bytes (draw j) (t - 1)) Status.crypto drawn) in
    let d = draw-Drawn c draw t (j + 1) secret calls bytes.1 more in
    record {
      rows = ((s, bytes.0), lift_all coeffs small) ∷ d.rows;
      polys_are =
          sym (done_inj end) ∙ ap₂ ◌∷◌ (ap (◌∷◌ s) (sym (raw-lift_all coeffs small))) d.polys_are;
      secret_is = ap (◌∷◌ s) d.secret_is;
      degree = (length-lift_all coeffs small ∙ size, d.degree);
      as_long = ap suc d.as_long;
    }

-- The share was written, and the call went on.
pub write_went_on :
    (a b : Bool) (path : Bytes) (o : Option Bytes) (r : Written) {files : List (Bytes × Bytes)}
    → (if a
        then ([], failed Status.input)
        else if b
        then ([], failed Status.io)
        else after_write path o r)
      ≡ (files, done tt)
    → (a ≡ false) × (b ≡ false) × (o ≡ none) × (r ≡ (files, done tt))
write_went_on true b path o r h = absurd (cc (ap (λ (t : Written). t.1) h))
write_went_on false true path o r h = absurd (cc (ap (λ (t : Written). t.1) h))
write_went_on false false path (some part) r h = absurd (cc (ap (λ (t : Written). t.1) h))
write_went_on false false path none r h = (refl, refl, refl, h)

-- Every file that was written stands where it was written.
pub write_shares-All :
    (P : Bytes × Bytes → Type 0) (c : Calls) (prefix : Bytes) (content : ℕ → Bytes) (rounds i : ℕ)
    {files : List (Bytes × Bytes)}
    → write_shares c prefix content rounds i ≡ (files, done tt)
    → All P files
    → (k : ℕ) → i ≤ k
    → k < i + rounds
    → P (share_path prefix k, content k)
unfolding write_shares
write_shares-All P c prefix content zero i h all k low high = absurd (omega arith)
write_shares-All P c prefix content (suc rounds) i {files} h all k low high =
    let rest : Written = write_shares c prefix content rounds (i + 1) in
    let path = share_path prefix i in
    let (_, _, _, passed) =
      write_went_on (leb 1024 (length path)) (not (c.opens path)) path (c.cut_short path)
        (add_file (path, content i) rest) h in
    let files_are : (path, content i) ∷ rest.0 ≡ files = ap (λ (t : Written). t.0) passed in
    let rest_ok : rest ≡ (rest.0, done tt) =
      ap (λ e. (rest.0, e)) (ap (λ (t : Written). t.1) passed) in
    let all' : All P ((path, content i) ∷ rest.0) =
      subst (λ (l : List (Bytes × Bytes)). All P l) (sym files_are) all in
    elim (Bool-cases (k == i)) [
      | inl here ↦
          let k_is : i ≡ k = ground arith in
          subst (λ n. P (share_path prefix n, content n)) k_is all'.0
      | inr later ↦
          let above : i + 1 ≤ k = ground arith in
          write_shares-All P c prefix content rounds (i + 1) rest_ok all'.1 k above (omega arith)
    ]

-- What one successful call of `sss_split_to_files` made.
pub record SplitRun (c : Calls) (secret : Bytes) (t n : ℕ) (prefix : Bytes)
    (files : List (Bytes × Bytes)) : Type 0 where
  pub set_id : Bytes
  pub digest : Bytes
  pub polys : List Bytes
  pub accepted : bad_split secret t n ≡ false
  pub drawn : Drawn t secret polys
  pub hashed : c.sha256 secret ≡ some digest
  pub id_size : length set_id ≡ 16
  pub written :
      write_shares c prefix (share_file set_id t secret digest polys) n 1 ≡ (files, done tt)

prepared-SplitRun :
    (c : Calls) (draw : ℕ → ℕ) (secret : Bytes) (t n : ℕ) (prefix : Bytes)
    (r : Outcome (Bytes × Bytes × List Bytes)) {files : List (Bytes × Bytes)}
    → IsCalls c
    → All IsByte secret
    → bad_split secret t n ≡ false
    → prepare_split c draw secret t ≡ r
    → write_prepared c secret t n prefix r ≡ (files, done tt)
    → SplitRun c secret t n prefix files
unfolding prepare_split
prepared-SplitRun c draw secret t n prefix (failed e) calls bytes good made h =
    absurd (cc (ap (λ (w : Written). w.1) h))
prepared-SplitRun c draw secret t n prefix (done (set_id, digest, polys)) calls bytes good made h =
    let (id, id_drawn, h₁) =
      after_done-eq_done (found (c.rand_bytes (draw 0) 16) Status.crypto) _ made in
    let (hash, hashed, h₂) = after_done-eq_done (found (c.sha256 secret) Status.crypto) _ h₁ in
    let (ps, drawn, end) = after_done-eq_done (draw_polynomials c draw t 1 secret) _ h₂ in
    let parts : ◌≡◌ {A = Bytes × Bytes × List Bytes} (id, hash, ps) (set_id, digest, polys) =
      done_inj end in
    let id_is : id ≡ set_id = ap (λ (p : Bytes × Bytes × List Bytes). p.0) parts in
    let hash_is : hash ≡ digest = ap (λ (p : Bytes × Bytes × List Bytes). p.1) parts in
    let ps_are : ps ≡ polys = ap (λ (p : Bytes × Bytes × List Bytes). p.2) parts in
    record {
      set_id = set_id;
      digest = digest;
      polys = polys;
      accepted = good;
      drawn = draw-Drawn c draw t 1 secret calls bytes (drawn ∙ ap done ps_are);
      hashed = found-eq_done (c.sha256 secret) Status.crypto hashed ∙ ap some hash_is;
      id_size =
          ap (λ (l : Bytes). length l) (sym id_is)
          ∙ (calls.fills (draw 0) 16 id
              (found-eq_done (c.rand_bytes (draw 0) 16) Status.crypto id_drawn)).1;
      written = h;
    }

-- A call that succeeded was not refused.
not_refused :
    (bad : Bool) (w : Written) {files : List (Bytes × Bytes)}
    → (if bad then ([], failed Status.input) else w) ≡ (files, done tt)
    → (bad ≡ false) × (w ≡ (files, done tt))
not_refused true w h = absurd (cc (ap (λ (t : Written). t.1) h))
not_refused false w h = (refl, h)

pub sss_split_to_files-SplitRun :
    (c : Calls) (draw : ℕ → ℕ) (secret : Bytes) (t n : ℕ) (prefix : Bytes)
    {files : List (Bytes × Bytes)}
    → IsCalls c
    → All IsByte secret
    → sss_split_to_files c draw secret t n prefix ≡ (files, done tt)
    → SplitRun c secret t n prefix files
unfolding sss_split_to_files
sss_split_to_files-SplitRun c draw secret t n prefix {files} calls bytes h =
    let r = prepare_split c draw secret t in
    let (good, run) = not_refused (bad_split secret t n) (write_prepared c secret t n prefix r) h in
    prepared-SplitRun c draw secret t n prefix r calls bytes good refl run
