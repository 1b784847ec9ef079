-- ===== src/Merkle/Prefix.antt =====
-- The consistency proofs of merkle.c: what `subproof` appends, the verifier's loop consumes.
use qsafe.Base.{
  ℕ, zero, suc, ◌+◌, ◌-◌, ◌*◌, ◌/◌, ◌^◌, ◌≤◌, ◌<◌, ◌≡◌, ◌≢◌, refl, ◌∙◌, sym, ap, ap₂, Bool, true,
  false, ◌||◌, leb, ◌==◌, Option, none, some, some_inj, ◌>>=◌, List, [], ◌∷◌, ◌++◌, Bytes, dec_lt,
  arith,
}
use qsafe.Merkle.{split, mth, hash_children}
use qsafe.Merkle.Consistency.{Walk, is_odd, shift_even, subproof, walk_step, walk}
use qsafe.Merkle.Powers.{shift_even-zeros}
use qsafe.Merkle.Tree.{InRange, left-InRange, right-InRange, range-Halves, mth-halves, mth-leaf}

-- The proof that begins with the seed of the verifier, or leaves it out.
abbrev pub seeded : Bool → Bytes → List Bytes → List Bytes
seeded true seed rest = rest
seeded false seed rest = seed ∷ rest

module _ (sha256 : Bytes → Bytes) where
  pub step_left :
      (q y : ℕ) (fr sr c : Bytes)
      → y ≢ 0
      → q * 2 ≢ y
      → walk_step sha256 c (record { fn = q * 2; sn = y; fr = fr; sr = sr })
        ≡ some (record { fn = q; sn = y / 2; fr = fr; sr = hash_children sha256 sr c })
  unfolding walk_step
  step_left q y fr sr c nonzero apart =
      let up : (y == 0) ≡ false = ground arith in
      let other : (is_odd (q * 2) || q * 2 == y) ≡ false = ground arith in
      let half : q * 2 / 2 ≡ q = omega arith in rw (up, other, half) refl

  pub step_right :
      (q x y j : ℕ) (fr sr c : Bytes)
      → x ≡ (q * 2 + 1) * 2 ^ j
      → y ≢ 0
      → j < 64
      → (is_odd x || x == y) ≡ true
      → walk_step sha256 c (record { fn = x; sn = y; fr = fr; sr = sr })
        ≡ some (record {
          fn = q;
          sn = y / 2 ^ j / 2;
          fr = hash_children sha256 c fr;
          sr = hash_children sha256 c sr;
        })
  unfolding walk_step
  step_right q x y j fr sr c x_is nonzero small joins =
      let up : (y == 0) ≡ false = ground arith in
      let half : (q * 2 + 1) / 2 ≡ q = omega arith in
      let shifted : shift_even 64 x y ≡ (q * 2 + 1, y / 2 ^ j) =
        ap (λ t. shift_even 64 t y) x_is ∙ shift_even-zeros j 64 q y small in
      rw (up, joins, shifted, half) refl

  after_step :
      (o : Option Walk) (rest : List Bytes) (c : Bytes) {w' : Walk} {w'' : Walk}
      → ((w : Walk) → walk sha256 rest w ≡ some w' → walk sha256 (rest ++ (c ∷ [])) w ≡ some w'')
      → (o >>= λ w. walk sha256 rest w) ≡ some w'
      → (o >>= λ w. walk sha256 (rest ++ (c ∷ [])) w) ≡ some w''
  after_step none rest c next h = cc
  after_step (some w) rest c next h = next w h

  -- One more hash at the end of the proof.
  pub walk_snoc :
      (rest : List Bytes) (w : Walk) (c : Bytes) {w' w'' : Walk}
      → walk sha256 rest w ≡ some w'
      → walk_step sha256 c w' ≡ some w''
      → walk sha256 (rest ++ (c ∷ [])) w ≡ some w''
  unfolding walk
  walk_snoc [] w c {w'} h step =
      ap (λ t. walk_step sha256 c t >>= λ t'. some t') (some_inj h)
      ∙ ap (λ o. o >>= λ t'. some t') step
  walk_snoc (x ∷ rest) w c h step =
      after_step (walk_step sha256 x w) rest c (λ v hv. walk_snoc rest v c hv step) h

module _ (sha256 : Bytes → Bytes) (leaves : List Bytes) where
  pub subproof-kept :
      (depth lo hi m : ℕ) (pre : List Bytes)
      → m ≡ hi - lo
      → subproof sha256 (suc depth) leaves lo hi m true pre ≡ some pre
  unfolding subproof
  subproof-kept depth lo hi m pre e =
      let yes' : (m == hi - lo) ≡ true = ground arith in rw yes' refl

  pub subproof-whole :
      (depth lo hi m : ℕ) (pre : List Bytes) {h : Bytes}
      → m ≡ hi - lo
      → mth sha256 (suc depth) leaves lo hi ≡ some h
      → subproof sha256 (suc depth) leaves lo hi m false pre ≡ some (pre ++ (h ∷ []))
  unfolding subproof
  subproof-whole depth lo hi m pre e eh =
      let yes' : (m == hi - lo) ≡ true = ground arith in rw (yes', eh) refl

  pub subproof-left :
      (depth lo hi m : ℕ) (b : Bool) (pre : List Bytes) {k : ℕ} {proof : List Bytes} {h : Bytes}
      → m < hi - lo
      → split (hi - lo) ≡ some k
      → m ≤ k
      → subproof sha256 depth leaves lo (lo + k) m b pre ≡ some proof
      → mth sha256 depth leaves (lo + k) hi ≡ some h
      → subproof sha256 (suc depth) leaves lo hi m b pre ≡ some (proof ++ (h ∷ []))
  unfolding subproof
  subproof-left depth lo hi m b pre {k} lt e le ep eh =
      let no' : (m == hi - lo) ≡ false = ground arith in
      let here : leb m k ≡ true = ground arith in rw (no', e, here, ep, eh) refl

  pub subproof-right :
      (depth lo hi m : ℕ) (b : Bool) (pre : List Bytes) {k : ℕ} {proof : List Bytes} {h : Bytes}
      → m < hi - lo
      → split (hi - lo) ≡ some k
      → k < m
      → subproof sha256 depth leaves (lo + k) hi (m - k) false pre ≡ some proof
      → mth sha256 depth leaves lo (lo + k) ≡ some h
      → subproof sha256 (suc depth) leaves lo hi m b pre ≡ some (proof ++ (h ∷ []))
  unfolding subproof
  subproof-right depth lo hi m b pre {k} lt e gt ep eh =
      let no' : (m == hi - lo) ≡ false = ground arith in
      let there : leb m k ≡ false = ground arith in rw (no', e, there, ep, eh) refl

  mth_empty :
      (depth lo hi : ℕ) → hi - lo ≡ 0 → mth sha256 (suc depth) leaves lo hi ≡ some (sha256 [])
  unfolding mth
  mth_empty depth lo hi none' = ground arith

  deeper_small :
      (depth lo hi : ℕ)
      → hi - lo ≤ 1
      → mth sha256 (suc depth) leaves lo hi ≡ mth sha256 (suc (suc depth)) leaves lo hi
  deeper_small depth lo hi small = elim (dec_lt 0 (hi - lo)) [
    | yes one ↦
        mth-leaf sha256 leaves depth lo hi (omega arith)
        ∙ sym (mth-leaf sha256 leaves (suc depth) lo hi (omega arith))
    | no empty ↦
        mth_empty depth lo hi (omega arith) ∙ sym (mth_empty (suc depth) lo hi (omega arith))
  ]

  -- More levels than `mth` needs do not change the hash.
  pub mth_deeper :
      (depth lo hi : ℕ)
      → InRange leaves lo hi depth
      → mth sha256 (suc depth) leaves lo hi ≡ mth sha256 (suc (suc depth)) leaves lo hi
  mth_deeper zero lo hi r = deeper_small zero lo hi (omega (arith, r.fits))
  mth_deeper (suc depth) lo hi r = elim (dec_lt (hi - lo) 2) [
    | yes p ↦ deeper_small (suc depth) lo hi (omega arith)
    | no p ↦
        let (k, h) = range-Halves r (omega arith) in
        mth-halves sha256 leaves (suc depth) lo hi (omega arith) h.splits
        ∙ ap₂ (λ (a b : Option Bytes). do l ← a; r ← b; some (hash_children sha256 l r))
            (mth_deeper depth lo (lo + k) (left-InRange r h))
            (mth_deeper depth (lo + k) hi (right-InRange r h))
        ∙ sym (mth-halves sha256 leaves (suc (suc depth)) lo hi (omega arith) h.splits)
  ]
