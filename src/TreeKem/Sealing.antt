-- ===== src/TreeKem/Sealing.antt =====
-- Resolutions and sealed path secrets of treekem.c: the resolution of a subtree reaches every member
-- below it, and who holds the key of such a node opens the secret.
use native.Mathlib.Nat.{pow-suc, one-le-pow}
use qsafe.Base.{
  length-append, take, ℕ, zero, suc, ◌+◌, ◌*◌, ◌-◌, ◌^◌, ◌≤◌, ◌<◌, ◌≡◌, ◌⊎◌, inl, inr, refl, ◌∙◌,
  sym, ap, Bool, true, false, Option, some, List, [], ◌∷◌, ◌++◌, ltb, leb, if◌then◌else◌, length,
  take-append_length, drop-append_length, replicate, All, Bytes, Bool-cases, Option-cases, arith,
  dec_lt,
}
use qsafe.Crypto.{Primitives, IsAead}
use qsafe.TreeKem.Tree.{
  Tree, parent, is_ancestor, tree_kdf, seal_ps, open_ps, resolution, tree_depth, label_enc,
}
use qsafe.TreeKem.Update.{recipients, Sealed, seal_all, open_first}
use qsafe.TreeKem.Ancestors.{Above, self-Above, Above-le, Above-child, Above-trans, is_ancestor-lt}

-- ML-KEM as documented, for one key pair: decapsulation gives the secret that was encapsulated.
abbrev pub Matched : Primitives → Bytes → Bytes → Type 0
Matched p pub_key priv_key =
    (draw : ℕ) (ct ss : Bytes)
    → p.kem_encaps draw pub_key ≡ some (ct, ss)
    → p.kem_decaps ct priv_key ≡ some ss

open-seal_ps :
    (p : Primitives) (draw : ℕ) (pub_key priv_key ps : Bytes) {ct sealed : Bytes}
    → IsAead p
    → Matched p pub_key priv_key
    → length ps ≡ 32
    → seal_ps p draw pub_key ps ≡ some (ct, sealed)
    → open_ps p priv_key ct sealed ≡ some ps
unfolding seal_ps open_ps tree_kdf
open-seal_ps p draw pub_key priv_key ps {ct} {sealed} aead matched size e =
    elim (Option-cases (p.kem_encaps draw pub_key)) [
      | inl failed ↦ absurd (ground arith)
      | inr ((ct', ss), encaps) ↦ elim (Option-cases (p.hkdf ss [] label_enc 32)) [
        | inl failed ↦ absurd (ground arith)
        | inr (key, derived) ↦ elim (Option-cases (p.gcm_seal key (replicate 12 0) [] ps)) [
          | inl failed ↦ absurd (ground arith)
          | inr ((body, tag), boxed) ↦
              let ct_is : ct ≡ ct' = ground arith in
              let sealed_is : sealed ≡ body ++ tag = ground arith in
              let body_size : length body ≡ 32 =
                aead.ct_size key (replicate 12 0) [] ps body tag boxed ∙ size in
              rw
                (
                  ct_is,
                  sealed_is,
                  matched draw ct' ss encaps,
                  derived,
                  take-append_length body tag 32 body_size,
                  drop-append_length body tag 32 body_size,
                )
                (aead.open_seal key (replicate 12 0) [] ps body tag boxed)
        ]
      ]
    ]

-- Some node of a list is above a leaf.
abbrev pub any_above : ℕ → List ℕ → Bool
any_above m [] = false
any_above m (r ∷ rs) = if is_ancestor r m then true else any_above m rs

any_above-append :
    (m : ℕ) (rs ss : List ℕ)
    → (any_above m rs ≡ true) ⊎ (any_above m ss ≡ true)
    → any_above m (rs ++ ss) ≡ true
any_above-append m [] ss (inl h) = cc
any_above-append m [] ss (inr h) = h
any_above-append m (r ∷ rs) ss h = ground (arith, any_above-append m rs ss)

All-append : (P : ℕ → Type 0) (xs ys : List ℕ) → All P xs → All P ys → All P (xs ++ ys)
All-append P [] ys f g = g
All-append P (x ∷ xs) ys (h, f) g = (h, All-append P xs ys f g)

pub All-weaken : (P Q : ℕ → Type 0) (xs : List ℕ) → ((x : ℕ) → P x → Q x) → All P xs → All Q xs
All-weaken P Q [] w f = tt
All-weaken P Q (x ∷ xs) w (h, f) = (w x h, All-weaken P Q xs w f)

-- Of the leaves, only the leaf itself is above a leaf.
pub leaf_self : (n w m : ℕ) → n ≤ w → m < 2 * n → m < 2 ^ 32 → Above w m → w ≡ m
leaf_self n w m le hi small h = elim (dec_lt w m) [
  | yes lt ↦
      absurd
        (omega (arith, Above-le w (parent m) (omega arith) (sym (is_ancestor-lt w m lt small) ∙ h)))
  | no ge ↦ omega (arith, Above-le w m small h)
]

-- The resolution of a node above a populated leaf has a node above that leaf.
pub resolution-any_above :
    (depth : ℕ) (t : Tree) (w m : ℕ)
    → (t.node m).has_pub ≡ true
    → t.n_leaves ≤ m
    → m < 2 * t.n_leaves
    → t.n_leaves ≤ 16
    → 1 ≤ w
    → 2 * t.n_leaves ≤ w * 2 ^ depth
    → Above w m
    → any_above m (resolution depth t w) ≡ true
unfolding resolution
resolution-any_above zero t w m full lo hi few at deep h =
    absurd (omega (arith, Above-le w m (omega arith) h))
resolution-any_above (suc depth) t w m full lo hi few at deep h =
    let w_le = Above-le w m (omega arith) h in
    elim (Bool-cases (t.node w).has_pub) [
      | inl here ↦ ground arith
      | inr blank ↦ elim (Bool-cases (leb t.n_leaves w)) [
        | inl leaf ↦
            let e : w ≡ m = leaf_self t.n_leaves w m (ground arith) hi (omega arith) h in
            absurd (cc (blank, full, ap t.node e))
        | inr inner ↦
            let left : 2 * t.n_leaves ≤ (2 * w) * 2 ^ depth =
              omega (arith, ap (λ x. w * x) (pow-suc 2 depth)) in
            let right : 2 * t.n_leaves ≤ (2 * w + 1) * 2 ^ depth =
              omega (arith, ap (λ x. w * x) (pow-suc 2 depth)) in
            let below : any_above m (resolution depth t (2 * w) ++ resolution depth t (2 * w + 1))
                ≡ true =
              any_above-append m (resolution depth t (2 * w)) (resolution depth t (2 * w + 1))
                (elim (Above-child w m (ground arith) (omega arith) h) [
                  | inl k ↦
                      inl
                        (resolution-any_above depth t (2 * w) m full lo hi few (omega arith) left k)
                  | inr k ↦ inr (
                      resolution-any_above depth t (2 * w + 1) m full lo hi few (omega arith) right
                        k)
                ]) in
            ground arith
      ]
    ]

take_whole : (xs : List ℕ) (n : ℕ) → length xs ≤ n → take n xs ≡ xs
take_whole [] zero h = refl
take_whole [] (suc n) h = refl
take_whole (x ∷ xs) zero h = absurd (omega arith)
take_whole (x ∷ xs) (suc n) h = ap (◌∷◌ x) (take_whole xs n (omega arith))

length-halves :
    (j : ℕ) (l r : List ℕ) → length l ≤ 2 ^ j → length r ≤ 2 ^ j → length (l ++ r) ≤ 2 ^ suc j
length-halves j l r hl hr = omega (arith, length-append l r, pow-suc 2 j)

-- With at most 2^j leaves below a node, its resolution has at most 2^j nodes.
length-resolution :
    (depth j : ℕ) (t : Tree) (w : ℕ)
    → 1 ≤ w
    → t.n_leaves ≤ w * 2 ^ j
    → length (resolution depth t w) ≤ 2 ^ j
unfolding resolution
length-resolution zero j t w at enough = omega arith
length-resolution (suc depth) zero t w at enough = ground arith
length-resolution (suc depth) (suc j) t w at enough =
    let wide = ap (λ x. w * x) (pow-suc 2 j) in
    let positive = one-le-pow (suc j) 2 (omega arith) in
    let l = length-resolution depth j t (2 * w) (omega arith) (omega arith) in
    let r = length-resolution depth j t (2 * w + 1) (omega arith) (omega arith) in
    let both = length-halves j (resolution depth t (2 * w)) (resolution depth t (2 * w + 1)) l r in
    ground arith

-- The resolution of a copath node fits.
pub recipients_all :
    (t : Tree) (w : ℕ) → t.n_leaves ≤ 16 → 2 ≤ w → recipients t w ≡ resolution tree_depth t w
recipients_all t w few at =
    take_whole (resolution tree_depth t w) 8
      (length-resolution tree_depth 3 t w (omega arith) (omega arith))

-- Every node of the resolution is below the node, and has a public key.
abbrev pub InResolution : Tree → ℕ → ℕ → Type 0
InResolution t w r = Above w r × (1 ≤ r) × (r < 2 * t.n_leaves) × ((t.node r).has_pub ≡ true)

double-Above : (w : ℕ) → 1 ≤ w → 2 * w + 1 < 2 ^ 32 → Above w (2 * w) × Above w (2 * w + 1)
double-Above w at small =
    let left : parent (2 * w) ≡ w = omega arith in
    let right : parent (2 * w + 1) ≡ w = omega arith in
    let self = self-Above w (omega arith) in
    (
      is_ancestor-lt w (2 * w) (omega arith) (omega arith) ∙ ap (is_ancestor w) left ∙ self,
      is_ancestor-lt w (2 * w + 1) (omega arith) small ∙ ap (is_ancestor w) right ∙ self,
    )

pub resolution-InResolution :
    (depth : ℕ) (t : Tree) (w : ℕ)
    → 1 ≤ w
    → t.n_leaves ≤ 16
    → All (InResolution t w) (resolution depth t w)
unfolding resolution
resolution-InResolution zero t w at few = tt
resolution-InResolution (suc depth) t w at few = elim (Bool-cases (ltb (2 * t.n_leaves - 1) w)) [
  | inl past ↦ rw past tt
  | inr within ↦ elim (Bool-cases (t.node w).has_pub) [
    | inl here ↦ rw (within, here) ((self-Above w (ground arith), at, ground arith, here), tt)
    | inr blank ↦ elim (Bool-cases (leb t.n_leaves w)) [
      | inl leaf ↦ rw (within, blank, leaf) tt
      | inr inner ↦
          let (l, r) = double-Above w at (ground arith) in
          rw (within, blank, inner)
            (All-append (InResolution t w) (resolution depth t (2 * w))
              (resolution depth t (2 * w + 1))
              (All-weaken (InResolution t (2 * w)) (InResolution t w) _
                (weaken t w (2 * w) at few l)
                (resolution-InResolution depth t (2 * w) (omega arith) few))
              (All-weaken (InResolution t (2 * w + 1)) (InResolution t w) _
                (weaken t w (2 * w + 1) at few r)
                (resolution-InResolution depth t (2 * w + 1) (omega arith) few)))
    ]
  ]
]
  where
    weaken :
        (t : Tree) (w c : ℕ)
        → 1 ≤ w
        → t.n_leaves ≤ 16
        → Above w c
        → (x : ℕ) → InResolution t c x
        → InResolution t w x
    weaken t w c at few k x (h, lo, hi, full) =
        (Above-trans w c x at (omega arith) k h, lo, hi, full)

-- Who holds the key of each recipient above its leaf opens the first of them.
abbrev pub Ready : Primitives → Tree → Tree → ℕ → Type 0
Ready p t tb r =
    Above r tb.my_leaf
    → ((tb.node r).has_priv ≡ true) × Matched p (t.node r).pub_key (tb.node r).priv_key

pub open-seal_all :
    (p : Primitives) (derand : Bytes → Option (Bytes × Bytes)) (draw : ℕ → ℕ) (t tb : Tree)
    (ps : Bytes) (rs : List ℕ) {enc : List Sealed}
    → IsAead p
    → length ps ≡ 32
    → All (Ready p t tb) rs
    → any_above tb.my_leaf rs ≡ true
    → seal_all p derand draw t ps rs ≡ some enc
    → open_first p derand tb enc ≡ some ps
unfolding seal_all open_first
open-seal_all p derand draw t tb ps [] aead size ready any e = cc
open-seal_all p derand draw t tb ps (r ∷ rs) {enc} aead size (here, ready) any e =
    elim (Option-cases (seal_ps p (draw r) (t.node r).pub_key ps)) [
      | inl failed ↦ absurd (ground arith)
      | inr ((ct, sealed), boxed) ↦ elim (Option-cases (seal_all p derand draw t ps rs)) [
        | inl failed ↦ absurd (ground arith)
        | inr (rest, later) ↦
            let enc_is : enc ≡ record { recipient = r; ct = ct; sealed = sealed } ∷ rest =
              ground arith in
            elim (Bool-cases (is_ancestor r tb.my_leaf)) [
              | inl mine ↦
                  let (holds, matched) = here mine in
                  let opened =
                    open-seal_ps p (draw r) (t.node r).pub_key (tb.node r).priv_key ps aead matched
                      size boxed in
                  rw (enc_is, mine, holds, opened) refl
              | inr other ↦
                  rw (enc_is, other)
                    (open-seal_all p derand draw t tb ps rs aead size ready (ground arith) later)
            ]
      ]
    ]
