-- ===== src/Group/Safety.antt =====
-- What every call of group.c keeps, and what a refused call leaves.
use qsafe.Base.{
  ℕ, zero, suc, ◌+◌, ◌-◌, ◌%◌, ◌^◌, ◌≤◌, ◌<◌, ◌≡◌, refl, sym, subst, false, Option, none, some, [],
  ◌∷◌, ◌++◌, ltb, length, length-append, take, drop, Bytes, Bool-cases, Option-cases, inl, inr,
  arith, get_u32, get_u16,
}
use qsafe.Crypto.{Error, Result, ok, err, Primitives, Signatures, sig_verify_buf, frame_nonce}
use qsafe.Group.State.{
  Receiver, g_kdf_ck, group_round, group_skip_loop, group_skip_too_far, group_max_skip,
  group_skipped_find,
}
use qsafe.Group.Message.{
  Located, locate, locate_stored, take_key, drop_hit, open_located, open_frame, group_decrypt,
  frame_too_short,
}
use qsafe.Group.Store.{length-group_skipped_remove}

-- The sizes of the C struct: at most GROUP_MAX_SKIP stored keys, a 32-bit number.
pub record Fits (r : Receiver) : Type 0 where
  pub stored : length r.skipped ≤ group_max_skip
  pub small : r.index < 2 ^ 32

-- The loop stores one key for each round, in the entries that the guard left room for.
loop-size :
    (p : Primitives) (rounds : ℕ) (r : Receiver) {w : Receiver}
    → group_skip_loop p rounds r ≡ some w
    → length w.skipped ≡ length r.skipped + rounds
unfolding group_skip_loop
loop-size p zero r {w} e = ground arith
loop-size p (suc rounds) r {w} e = elim (Option-cases (g_kdf_ck p r.ck)) [
  | inl failed ↦ absurd (ground arith)
  | inr (keys, derived) ↦
      let run : group_skip_loop p rounds (group_round r keys) ≡ some w = ground arith in
      omega (
        arith,
        loop-size p rounds (group_round r keys) run,
        length-append r.skipped (record { index = r.index; mk = keys.1 } ∷ []),
      )
]

take_key-Fits :
    (p : Primitives) (n : ℕ) (o : Option Receiver) {l : Located}
    → ((w : Receiver) → o ≡ some w → length w.skipped ≤ group_max_skip)
    → take_key p n o ≡ ok l
    → Fits (drop_hit l.hit l.copy)
unfolding take_key
take_key-Fits p n none room e = cc
take_key-Fits p n (some w) {l} room e = elim (Option-cases (g_kdf_ck p w.ck)) [
  | inl failed ↦ absurd (ground arith)
  | inr ((ckn, mk), derived) ↦
      let is : l
          ≡ record { mk = mk; copy = record w { ck = ckn; index = (n + 1) % 2 ^ 32 }; hit = none } =
        ground arith in
      rw is (record { stored = room w refl; small = omega arith })
]

locate-Fits :
    (p : Primitives) (n : ℕ) (r : Receiver) {l : Located}
    → Fits r
    → locate p n r ≡ ok l
    → Fits (drop_hit l.hit l.copy)
unfolding locate locate_stored
locate-Fits p n r {l} b e = elim (Bool-cases (ltb n r.index)) [
  | inl behind ↦ elim (Option-cases (group_skipped_find r.skipped n)) [
    | inl missing ↦ absurd (ground arith)
    | inr ((i, x), found) ↦
        let is : l ≡ record { mk = x.mk; copy = r; hit = some i } = ground arith in
        rw is (record {
          stored = omega (arith, length-group_skipped_remove r.skipped i, b.stored);
          small = b.small;
        })
  ]
  | inr ahead ↦ elim (Bool-cases (group_skip_too_far r n)) [
    | inl far ↦ absurd (ground arith)
    | inr near ↦
        let run : take_key p n (group_skip_loop p (n - r.index) r) ≡ ok l = ground arith in
        take_key-Fits p n (group_skip_loop p (n - r.index) r)
          (λ w done. ground (arith, loop-size p (n - r.index) r done, b.stored)) run
  ]
]

-- A call that refuses leaves the receiver, and one that accepts leaves it within its sizes.
record Outcome (r : Receiver) (o : Result Bytes × Receiver) : Type 0 where
  unchanged : {e : Error} → o.0 ≡ err e → o.1 ≡ r
  fits : Fits r → Fits o.1

refused : (r : Receiver) (e : Error) → Outcome r (err e, r)
refused r e = record { unchanged = λ h. refl; fits = λ b. b }

open_located-Outcome :
    (p : Primitives) (n : ℕ) (idx ct : Bytes) (r : Receiver) (o : Result Located)
    → ((l : Located) → o ≡ ok l → Fits r → Fits (drop_hit l.hit l.copy))
    → Outcome r (open_located p n idx ct r o)
unfolding open_located
open_located-Outcome p n idx ct r (err e) kept = refused r e
open_located-Outcome p n idx ct r (ok l) kept =
    let body = length ct - 16 in
    elim (Option-cases (p.gcm_open l.mk (frame_nonce n false) idx (take body ct) (drop body ct))) [
      | inl failed ↦ rw (failed, open_located) (refused r Error.integrity)
      | inr (pt, opened) ↦
          rw (opened, open_located) (record { unchanged = λ h. absurd (cc h); fits = kept l refl })
    ]

decrypt-Outcome :
    (p : Primitives) (q : Signatures) (frame : Bytes) (r : Receiver)
    → Outcome r (group_decrypt p q frame r)
unfolding group_decrypt open_frame sig_verify_buf
decrypt-Outcome p q frame r =
    let n = get_u32 frame in
    let siglen = get_u16 (drop 4 frame) in
    let ct = drop siglen (drop 6 frame) in
    let verifies = q.sig_verify (take 4 frame ++ ct) (take siglen (drop 6 frame)) r.sig_pk in
    elim (Bool-cases (frame_too_short frame)) [
      | inl short ↦
          let run : group_decrypt p q frame r ≡ (err Error.invalid_input, r) = ground arith in
          subst (Outcome r) (sym run) (refused r Error.invalid_input)
      | inr whole ↦ elim (Bool-cases verifies) [
        | inl good ↦
            let run : group_decrypt p q frame r
                ≡ open_located p n (take 4 frame) ct r (locate p n r) =
              ground arith in
            subst (Outcome r) (sym run) (
              open_located-Outcome p n (take 4 frame) ct r (locate p n r)
                (λ l found b. locate-Fits p n r b found))
        | inr bad ↦
            let run : group_decrypt p q frame r ≡ (err Error.integrity, r) = ground arith in
            subst (Outcome r) (sym run) (refused r Error.integrity)
      ]
    ]

-- A refused frame changes nothing: when `group_decrypt` returns any error, the receiver is the one
-- before the call.
pub group_decrypt_atomic :
    (p : Primitives) (q : Signatures) (frame : Bytes) (r : Receiver) {e : Error}
    → (group_decrypt p q frame r).0 ≡ err e
    → (group_decrypt p q frame r).1 ≡ r
group_decrypt_atomic p q frame r h = (decrypt-Outcome p q frame r).unchanged h

-- No frame overfills the receiver: however `group_decrypt` ends, a receiver with at most 1000 stored
-- keys and a 32-bit message number is left with at most 1000 stored keys and a 32-bit number.
pub group_decrypt-Fits :
    (p : Primitives) (q : Signatures) (frame : Bytes) (r : Receiver)
    → Fits r
    → Fits (group_decrypt p q frame r).1
group_decrypt-Fits p q frame r b = (decrypt-Outcome p q frame r).fits b
