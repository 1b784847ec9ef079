-- ===== src/Group/Message.antt =====
-- `group_encrypt` and `group_decrypt` of group.c.
use qsafe.Base.{
  ℕ, ◌+◌, ◌-◌, ◌%◌, ◌^◌, Bool, false, ◌||◌, Option, none, some, ◌++◌, ltb, if◌then◌else◌, length,
  take, drop, Bytes, put_u32, get_u32, put_u16, get_u16,
}
use qsafe.Crypto.{
  Error, Result, ok, err, Primitives, Signatures, sig_sign_buf, sig_verify_buf, frame_nonce,
  qsafe_sig_max_size, aes_gcm_tag_size,
}
use qsafe.Group.State.{
  Sender, Receiver, g_kdf_ck, group_skipped_find, group_skipped_remove, group_skip_loop,
  group_skip_too_far,
}

abbrev pub int32_max : ℕ
int32_max = 2147483647

-- `signbuf`: what the sender signs.
abbrev pub signed_part : Bytes → Bytes → Bytes
signed_part idx ct = idx ++ ct

-- Frame: index(4) | u16 siglen | sig | ct+tag
unfoldable pub group_frame : ℕ → Bytes → Bytes → Bytes
group_frame index sig ct = put_u32 index ++ (put_u16 (length sig) ++ (sig ++ ct))

-- Sign and assemble.
unfoldable pub sign_frame : Signatures → ℕ → Sender → Bytes → Result Bytes
unfolding group_frame sig_sign_buf
sign_frame q draw s ct = elim (sig_sign_buf q draw (signed_part (put_u32 s.index) ct) s.sig_sk) [
  | err e ↦ err e
  | ok sig ↦ ok (group_frame s.index sig ct)
]

-- The body under the message key, with its tag at the end.
unfoldable pub group_seal : Primitives → Sender → Bytes → Bytes → Option Bytes
group_seal p s mk pt = elim (p.gcm_seal mk (frame_nonce s.index false) (put_u32 s.index) pt) [
  | none ↦ none
  | some (ct, tag) ↦ some (ct ++ tag)
]

-- The frame and the next chain key.
unfoldable pub seal_frame : Primitives → Signatures → ℕ → Bytes → Sender → Result (Bytes × Bytes)
unfolding group_seal sign_frame
seal_frame p q draw pt s = elim (g_kdf_ck p s.ck) [
  | none ↦ err Error.crypto
  | some (ckn, mk) ↦ elim (group_seal p s mk pt) [
    | none ↦ err Error.crypto
    | some ct ↦ elim (sign_frame q draw s ct) [ err e ↦ err e | ok frame ↦ ok (frame, ckn) ]
  ]
]

-- The chain advances only when the frame is complete.
unfoldable pub advance_sender : Sender → Result (Bytes × Bytes) → Result Bytes × Sender
advance_sender s (err e) = (err e, s)
advance_sender s (ok (frame, ckn)) =
    (ok frame, record s { index = (s.index + 1) % 2 ^ 32; ck = ckn })

unfoldable pub group_encrypt : Primitives → Signatures → ℕ → Bytes → Sender → Result Bytes × Sender
unfolding seal_frame advance_sender
group_encrypt p q draw pt s =
    if ltb int32_max (length pt)
    then (err Error.invalid_input, s)
    else advance_sender s (seal_frame p q draw pt s)

-- A message key that was found, the working copy, and the place of the stored entry it came from
-- (`from_skip` and `hit`).
pub record Located : Type 0 where
  pub mk : Bytes
  pub copy : Receiver
  pub hit : Option ℕ

-- An earlier message: its stored key, or a replay.
unfoldable pub locate_stored : ℕ → Receiver → Result Located
locate_stored index w = elim (group_skipped_find w.skipped index) [
  | none ↦ err Error.integrity
  | some (i, e) ↦ ok (record { mk = e.mk; copy = w; hit = some i })
]

-- The working copy has reached the message: take its key.
unfoldable pub take_key : Primitives → ℕ → Option Receiver → Result Located
take_key p index none = err Error.crypto
take_key p index (some w) = elim (g_kdf_ck p w.ck) [
  | none ↦ err Error.crypto
  | some (ckn, mk) ↦
      ok
        (record { mk = mk; copy = record w { ck = ckn; index = (index + 1) % 2 ^ 32 }; hit = none })
]

unfoldable pub locate : Primitives → ℕ → Receiver → Result Located
unfolding locate_stored take_key
locate p index w =
    if ltb index w.index
    then locate_stored index w
    else if group_skip_too_far w index
    then err Error.invalid_input
    else take_key p index (group_skip_loop p (index - w.index) w)

abbrev pub drop_hit : Option ℕ → Receiver → Receiver
drop_hit none w = w
drop_hit (some i) w = record w { skipped = group_skipped_remove w.skipped i }

-- Open under the message key; only then the working copy is committed.
unfoldable pub open_located :
    Primitives → ℕ → Bytes → Bytes → Receiver → Result Located → Result Bytes × Receiver
open_located p index idx ct r (err e) = (err e, r)
open_located p index idx ct r (ok l) =
    elim (p.gcm_open l.mk (frame_nonce index false) idx (take body ct) (drop body ct)) [
      | none ↦ (err Error.integrity, r)
      | some pt ↦ (ok pt, drop_hit l.hit l.copy)
    ]
  where
    body : ℕ
    body = length ct - aes_gcm_tag_size

-- The signature decides before a key is looked for.
unfoldable pub open_frame :
    Primitives → Signatures → ℕ → Bytes → Bytes → Bytes → Receiver → Result Bytes × Receiver
unfolding open_located locate sig_verify_buf
open_frame p q index idx sig ct r = elim (sig_verify_buf q (signed_part idx ct) sig r.sig_pk) [
  | err e ↦ (err Error.integrity, r)
  | ok u ↦ open_located p index idx ct r (locate p index r)
]

-- The sizes of a frame that is too short.
unfoldable pub frame_too_short : Bytes → Bool
frame_too_short frame =
    ltb (length frame) 6
    || (ltb qsafe_sig_max_size (get_u16 (drop 4 frame))
        || ltb (length frame) (4 + 2 + get_u16 (drop 4 frame) + aes_gcm_tag_size))

unfoldable pub group_decrypt : Primitives → Signatures → Bytes → Receiver → Result Bytes × Receiver
unfolding open_frame frame_too_short
group_decrypt p q frame r =
    let siglen = get_u16 (drop 4 frame) in
    if frame_too_short frame
    then (err Error.invalid_input, r)
    else open_frame p q (get_u32 frame) (take 4 frame) (take siglen (drop 6 frame))
        (drop siglen (drop 6 frame)) r
