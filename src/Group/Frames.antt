-- ===== src/Group/Frames.antt =====
-- The frames of group.c: their parts, what one call of `group_encrypt` made, and how a frame opens.
use qsafe.Base.{
  ℕ, ◌+◌, ◌-◌, ◌%◌, ◌^◌, ◌≤◌, ◌≡◌, refl, ◌∙◌, ap, ap₂, true, false, some, ◌++◌, length,
  length-append, take, drop, take-append_length, drop-append_length, drop-append_past, Bytes,
  Option-cases, inl, inr, arith, put_u32, get_u32, put_u16, get_u16, get_u32-put_u32,
  get_u16-put_u16, length-put_u32, IsU32,
}
use qsafe.Crypto.{
  ok, Primitives, Signatures, sig_sign_buf, sig_verify_buf, frame_nonce, qsafe_sig_max_size,
}
use qsafe.Group.State.{Sender, Receiver, g_kdf_ck}
use qsafe.Group.Message.{
  Located, locate, drop_hit, group_frame, sign_frame, group_seal, seal_frame, advance_sender,
  group_encrypt, open_located, open_frame, frame_too_short, group_decrypt,
}

-- The parts of a frame that was built.
pub record Parts (index : ℕ) (sig ct frame : Bytes) : Type 0 where
  pub whole : frame_too_short frame ≡ false
  pub is_index : get_u32 frame ≡ index
  pub is_idx : take 4 frame ≡ put_u32 index
  pub is_sig : take (get_u16 (drop 4 frame)) (drop 6 frame) ≡ sig
  pub is_ct : drop (get_u16 (drop 4 frame)) (drop 6 frame) ≡ ct

pub length-put_u16 : (v : ℕ) → length (put_u16 v) ≡ 2
unfolding put_u16
length-put_u16 v = refl

pub group_frame-Parts :
    (index : ℕ) (sig ct : Bytes)
    → IsU32 index
    → length sig ≤ qsafe_sig_max_size
    → 16 ≤ length ct
    → Parts index sig ct (group_frame index sig ct)
unfolding group_frame frame_too_short
group_frame-Parts index sig ct small short long =
    let tail = put_u16 (length sig) ++ (sig ++ ct) in
    let at_four : drop 4 (put_u32 index ++ tail) ≡ tail =
      drop-append_length (put_u32 index) tail 4 (length-put_u32 index) in
    let at_six : drop 6 (put_u32 index ++ tail) ≡ sig ++ ct =
      drop-append_past (put_u32 index) tail 6 2 (omega (arith, length-put_u32 index))
      ∙ drop-append_length (put_u16 (length sig)) (sig ++ ct) 2 (length-put_u16 (length sig)) in
    let size : get_u16 (drop 4 (put_u32 index ++ tail)) ≡ length sig =
      ap get_u16 at_four ∙ get_u16-put_u16 (length sig) (sig ++ ct) (omega arith) in
    let all : length (put_u32 index ++ tail) ≡ 6 + length sig + length ct = omega (
      arith,
      length-append (put_u32 index) tail,
      length-append (put_u16 (length sig)) (sig ++ ct),
      length-append sig ct,
      length-put_u32 index,
      length-put_u16 (length sig),
    ) in
    record {
      whole = ground (arith, size, all);
      is_index = get_u32-put_u32 index tail small;
      is_idx = take-append_length (put_u32 index) tail 4 (length-put_u32 index);
      is_sig = ap₂ take size at_six ∙ take-append_length sig ct (length sig) refl;
      is_ct = ap₂ drop size at_six ∙ drop-append_length sig ct (length sig) refl;
    }

-- What one successful call of `group_encrypt` made.
pub record Sent (p : Primitives) (q : Signatures) (draw : ℕ) (pt frame : Bytes) (s s' : Sender)
    : Type 0 where
  pub ckn : Bytes
  pub mk : Bytes
  pub body : Bytes
  pub tag : Bytes
  pub sig : Bytes
  pub derived : g_kdf_ck p s.ck ≡ some (ckn, mk)
  pub sealed : p.gcm_seal mk (frame_nonce s.index false) (put_u32 s.index) pt ≡ some (body, tag)
  pub signed : q.sig_sign draw (put_u32 s.index ++ (body ++ tag)) s.sig_sk ≡ some sig
  pub is_frame : frame ≡ group_frame s.index sig (body ++ tag)
  pub left : s' ≡ record s { index = (s.index + 1) % 2 ^ 32; ck = ckn }

pub encrypt-Sent :
    (p : Primitives) (q : Signatures) (draw : ℕ) (pt : Bytes) (s : Sender) {frame : Bytes}
    {s' : Sender}
    → group_encrypt p q draw pt s ≡ (ok frame, s')
    → Sent p q draw pt frame s s'
unfolding group_encrypt seal_frame advance_sender group_seal sign_frame sig_sign_buf
encrypt-Sent p q draw pt s {frame} {s'} e = elim (Option-cases (g_kdf_ck p s.ck)) [
  | inl failed ↦ absurd (ground arith)
  | inr ((ckn, mk), derived) ↦
      elim (Option-cases (p.gcm_seal mk (frame_nonce s.index false) (put_u32 s.index) pt)) [
        | inl failed ↦ absurd (ground arith)
        | inr ((body, tag), sealed) ↦
            elim (Option-cases (q.sig_sign draw (put_u32 s.index ++ (body ++ tag)) s.sig_sk)) [
              | inl failed ↦ absurd (ground arith)
              | inr (sig, signed) ↦ record {
                ckn = ckn;
                mk = mk;
                body = body;
                tag = tag;
                sig = sig;
                derived = derived;
                sealed = sealed;
                signed = signed;
                is_frame = ground arith;
                left = ground arith;
              }
            ]
      ]
]

-- A frame whose parts are known is opened with the key that is found.
pub decrypt-Parts :
    (p : Primitives) (q : Signatures) (index : ℕ) (sig ct frame : Bytes) (r : Receiver)
    → Parts index sig ct frame
    → group_decrypt p q frame r ≡ open_frame p q index (put_u32 index) sig ct r
unfolding group_decrypt
decrypt-Parts p q index sig ct frame r parts =
    rw (parts.whole, parts.is_index, parts.is_idx, parts.is_sig, parts.is_ct) refl

pub open_frame-verified :
    (p : Primitives) (q : Signatures) (index : ℕ) (idx sig ct : Bytes) (r : Receiver)
    → q.sig_verify (idx ++ ct) sig r.sig_pk ≡ true
    → open_frame p q index idx sig ct r ≡ open_located p index idx ct r (locate p index r)
unfolding open_frame sig_verify_buf
open_frame-verified p q index idx sig ct r verified = ground (arith, verified)

pub open_located-opens :
    (p : Primitives) (index : ℕ) (idx body tag pt : Bytes) (r : Receiver) (l : Located)
    → length tag ≡ 16
    → p.gcm_open l.mk (frame_nonce index false) idx body tag ≡ some pt
    → open_located p index idx (body ++ tag) r (ok l) ≡ (ok pt, drop_hit l.hit l.copy)
unfolding open_located
open_located-opens p index idx body tag pt r l size opened =
    let cut : length (body ++ tag) - 16 ≡ length body = omega (arith, length-append body tag) in
    rw
      (
        open_located,
        cut,
        take-append_length body tag (length body) refl,
        drop-append_length body tag (length body) refl,
        opened,
      )
      refl
