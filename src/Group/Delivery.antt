-- ===== src/Group/Delivery.antt =====
-- Messages of one sender of group.c at a receiver: what is sent arrives, in any order, and what is
-- accepted was signed and is accepted once.
use qsafe.Base.{
  ℕ, ◌+◌, ◌-◌, ◌^◌, ◌≤◌, ◌<◌, ◌≡◌, refl, ◌∙◌, sym, ap, subst, true, false, some, some_inj, ◌++◌,
  ◌==◌, if◌then◌else◌, length, length-append, take, drop, Bytes, Bool-cases, Option-cases, inl, inr,
  arith, put_u32, get_u32, get_u16,
}
use qsafe.Crypto.{
  Result, ok, err, Primitives, Signatures, IsAead, IsSigner, sig_verify_buf, frame_nonce,
}
use qsafe.Ratchet.Chain.{chain_key, message_key, step-chain_key}
use qsafe.Group.State.{Sender, Receiver, group_skip_too_far}
use qsafe.Group.Message.{
  Located, locate, drop_hit, group_encrypt, open_located, open_frame, group_decrypt,
}
use qsafe.Group.Chain.{GroupComputes, group_awaits, Tracks, locate_awaited, locate_spent}
use qsafe.Group.Frames.{
  group_frame-Parts, encrypt-Sent, decrypt-Parts, open_frame-verified, open_located-opens,
}

-- What a sender sends arrives. Let HKDF, AES-GCM and ML-DSA behave as documented. Let the sender, with
-- its own ML-DSA key pair, stand at message `index` of a chain, not the last of the 32 bits, and let the receiver hold its public key, follow the chain and still await
-- that message, within the skip limits. When `group_encrypt` succeeds, the sender stands at the next
-- message, and `group_decrypt` gives back the plaintext and leaves a receiver that follows the chain
-- on, no longer awaits this message, and awaits every other as before.
pub group_decrypt-encrypt :
    (p : Primitives) (q : Signatures) (step : Bytes → Bytes × Bytes) (ck₀ : Bytes)
    (key_draw draw : ℕ) (pt frame : Bytes) (s s' : Sender) (r : Receiver)
    → IsAead p
    → IsSigner q
    → GroupComputes p step
    → q.sig_keypair key_draw ≡ some (s.sig_pk, s.sig_sk)
    → s.ck ≡ chain_key step ck₀ s.index
    → s.index + 1 < 2 ^ 32
    → r.sig_pk ≡ s.sig_pk
    → Tracks step ck₀ r
    → group_awaits r s.index ≡ true
    → (r.index ≤ s.index → group_skip_too_far r s.index ≡ false)
    → group_encrypt p q draw pt s ≡ (ok frame, s')
    → (s'.index ≡ s.index + 1)
      × (s'.ck ≡ chain_key step ck₀ s'.index)
      × (r' : Receiver) × (group_decrypt p q frame r ≡ (ok pt, r'))
      × Tracks step ck₀ r'
      × (r'.sig_pk ≡ s.sig_pk)
      × ((m : ℕ) → group_awaits r' m ≡ (if m == s.index then false else group_awaits r m))
group_decrypt-encrypt p q step ck₀ key_draw draw pt frame s s' r aead signer computes own at lt
      same_pk t waits near e =
    let d = encrypt-Sent p q draw pt s e in
    let keys : (d.ckn, d.mk) ≡ (chain_key step ck₀ (s.index + 1), message_key step ck₀ s.index) =
      some_inj (sym d.derived ∙ computes s.ck) ∙ ap step at ∙ step-chain_key step ck₀ s.index in
    let next : s'.index ≡ s.index + 1 = ap (λ (x : Sender). x.index) d.left ∙ omega arith in
    let (l, found, f) = locate_awaited step ck₀ p computes s.index r t lt waits near in
    let mk_is : d.mk ≡ l.mk = ap (λ (k : Bytes × Bytes). k.1) keys ∙ sym f.is_key in
    let tag_size =
      aead.tag_size d.mk (frame_nonce s.index false) (put_u32 s.index) pt d.body d.tag d.sealed in
    let opened : p.gcm_open l.mk (frame_nonce s.index false) (put_u32 s.index) d.body d.tag
        ≡ some pt =
      ap (λ m. p.gcm_open m (frame_nonce s.index false) (put_u32 s.index) d.body d.tag) (sym mk_is)
      ∙ aead.open_seal d.mk (frame_nonce s.index false) (put_u32 s.index) pt d.body d.tag
          d.sealed in
    let verified : q.sig_verify (put_u32 s.index ++ (d.body ++ d.tag)) d.sig r.sig_pk ≡ true =
      ap (q.sig_verify (put_u32 s.index ++ (d.body ++ d.tag)) d.sig) same_pk
      ∙ signer.verify_sign key_draw draw s.sig_pk s.sig_sk _ d.sig own d.signed in
    let parts =
      group_frame-Parts s.index d.sig (d.body ++ d.tag) (omega arith)
        (signer.sig_size draw _ s.sig_sk d.sig d.signed)
        (omega (arith, length-append d.body d.tag, tag_size)) in
    (
      next,
      ap (λ (x : Sender). x.ck) d.left
          ∙ ap (λ (k : Bytes × Bytes). k.0) keys
          ∙ ap (chain_key step ck₀) (sym next),
      drop_hit l.hit l.copy,
      ap (λ x. group_decrypt p q x r) d.is_frame
          ∙ decrypt-Parts p q s.index d.sig (d.body ++ d.tag) _ r parts
          ∙ open_frame-verified p q s.index (put_u32 s.index) d.sig (d.body ++ d.tag) r verified
          ∙ ap (open_located p s.index (put_u32 s.index) (d.body ++ d.tag) r) found
          ∙ open_located-opens p s.index (put_u32 s.index) d.body d.tag pt r l tag_size opened,
      f.follows,
      f.same_pk ∙ same_pk,
      f.rest,
    )

-- What an accepted frame shows.
record Accepted (p : Primitives) (q : Signatures) (frame pt : Bytes) (r r' : Receiver)
    : Type 0 where
  found : Located
  verified :
      q.sig_verify
        (take 4 frame ++ drop (get_u16 (drop 4 frame)) (drop 6 frame))
        (take (get_u16 (drop 4 frame)) (drop 6 frame))
        r.sig_pk
      ≡ true
  located : locate p (get_u32 frame) r ≡ ok found
  committed : r' ≡ drop_hit found.hit found.copy

open_located-Accepted :
    (p : Primitives) (index : ℕ) (idx ct : Bytes) (r r' : Receiver) {pt : Bytes}
    (o : Result Located)
    → open_located p index idx ct r o ≡ (ok pt, r')
    → (l : Located) × (o ≡ ok l) × (r' ≡ drop_hit l.hit l.copy)
unfolding open_located
open_located-Accepted p index idx ct r r' (err x) e = cc
open_located-Accepted p index idx ct r r' (ok l) e =
    let body = length ct - 16 in
    elim (Option-cases
      (p.gcm_open l.mk (frame_nonce index false) idx (take body ct) (drop body ct))) [
        | inl failed ↦ absurd (ground arith)
        | inr (pt', opened) ↦ (l, refl, ground arith)
      ]

decrypt-Accepted :
    (p : Primitives) (q : Signatures) (frame pt : Bytes) (r r' : Receiver)
    → group_decrypt p q frame r ≡ (ok pt, r')
    → Accepted p q frame pt r r'
unfolding group_decrypt open_frame sig_verify_buf
decrypt-Accepted p q frame pt r r' e =
    let siglen = get_u16 (drop 4 frame) in
    let ct = drop siglen (drop 6 frame) in
    let verified : q.sig_verify (take 4 frame ++ ct) (take siglen (drop 6 frame)) r.sig_pk ≡ true =
      ground (
        arith,
        Bool-cases (q.sig_verify (take 4 frame ++ ct) (take siglen (drop 6 frame)) r.sig_pk),
      ) in
    let opened : open_located p (get_u32 frame) (take 4 frame) ct r (locate p (get_u32 frame) r)
        ≡ (ok pt, r') =
      ground (arith, verified) in
    let (l, located, committed) =
      open_located-Accepted p (get_u32 frame) (take 4 frame) ct r r' (locate p (get_u32 frame) r)
        opened in
    record { found = l; verified = verified; located = located; committed = committed }

located_near :
    (p : Primitives) (n : ℕ) (r : Receiver) {l : Located}
    → locate p n r ≡ ok l
    → r.index ≤ n
    → group_skip_too_far r n ≡ false
unfolding locate
located_near p n r e le = ground (arith, Bool-cases (group_skip_too_far r n))

located_awaited :
    (p : Primitives) (n : ℕ) (r : Receiver) {l : Located}
    → locate p n r ≡ ok l
    → group_awaits r n ≡ true
located_awaited p n r e = elim (Bool-cases (group_awaits r n)) [
  | inl waits ↦ waits
  | inr spent ↦ absurd (cc (locate_spent p n r spent, e))
]

ok_inj : {l l' : Located} → ok l ≡ ok l' → l ≡ l'
ok_inj {l} {l'} e = cc

-- What is accepted was signed, and is accepted once. Let a receiver follow a chain. When
-- `group_decrypt` accepts a frame, whose message number is not the last of the 32 bits, the frame's
-- signature over its number and its body verifies under the receiver's public key, and the receiver
-- still awaited that number; afterwards it follows the chain on, no longer awaits that number, and
-- awaits every other as before.
pub group_decrypt_once :
    (p : Primitives) (q : Signatures) (step : Bytes → Bytes × Bytes) (ck₀ : Bytes)
    (frame pt : Bytes) (r r' : Receiver)
    → GroupComputes p step
    → Tracks step ck₀ r
    → get_u32 frame + 1 < 2 ^ 32
    → group_decrypt p q frame r ≡ (ok pt, r')
    → (q.sig_verify
          (take 4 frame ++ drop (get_u16 (drop 4 frame)) (drop 6 frame))
          (take (get_u16 (drop 4 frame)) (drop 6 frame))
          r.sig_pk
        ≡ true)
      × (group_awaits r (get_u32 frame) ≡ true)
      × Tracks step ck₀ r'
      × ((m : ℕ) → group_awaits r' m ≡ (if m == get_u32 frame then false else group_awaits r m))
group_decrypt_once p q step ck₀ frame pt r r' computes t lt e =
    let n = get_u32 frame in
    let a = decrypt-Accepted p q frame pt r r' e in
    let waits = located_awaited p n r a.located in
    let (l, found, f) =
      locate_awaited step ck₀ p computes n r t lt waits (located_near p n r a.located) in
    let is : drop_hit l.hit l.copy ≡ r' =
      ap (λ (x : Located). drop_hit x.hit x.copy) (ok_inj (sym found ∙ a.located))
      ∙ sym a.committed in
    (
      a.verified,
      waits,
      subst (Tracks step ck₀) is f.follows,
      λ m. ap (λ x. group_awaits x m) (sym is) ∙ f.rest m,
    )
