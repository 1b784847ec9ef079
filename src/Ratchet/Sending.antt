-- ===== src/Ratchet/Sending.antt =====
-- The sending side of ratchet.c and the way to the other end; what a failed call leaves behind.
use qsafe.Base.{
  Bool, not, if◌then◌else◌, ℕ, ◌+◌, ◌%◌, ◌^◌, ◌≤◌, ◌<◌, ◌≡◌, refl, ◌∙◌, sym, ap, ap₂, some_inj,
  take, true, false, none, some, length, Bytes, Option-cases, inl, inr, IsU32, arith,
}
use qsafe.Crypto.{Error, Result, ok, err, Primitives, IsAead}
use qsafe.Ratchet.State.{Session}
use qsafe.Ratchet.Kdf.{kdf_ck}
use qsafe.Ratchet.Skip.{skip_too_far}
use qsafe.Ratchet.Step.{Draws}
use qsafe.Ratchet.Message.{
  header_fits, seal_body, message_header, ratchet_encrypt, int32_max, message_type,
}
use qsafe.Ratchet.Decrypt.{ratchet_decrypt}
use qsafe.Ratchet.InPlace.{
  commit, decrypt_copy_in_place, decrypt_copy_he_in_place, ratchet_decrypt-commit,
}
use qsafe.Ratchet.Chain.{Computes, chain_key, message_key, step-chain_key, Follows}
use qsafe.Ratchet.Frames.{chain_header}
use qsafe.Ratchet.Delivery.{awaits, decrypt-delivers}

-- The header of a session without post-quantum part.
clear_header : (s : Session) → s.pq ≡ false → message_header s ≡ chain_header s.dhs_pub s.pn s.ns
unfolding message_header message_type
clear_header s h = ground arith

-- What one successful call of `ratchet_encrypt` made.
record Sealed (p : Primitives) (s : Session) (pt hdr out : Bytes) (s' : Session) : Type 0 where
  ck : Bytes
  mk : Bytes
  derived : kdf_ck p s.cks ≡ some (ck, mk)
  is_header : hdr ≡ message_header s
  sealed : seal_body p mk s.ns (message_header s) pt ≡ some out
  left : s' ≡ record s { cks = ck; ns = (s.ns + 1) % 2 ^ 32 }

encrypt-Sealed :
    (p : Primitives) (draw : ℕ) (pt : Bytes) (s : Session) {hdr out : Bytes} {s' : Session}
    → s.he ≡ false
    → ratchet_encrypt p draw pt s ≡ (ok (hdr, out), s')
    → Sealed p s pt hdr out s'
unfolding ratchet_encrypt
encrypt-Sealed p draw pt s {hdr} {out} {s'} clear e = elim (Option-cases (kdf_ck p s.cks)) [
  | inl failed ↦ absurd (ground arith)
  | inr ((ck, mk), derived) ↦ elim (Option-cases (seal_body p mk s.ns (message_header s) pt)) [
    | inl failed ↦ absurd (ground arith)
    | inr (body, sealed) ↦ record {
      ck = ck;
      mk = mk;
      derived = derived;
      is_header = ground arith;
      sealed = ground arith;
      left = ground arith;
    }
  ]
]

-- A message that one side encrypts is decrypted by the other. Let both be classical sessions
-- without header encryption, the sender at message ns, not the last of the 32 bits, of the chain that
-- the receiver follows, with HKDF and AES-GCM as documented, and let the receiver still await that message, within its skip limits. When `ratchet_encrypt`
-- succeeds, the sender stands at the next message of the chain, and `ratchet_decrypt` gives back
-- the plaintext and leaves a session that follows the chain on.
pub decrypt-encrypt :
    (p : Primitives) (step : Bytes → Bytes × Bytes) (ck₀ : Bytes) (draw : ℕ) (draws : Draws)
    (pt hdr out : Bytes) (s s' r : Session)
    → IsAead p
    → Computes p step
    → s.he ≡ false
    → s.pq ≡ false
    → s.cks ≡ chain_key step ck₀ s.ns
    → length s.dhs_pub ≡ 32
    → IsU32 s.pn
    → s.ns + 1 < 2 ^ 32
    → Follows step ck₀ s.dhs_pub r
    → awaits s.dhs_pub r s.ns ≡ true
    → (r.nr ≤ s.ns → skip_too_far r s.ns ≡ false)
    → ratchet_encrypt p draw pt s ≡ (ok (hdr, out), s')
    → (s'.ns ≡ s.ns + 1)
      × (s'.cks ≡ chain_key step ck₀ s'.ns)
      × (r' : Session) × (ratchet_decrypt p draws hdr out r ≡ (ok pt, r'))
      × Follows step ck₀ s.dhs_pub r'
decrypt-encrypt p step ck₀ draw draws pt hdr out s s' r aead computes clear classical at size hp lt
      f waits near e =
    let d = encrypt-Sealed p draw pt s clear e in
    let keys : (d.ck, d.mk) ≡ (chain_key step ck₀ (s.ns + 1), message_key step ck₀ s.ns) =
      some_inj (sym d.derived ∙ computes s.cks) ∙ ap step at ∙ step-chain_key step ck₀ s.ns in
    let mk_is : d.mk ≡ message_key step ck₀ s.ns = ap (λ (t : Bytes × Bytes). t.1) keys in
    let ck_is : d.ck ≡ chain_key step ck₀ (s.ns + 1) = ap (λ (t : Bytes × Bytes). t.0) keys in
    let hdr_is : message_header s ≡ chain_header s.dhs_pub s.pn s.ns = clear_header s classical in
    let next : s'.ns ≡ s.ns + 1 = ap (λ (t : Session). t.ns) d.left ∙ omega arith in
    let sealed : seal_body p (message_key step ck₀ s.ns) s.ns (chain_header s.dhs_pub s.pn s.ns) pt
        ≡ some out =
      ap₂ (λ m h. seal_body p m s.ns h pt) (sym mk_is) (sym hdr_is) ∙ d.sealed in
    let (r', run, follows, _) =
      decrypt-delivers p aead step computes ck₀ s.dhs_pub s.ns s.pn draws out pt r size hp lt f
        waits near sealed in
    (
      next,
      ap (λ (t : Session). t.cks) d.left ∙ ck_is ∙ ap (chain_key step ck₀) (sym next),
      r',
      ap (λ h. ratchet_decrypt p draws h out r) (d.is_header ∙ hdr_is) ∙ run,
      follows,
    )

commit_atomic :
    {A : Type 0} (s : Session) (r : Result A × Session) {e : Error}
    → (commit s r).0 ≡ err e
    → (commit s r).1 ≡ s
unfolding commit
commit_atomic s (ok a, w) h = cc
commit_atomic s (err e, w) h = refl

branches :
    (he fits : Bool) (s : Session) {x y : Result Bytes × Session} {e : Error}
    → (x.0 ≡ err e → x.1 ≡ s)
    → (y.0 ≡ err e → y.1 ≡ s)
    → (if he then x else if not fits then (err Error.invalid_input, s) else y).0 ≡ err e
    → (if he then x else if not fits then (err Error.invalid_input, s) else y).1 ≡ s
branches true fits s hx hy h = hx h
branches false true s hx hy h = hy h
branches false false s hx hy h = refl

-- A refused message changes nothing: when `ratchet_decrypt` returns any error, with or without
-- header encryption and post-quantum part, the session is the one before the call.
pub decrypt_atomic :
    (p : Primitives) (draws : Draws) (hdr ct : Bytes) (s : Session) {e : Error}
    → (ratchet_decrypt p draws hdr ct s).0 ≡ err e
    → (ratchet_decrypt p draws hdr ct s).1 ≡ s
decrypt_atomic p draws hdr ct s {e} h =
    let seen = ratchet_decrypt-commit p draws hdr ct s in
    ap (λ (r : Result Bytes × Session). r.1) seen
    ∙ branches s.he (header_fits s hdr) s
        (commit_atomic s (decrypt_copy_he_in_place p draws (take 68 hdr) ct s))
        (commit_atomic s (decrypt_copy_in_place p draws hdr ct s))
        (sym (ap (λ (r : Result Bytes × Session). r.0) seen) ∙ h)

failed_seal :
    (p : Primitives) (draw : ℕ) (pt : Bytes) (s : Session) {ck mk : Bytes}
    → s.he ≡ false
    → s.have_cks ≡ true
    → length pt ≤ int32_max
    → kdf_ck p s.cks ≡ some (ck, mk)
    → seal_body p mk s.ns (message_header s) pt ≡ none
    → ratchet_encrypt p draw pt s ≡ (err Error.crypto, record s { cks = ck })
unfolding ratchet_encrypt
failed_seal p draw pt s clear ready fits derived failed = ground arith

-- A failed seal desynchronises the sender. Let a classical session without header encryption stand
-- at message ns of a chain, and let AES-GCM fail on its next plaintext. `ratchet_encrypt` returns
-- the crypto error, and when a call on the session that it leaves succeeds, that message has the
-- number ns in its header but is sealed with the key of message ns + 1.
pub encrypt_failed_seal :
    (p : Primitives) (step : Bytes → Bytes × Bytes) (ck₀ : Bytes) (draw draw' : ℕ)
    (pt pt' hdr out : Bytes) (s s' : Session)
    → Computes p step
    → s.he ≡ false
    → s.pq ≡ false
    → s.have_cks ≡ true
    → s.cks ≡ chain_key step ck₀ s.ns
    → length pt ≤ int32_max
    → seal_body p (message_key step ck₀ s.ns) s.ns (chain_header s.dhs_pub s.pn s.ns) pt ≡ none
    → ratchet_encrypt p draw' pt' (ratchet_encrypt p draw pt s).1 ≡ (ok (hdr, out), s')
    → ((ratchet_encrypt p draw pt s).0 ≡ err Error.crypto)
      × (hdr ≡ chain_header s.dhs_pub s.pn s.ns)
      × (seal_body p (message_key step ck₀ (s.ns + 1)) s.ns hdr pt' ≡ some out)
encrypt_failed_seal p step ck₀ draw draw' pt pt' hdr out s s' computes clear classical ready at fits
      failed e =
    let derived : kdf_ck p s.cks ≡ some (chain_key step ck₀ (s.ns + 1), message_key step ck₀ s.ns) =
      computes s.cks ∙ ap (λ k. some (step k)) at ∙ ap some (step-chain_key step ck₀ s.ns) in
    let t = record s { cks = chain_key step ck₀ (s.ns + 1) } in
    let first : ratchet_encrypt p draw pt s ≡ (err Error.crypto, t) =
      failed_seal p draw pt s clear ready fits derived (
        ap (λ h. seal_body p (message_key step ck₀ s.ns) s.ns h pt) (clear_header s classical)
        ∙ failed) in
    let d = encrypt-Sealed p draw' pt' t clear (
      ap (λ (r : Result (Bytes × Bytes) × Session). ratchet_encrypt p draw' pt' r.1) (sym first)
      ∙ e) in
    let keys : (d.ck, d.mk) ≡ step (chain_key step ck₀ (s.ns + 1)) =
      some_inj (sym d.derived ∙ computes t.cks) in
    let mk_is : message_key step ck₀ (s.ns + 1) ≡ d.mk =
      ap (λ (k : Bytes × Bytes). k.1) (sym (keys ∙ step-chain_key step ck₀ (s.ns + 1))) in
    (
      ap (λ (r : Result (Bytes × Bytes) × Session). r.0) first,
      d.is_header ∙ clear_header t classical,
      ap₂ (λ m h. seal_body p m s.ns h pt') mk_is d.is_header ∙ d.sealed,
    )
