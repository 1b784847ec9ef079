-- ===== src/Ratchet/Frames.antt =====
-- The frames of one chain of ratchet.c: what was sealed opens, and where `ratchet_decrypt` takes it.
use qsafe.Base.{
  ℕ, zero, suc, ◌-◌, ◌≡◌, inl, inr, refl, ◌∙◌, ap, ap₂, subst, true, false, none, some, [], ◌∷◌,
  ◌++◌, append-nil, length, length-append, take, take-append_length, drop-append_length, Bytes,
  bytes_eq_refl, Option-cases, IsU32, put_u32, length-put_u32, arith,
}
use qsafe.Crypto.{ok, Primitives, IsAead, frame_nonce}
use qsafe.Ratchet.State.{SkippedKey, Session, >>=-ok}
use qsafe.Ratchet.Header.{hdr_build, hdr_parse, ratchet_hdr_size_of, type_classical, parse-build}
use qsafe.Ratchet.Skip.{find_entry, skipped_find}
use qsafe.Ratchet.Step.{Draws}
use qsafe.Ratchet.Message.{seal_body, open_with_mk, new_epoch, header_fits}
use qsafe.Ratchet.InPlace.{
  receive_message_in_place, receive_skipped_in_place, decrypt_fields_in_place,
  decrypt_copy_in_place,
}

-- What was sealed for message n opens as message n.
pub open-seal :
    (p : Primitives) (mk : Bytes) (n : ℕ) (hdr pt : Bytes) {out : Bytes}
    → IsAead p
    → seal_body p mk n hdr pt ≡ some out
    → open_with_mk p mk n hdr out ≡ ok pt
unfolding seal_body open_with_mk
open-seal p mk n hdr pt {out} aead e =
    elim (Option-cases (p.gcm_seal mk (frame_nonce n false) hdr pt)) [
      | inl failed ↦ absurd (ground arith)
      | inr ((ct, tag), sealed) ↦
          let size = aead.tag_size mk (frame_nonce n false) hdr pt ct tag sealed in
          let opened = aead.open_seal mk (frame_nonce n false) hdr pt ct tag sealed in
          let whole : out ≡ ct ++ tag = ground arith in
          let body : length (ct ++ tag) - 16 ≡ length ct = omega (arith, length-append ct tag) in
          rw
            (
              whole,
              body,
              take-append_length ct tag (length ct) refl,
              drop-append_length ct tag (length ct) refl,
              opened,
            )
            (ground (arith, length-append ct tag))
    ]

-- The header of message n in the chain of `dh`.
abbrev pub chain_header : Bytes → ℕ → ℕ → Bytes
chain_header dh pn n = hdr_build type_classical dh pn n

take_all : (xs : Bytes) (n : ℕ) → length xs ≡ n → take n xs ≡ xs
take_all [] zero h = refl
take_all [] (suc n) h = refl
take_all (x ∷ xs) zero h = absurd (omega arith)
take_all (x ∷ xs) (suc n) h = ap (◌∷◌ x) (take_all xs n (omega arith))

module _ (dh : Bytes) (pn n : ℕ) (size : length dh ≡ 32) (hp : IsU32 pn) (hn : IsU32 n) where
  pub parsed : hdr_parse (chain_header dh pn n) ≡ (dh, pn, n)
  parsed =
      subst (λ t. hdr_parse t ≡ (dh, pn, n)) (append-nil (chain_header dh pn n))
        (parse-build type_classical dh pn n [] size hp hn).0

  pub aad :
      take (ratchet_hdr_size_of (chain_header dh pn n)) (chain_header dh pn n)
      ≡ chain_header dh pn n
  unfolding ratchet_hdr_size_of hdr_build
  aad = take_all _ 42 (
      omega (
        arith,
        length-append dh (put_u32 pn ++ put_u32 n),
        length-append (put_u32 pn) (put_u32 n),
        length-put_u32 pn,
        length-put_u32 n,
      ))

  pub fits : (s : Session) → s.pq ≡ false → header_fits s (chain_header dh pn n) ≡ true
  unfolding header_fits hdr_build
  fits s h = ground arith

  module _ (p : Primitives) (draws : Draws) (ct : Bytes) (s : Session) where
    pub with_fields :
        decrypt_copy_in_place p draws (chain_header dh pn n) ct s
        ≡ decrypt_fields_in_place p draws
            (chain_header dh pn n)
            (chain_header dh pn n)
            ct
            (dh, pn, n)
            s
    unfolding decrypt_copy_in_place
    with_fields =
        ap₂ (λ a f. decrypt_fields_in_place p draws (chain_header dh pn n) a ct f s) aad parsed

    pub same_epoch :
        (hdr : Bytes) → s.have_dhr ≡ true → s.dhr ≡ dh → new_epoch p draws hdr dh pn s ≡ (ok tt, s)
    unfolding new_epoch
    same_epoch hdr known peer = ground (arith, bytes_eq_refl dh)

    -- A message of the current chain goes on along the chain, if its key is not stored.
    pub decrypt_fresh :
        s.have_dhr ≡ true
        → s.dhr ≡ dh
        → find_entry dh n s.skipped ≡ none
        → decrypt_copy_in_place p draws (chain_header dh pn n) ct s
          ≡ receive_message_in_place p n (chain_header dh pn n) ct s
    unfolding decrypt_fields_in_place skipped_find
    decrypt_fresh known peer missing =
        with_fields
        ∙ rw (missing, decrypt_fields_in_place)
            (>>=-ok (new_epoch p draws (chain_header dh pn n) dh pn) _
              (same_epoch (chain_header dh pn n) known peer))

    -- A message whose key is stored is opened with it.
    pub decrypt_stored :
        {i : ℕ} {e : SkippedKey}
        → find_entry dh n s.skipped ≡ some (i, e)
        → decrypt_copy_in_place p draws (chain_header dh pn n) ct s
          ≡ receive_skipped_in_place p i e (chain_header dh pn n) ct s
    unfolding decrypt_fields_in_place skipped_find
    decrypt_stored found = with_fields ∙ rw (found, decrypt_fields_in_place) refl
