-- ===== src/Ratchet/Bootstrap.antt =====
-- The first message of a session of ratchet.c: the chain that the initiator starts is the chain
-- that the responder's first ratchet step derives.
use qsafe.Base.{
  ℕ, ◌≡◌, refl, ◌∙◌, sym, ap, subst, true, false, Option, none, some, [], Bytes, Option-cases, inl,
  inr, arith,
}
use qsafe.Crypto.{Result, ok, err, Primitives, Agrees}
use qsafe.Ratchet.State.{Session, Action, zero_session, continue, ◌>>◌, >>=-ok}
use qsafe.Ratchet.Kdf.{kdf_rk}
use qsafe.Ratchet.Step.{
  Draws, KemHeader, dh_ratchet, receive_kem, receive_chain, rotate_dh, send_kem, send_chain,
}
use qsafe.Ratchet.Init.{ratchet_init_initiator, ratchet_init_responder}
use qsafe.Ratchet.Store.{stored_key, stored_key-nil, Distinct}
use qsafe.Ratchet.Chain.{chain_key, Follows}

-- The parts of the step after the receiving chain leave what that chain needs.
record Same (s s' : Session) : Type 0 where
  same_ckr : s'.ckr ≡ s.ckr
  same_dhr : s'.dhr ≡ s.dhr
  same_have_dhr : s'.have_dhr ≡ s.have_dhr
  same_have_ckr : s'.have_ckr ≡ s.have_ckr
  same_nr : s'.nr ≡ s.nr
  same_pn : s'.pn ≡ s.pn
  same_pq : s'.pq ≡ s.pq
  same_he : s'.he ≡ s.he
  same_skipped : s'.skipped ≡ s.skipped

rotate_dh-Same : (p : Primitives) (draw : ℕ) (s : Session) → Same s (rotate_dh p draw s).1
unfolding rotate_dh
rotate_dh-Same p draw s = ground arith

send_chain-Same : (p : Primitives) (s : Session) → Same s (send_chain p s).1
unfolding send_chain
send_chain-Same p s = ground arith

continue-Same :
    {A B : Type 0} (f : A → Action B) (r : Result A × Session) (s : Session)
    → Same s r.1
    → ((a : A) (t : Session) → Same s t → Same s (f a t).1)
    → Same s (continue f r).1
continue-Same f (ok a, t) s same next = next a t same
continue-Same f (err e, t) s same next = same

Same-trans : {s t u : Session} → Same s t → Same t u → Same s u
Same-trans a b = record {
  same_ckr = b.same_ckr ∙ a.same_ckr;
  same_dhr = b.same_dhr ∙ a.same_dhr;
  same_have_dhr = b.same_have_dhr ∙ a.same_have_dhr;
  same_have_ckr = b.same_have_ckr ∙ a.same_have_ckr;
  same_nr = b.same_nr ∙ a.same_nr;
  same_pn = b.same_pn ∙ a.same_pn;
  same_pq = b.same_pq ∙ a.same_pq;
  same_he = b.same_he ∙ a.same_he;
  same_skipped = b.same_skipped ∙ a.same_skipped;
}

send_kem-classical :
    (p : Primitives) (draws : Draws) (s : Session) → s.pq ≡ false → send_kem p draws s ≡ (ok tt, s)
unfolding send_kem
send_kem-classical p draws s classical = ground arith

abbrev sending_half : Primitives → Draws → Action (Unit {0})
sending_half p draws = do rotate_dh p draws.dh; send_kem p draws; send_chain p

-- The sending half of a classical step.
sending_half-Same :
    (p : Primitives) (draws : Draws) (s : Session)
    → s.pq ≡ false
    → Same s (sending_half p draws s).1
sending_half-Same p draws s classical =
    continue-Same (λ _. send_kem p draws >> send_chain p) (rotate_dh p draws.dh s) s
      (rotate_dh-Same p draws.dh s)
      λ a t same.
        continue-Same (λ _. send_chain p) (send_kem p draws t) s
          (subst (λ (r : Result (Unit {0}) × Session). Same s r.1)
            (sym (send_kem-classical p draws t (same.same_pq ∙ classical))) same)
          λ b u same'. Same-trans same' (send_chain-Same p u)

abbrev at_epoch : Bytes → Session → Session
at_epoch dh s = record s { pn = s.ns; ns = 0; nr = 0; dhr = dh; have_dhr = true }

abbrev with_chain : Bytes → Bytes → Session → Session
with_chain rk ck s = record s { rk = rk; ckr = ck; have_ckr = true }

receive_kem-classical :
    (p : Primitives) (full : Option KemHeader) (s : Session)
    → s.pq ≡ false
    → receive_kem p full s ≡ (ok tt, s)
unfolding receive_kem
receive_kem-classical p none s classical = refl
receive_kem-classical p (some h) s classical = ground arith

receive_chain-run :
    (p : Primitives) (s : Session) {dh_out rk ck nhk : Bytes}
    → s.kem.have_kss_recv ≡ false
    → p.x25519_dh s.dhs_sec s.dhr ≡ some dh_out
    → kdf_rk p s.rk dh_out none false ≡ some (rk, ck, nhk)
    → receive_chain p s ≡ (ok tt, with_chain rk ck s)
unfolding receive_chain
receive_chain-run p s no_kss shared derived = ground arith

dh_ratchet-run :
    (p : Primitives) (draws : Draws) (dh : Bytes) (full : Option KemHeader) (s : Session)
    {dh_out rk ck nhk : Bytes}
    → s.pq ≡ false
    → s.kem.have_kss_recv ≡ false
    → p.x25519_dh s.dhs_sec dh ≡ some dh_out
    → kdf_rk p s.rk dh_out none false ≡ some (rk, ck, nhk)
    → dh_ratchet p draws dh full s ≡ sending_half p draws (with_chain rk ck (at_epoch dh s))
unfolding dh_ratchet
dh_ratchet-run p draws dh full s {dh_out} {rk} {ck} {nhk} classical no_kss shared derived =
    >>=-ok (receive_kem p full) (λ _. receive_chain p >> sending_half p draws)
      (receive_kem-classical p full (at_epoch dh s) classical)
    ∙ >>=-ok (receive_chain p) (λ _. sending_half p draws)
        (receive_chain-run p (at_epoch dh s) no_kss shared derived)

-- What a successful initiator holds.
record Initiated (p : Primitives) (draw : ℕ) (sk peer : Bytes) (a : Session) : Type 0 where
  sec : Bytes
  dh_out : Bytes
  rk : Bytes
  nhk : Bytes
  drawn : p.x25519_keypair draw ≡ some (sec, a.dhs_pub)
  shared : p.x25519_dh sec peer ≡ some dh_out
  derived : kdf_rk p sk dh_out none false ≡ some (rk, a.cks, nhk)
  first : a.ns ≡ 0
  can_send : a.have_cks ≡ true

initiator-Initiated :
    (p : Primitives) (draw : ℕ) (sk peer : Bytes) {a : Session}
    → ratchet_init_initiator p draw sk peer ≡ ok a
    → Initiated p draw sk peer a
unfolding ratchet_init_initiator zero_session
initiator-Initiated p draw sk peer {a} made = elim (Option-cases (p.x25519_keypair draw)) [
  | inl failed ↦ absurd (ground arith)
  | inr ((sec, pub_key), drawn) ↦ elim (Option-cases (p.x25519_dh sec peer)) [
    | inl failed ↦ absurd (ground arith)
    | inr (dh_out, shared) ↦ elim (Option-cases (kdf_rk p sk dh_out none false)) [
      | inl failed ↦ absurd (ground arith)
      | inr ((rk, ck, nhk), derived) ↦ record {
        sec = sec;
        dh_out = dh_out;
        rk = rk;
        nhk = nhk;
        drawn = ground arith;
        shared = shared;
        derived = ground arith;
        first = ground arith;
        can_send = ground arith;
      }
    ]
  ]
]

fresh-Follows :
    (step : Bytes → Bytes × Bytes) (dh : Bytes) (b : Session)
    → b.he ≡ false
    → b.pq ≡ false
    → b.have_dhr ≡ true
    → b.dhr ≡ dh
    → b.have_ckr ≡ true
    → b.nr ≡ 0
    → b.skipped ≡ []
    → Follows step b.ckr dh b
unfolding chain_key
fresh-Follows step dh b clear classical known peer ready zero_nr empty = record {
  clear = clear;
  classical = classical;
  peer_known = known;
  peer = peer;
  ready = ready;
  at = ap (chain_key step b.ckr) (sym zero_nr);
  small = omega arith;
  distinct = subst (Distinct dh) (sym empty) tt;
  stored = λ m k h. absurd (nothing m k (ap (stored_key dh m) (sym empty) ∙ h));
}
  where
    nothing : (m : ℕ) (k : Bytes) → stored_key dh m [] ≡ some k → ⊥
    nothing m k h = cc (stored_key-nil dh m)

-- The first ratchet step of the responder reaches the chain of the initiator. Let an initiator be
-- made from the responder's public key and a shared secret, and a responder from its own key pair
-- and the same secret, where X25519 agrees. If the responder's ratchet step to the initiator's key
-- succeeds, the responder follows the initiator's sending chain from its first message on, with
-- nothing stored.
pub step-Follows_initiator :
    (p : Primitives) (step : Bytes → Bytes × Bytes) (draws : Draws) (draw draw' : ℕ)
    (sk sec pub_key : Bytes) (full : Option KemHeader) (a b : Session)
    → Agrees p
    → p.x25519_keypair draw' ≡ some (sec, pub_key)
    → ratchet_init_initiator p draw sk pub_key ≡ ok a
    → dh_ratchet p draws a.dhs_pub full (ratchet_init_responder sk pub_key sec) ≡ (ok tt, b)
    → (a.ns ≡ 0) × (a.have_cks ≡ true) × Follows step a.cks a.dhs_pub b × (b.skipped ≡ [])
unfolding ratchet_init_responder zero_session
step-Follows_initiator p step draws draw draw' sk sec pub_key full a b agrees own made stepped =
    let i = initiator-Initiated p draw sk pub_key made in
    let start = ratchet_init_responder sk pub_key sec in
    let shared : p.x25519_dh sec a.dhs_pub ≡ some i.dh_out =
      agrees draw' draw sec pub_key i.sec a.dhs_pub own i.drawn ∙ i.shared in
    let run = dh_ratchet-run p draws a.dhs_pub full start refl refl shared i.derived in
    let t = with_chain i.rk a.cks (at_epoch a.dhs_pub start) in
    let same : Same t b =
      subst (λ (r : Result (Unit {0}) × Session). Same t r.1) (sym run ∙ stepped)
        (sending_half-Same p draws t refl) in
    (
      i.first,
      i.can_send,
      subst (λ c. Follows step c a.dhs_pub b) same.same_ckr
          (fresh-Follows step a.dhs_pub b same.same_he same.same_pq same.same_have_dhr same.same_dhr
            same.same_have_ckr same.same_nr same.same_skipped),
      same.same_skipped,
    )
