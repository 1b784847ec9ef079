-- ===== src/Pqxdh/FirstStep.antt =====
-- From the handshake of pqxdh.c into the Double Ratchet of ratchet.c.
use qsafe.Base.{ℕ, ◌≡◌, ◌∙◌, sym, ap, true, false, Option, [], Bytes}
use qsafe.Crypto.{ok, Primitives, Signatures, IsSigner, Agrees, Decapsulates}
use qsafe.Crypto.Results.{ok_inj}
use qsafe.Ratchet.State.{Session}
use qsafe.Ratchet.Init.{ratchet_init_responder}
use qsafe.Ratchet.Step.{Draws, KemHeader, dh_ratchet}
use qsafe.Ratchet.Chain.{Follows}
use qsafe.Ratchet.Bootstrap.{step-Follows_initiator}
use qsafe.Pqxdh.State.{Identity, Bundle, Initial}
use qsafe.Pqxdh.Handshake.{initiator_session, responder_session, pqxdh_initiator, pqxdh_responder}
use qsafe.Pqxdh.Keys.{IsIdentity}
use qsafe.Pqxdh.Served.{Served}
use qsafe.Pqxdh.Agreement.{DistinctIds, responder-initiator}

-- After a classical handshake the two sides talk. Let the conditions of the agreement hold, let both
-- `pqxdh_initiator` and `pqxdh_responder` succeed in the classical mode, and let the responder's first
-- ratchet step, to the initiator's ratchet key, succeed. Then the initiator can send, its next message
-- is number 0, and the responder follows the initiator's sending chain from that message on with
-- nothing stored.
pub handshake-Follows :
    (p : Primitives) (q : Signatures) (step : Bytes → Bytes × Bytes) (draw : ℕ → ℕ) (draw' : ℕ)
    (draws : Draws) (full : Option KemHeader) (a b : Identity) (bundle : Bundle) (msg : Initial)
    (s r r' : Session)
    → IsSigner q
    → Agrees p
    → Decapsulates p
    → IsIdentity p q a
    → IsIdentity p q b
    → DistinctIds b.opk
    → Served q b bundle
    → pqxdh_initiator p q draw a bundle false ≡ ok (msg, s)
    → pqxdh_responder p q draw' b msg ≡ ok r
    → dh_ratchet p draws s.dhs_pub full r ≡ (ok tt, r')
    → (s.have_cks ≡ true) × (s.ns ≡ 0) × Follows step s.cks s.dhs_pub r' × (r'.skipped ≡ [])
unfolding initiator_session responder_session
handshake-Follows p q step draw draw' draws full a b bundle msg s r r' signer agrees decaps good_a
      good_b distinct served h k stepped =
    let (sk, started, answered) =
      responder-initiator p q draw draw' a b bundle false msg s signer agrees decaps good_a good_b
        distinct served h in
    let r_is : r ≡ ratchet_init_responder sk b.spk_pk b.spk_sk = ok_inj (sym k ∙ answered) in
    let (first, can_send, follows, empty) =
      step-Follows_initiator p step draws (draw 2) good_b.spk_pair.0 sk b.spk_sk b.spk_pk full s r'
        agrees good_b.spk_pair.1 started
        (ap (dh_ratchet p draws s.dhs_pub full) (sym r_is) ∙ stepped) in
    (can_send, first, follows, empty)
