-- ===== src/Ratchet/AtRest.antt =====
-- The packed session of ratchet.c, `pack` and `unpack`, and what `ratchet_session_serialize` seals.
-- The envelope, `crypto_seal_at_rest` and `crypto_open_at_rest`, is a parameter.
use qsafe.Base.{
  ℕ, zero, suc, ◌+◌, ◌*◌, Bool, not, List, [], ◌∷◌, ◌++◌, ltb, ◌==◌, if◌then◌else◌, length, get_or,
  take, drop, replicate, Bytes, put_u32, get_u32,
}
use qsafe.Crypto.{Envelope, Error, Result, ok, err, aes_key_size, x25519_key_size}
use qsafe.Ratchet.State.{
  SkippedKey, KemState, Session, zero_session, ratchet_max_skip, ratchet_mlkem_pk, ratchet_mlkem_sk,
  ratchet_mlkem_ct, ratchet_mlkem_ss,
}

abbrev pub st_fixed : ℕ
st_fixed = aes_key_size + 2 * x25519_key_size + x25519_key_size + 2 * aes_key_size + 3 * 4 + 3 + 4

abbrev pub st_kem : ℕ
st_kem =
    ratchet_mlkem_sk + ratchet_mlkem_pk + ratchet_mlkem_pk + ratchet_mlkem_ct + 2 * ratchet_mlkem_ss

abbrev pub st_pq_meta : ℕ
st_pq_meta = 6 + 4

abbrev pub st_skip_entry : ℕ
st_skip_entry = x25519_key_size + 4 + aes_key_size

-- `(unsigned char)s->have_dhr`, for a flag that is 0 or 1.
abbrev pub put_flag : Bool → ℕ
put_flag b = if b then 1 else 0

unfoldable pub pack_skipped : List SkippedKey → Bytes
pack_skipped [] = []
pack_skipped (e ∷ rest) = e.dh_pub ++ (put_u32 e.n ++ (e.mk ++ pack_skipped rest))

unfoldable pub pack_kem : KemState → Bytes
pack_kem k =
    put_flag k.have_kem_r
    ∷ put_flag k.have_ct
    ∷ put_flag k.have_kss_send
    ∷ put_flag k.have_kss_recv
    ∷ put_flag k.send_full
    ∷ put_flag k.advertised
    ∷ (put_u32 k.send_steps
        ++ (k.kem_sk ++ (k.kem_pk ++ (k.kem_r ++ (k.pend_ct ++ (k.kss_send ++ k.kss_recv))))))

unfoldable pub pack_flags : Session → Bytes
pack_flags s = put_flag s.have_dhr ∷ put_flag s.have_cks ∷ put_flag s.have_ckr ∷ []

unfoldable pub pack : Session → Bytes
unfolding pack_skipped pack_kem pack_flags
pack s =
    s.rk
    ++ (s.dhs_sec
        ++ (s.dhs_pub
            ++ (s.dhr
                ++ (s.cks
                    ++ (s.ckr
                        ++ (put_u32 s.ns
                            ++ (put_u32 s.nr
                                ++ (put_u32 s.pn
                                    ++ (pack_flags s
                                        ++ (put_u32 (length s.skipped)
                                            ++ (pack_skipped s.skipped
                                                ++ (put_flag s.pq
                                                    ∷ (if s.pq
                                                        then pack_kem s.kem
                                                        else [])))))))))))))

-- A flag that was read from a byte.
abbrev pub get_flag : Bytes → ℕ → Bool
get_flag p i = not (get_or p i 0 == 0)

-- `nsk` entries from the front of the buffer.
unfoldable pub unpack_skipped : ℕ → Bytes → List SkippedKey
unpack_skipped zero p = []
unpack_skipped (suc nsk) p =
    record {
      dh_pub = take 32 p;
      n = get_u32 (drop 32 p);
      mk = take 32 (drop 36 p);
      hk = replicate 32 0;
    }
    ∷ unpack_skipped nsk (drop 68 p)

unfoldable pub unpack_kem : Bytes → KemState
unpack_kem p = record {
  have_kem_r = get_flag p 0;
  have_ct = get_flag p 1;
  have_kss_send = get_flag p 2;
  have_kss_recv = get_flag p 3;
  send_full = get_flag p 4;
  advertised = get_flag p 5;
  send_steps = get_u32 (drop 6 p);
  kem_sk = take ratchet_mlkem_sk (drop 10 p);
  kem_pk = take ratchet_mlkem_pk (drop 3178 p);
  kem_r = take ratchet_mlkem_pk (drop 4746 p);
  pend_ct = take ratchet_mlkem_ct (drop 6314 p);
  kss_send = take ratchet_mlkem_ss (drop 7882 p);
  kss_recv = take ratchet_mlkem_ss (drop 7914 p);
}

-- The fixed part, the entries, and the flag and part of the post-quantum ratchet.
unfoldable pub unpacked : ℕ → Bytes → Session
unfolding unpack_skipped unpack_kem
unpacked nsk buf =
    let tail = drop (st_fixed + nsk * st_skip_entry) buf in
    record zero_session {
      rk = take 32 buf;
      dhs_sec = take 32 (drop 32 buf);
      dhs_pub = take 32 (drop 64 buf);
      dhr = take 32 (drop 96 buf);
      cks = take 32 (drop 128 buf);
      ckr = take 32 (drop 160 buf);
      ns = get_u32 (drop 192 buf);
      nr = get_u32 (drop 196 buf);
      pn = get_u32 (drop 200 buf);
      have_dhr = get_flag buf 204;
      have_cks = get_flag buf 205;
      have_ckr = get_flag buf 206;
      skipped = unpack_skipped nsk (drop st_fixed buf);
      pq = get_flag tail 0;
      kem = if get_flag tail 0 then unpack_kem (drop 1 tail) else zero_session.kem;
    }

-- `unpack`, with its size checks.
unfoldable pub unpack : Bytes → Result Session
unfolding unpacked
unpack buf =
    let nsk = get_u32 (drop 207 buf) in
    let base = st_fixed + nsk * st_skip_entry in
    let is_pq = get_flag (drop base buf) 0 in
    if ltb (length buf) st_fixed
    then err Error.integrity
    else if ltb ratchet_max_skip nsk
    then err Error.integrity
    else if ltb (length buf) (base + 1)
    then err Error.integrity
    else if is_pq
    then (if length buf == base + 1 + st_pq_meta + st_kem
        then ok (unpacked nsk buf)
        else err Error.integrity)
    else if length buf == base + 1
    then ok (unpacked nsk buf)
    else err Error.integrity

unfoldable pub ratchet_session_serialize : Envelope → ℕ → Session → Bytes → Result Bytes
unfolding pack
ratchet_session_serialize env draw s passphrase =
    if s.he then err Error.invalid_input else env.seal_at_rest draw passphrase (pack s)

unfoldable pub ratchet_session_deserialize : Envelope → Bytes → Bytes → Result Session
unfolding unpack
ratchet_session_deserialize env blob passphrase = elim (env.open_at_rest passphrase blob) [
  | err e ↦ err e
  | ok plain ↦ unpack plain
]
