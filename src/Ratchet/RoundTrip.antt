-- ===== src/Ratchet/RoundTrip.antt =====
-- A session of ratchet.c at rest: what `pack` writes, `unpack` reads back.
use qsafe.Base.{
  ℕ, suc, ◌+◌, ◌*◌, ◌≤◌, ◌≡◌, refl, ◌∙◌, sym, ap, ap₂, Bool, true, false, [], ◌∷◌, ◌++◌, ltb, ◌==◌,
  if◌then◌else◌, length, length-append, drop, All, Bytes, Bool-cases, inl, inr, arith, put_u32,
  get_u32, get_u32-put_u32, length-put_u32, IsU32,
}
use qsafe.Crypto.{Error, Result, ok, err, Envelope, Opens}
use qsafe.Ratchet.State.{KemState, Session, zero_session, ratchet_max_skip}
use qsafe.Ratchet.AtRest.{
  st_fixed, st_kem, st_pq_meta, st_skip_entry, put_flag, pack_skipped, pack_kem, pack_flags, pack,
  get_flag, unpack_skipped, unpack_kem, unpacked, unpack, ratchet_session_serialize,
  ratchet_session_deserialize,
}
use qsafe.Base.Fields.{next, field, word}
use qsafe.Ratchet.Fields.{
  put-get_flag, flag, EntryFits, length-pack_skipped, unpack-pack_skipped, KemFits, unpack-pack_kem,
}

-- A session that the format can hold: without header encryption, its fields within their sizes, and
-- a session without post-quantum part has none.
pub record AtRestFits (s : Session) : Type 0 where
  pub clear : s.he ≡ zero_session.he
  pub no_header : s.header ≡ zero_session.header
  pub rk_size : length s.rk ≡ 32
  pub sec_size : length s.dhs_sec ≡ 32
  pub pub_size : length s.dhs_pub ≡ 32
  pub dhr_size : length s.dhr ≡ 32
  pub cks_size : length s.cks ≡ 32
  pub ckr_size : length s.ckr ≡ 32
  pub ns_small : IsU32 s.ns
  pub nr_small : IsU32 s.nr
  pub pn_small : IsU32 s.pn
  pub few : length s.skipped ≤ ratchet_max_skip
  pub entries : All EntryFits s.skipped
  pub kem_part : if s.pq then KemFits s.kem else (s.kem ≡ zero_session.kem)

abbrev kem_tail : Session → Bytes
kem_tail s = if s.pq then pack_kem s.kem else []

read_kem :
    (s : Session)
    → AtRestFits s
    → (if s.pq then unpack_kem (kem_tail s) else zero_session.kem) ≡ s.kem
read_kem s f = elim (Bool-cases s.pq) [
  | inl pq ↦ rw pq (unpack-pack_kem s.kem (rw pq at f.kem_part))
  | inr classical ↦ rw classical (sym (rw classical at f.kem_part))
]

-- Where the entries and what follows them begin.
record Tail (s : Session) : Type 0 where
  at_count :
      drop 207 (pack s)
      ≡ put_u32 (length s.skipped) ++ (pack_skipped s.skipped ++ (put_flag s.pq ∷ kem_tail s))
  at_end : drop (st_fixed + length s.skipped * st_skip_entry) (pack s) ≡ put_flag s.pq ∷ kem_tail s

unpacked-pack : (s : Session) → AtRestFits s → (unpacked (length s.skipped) (pack s) ≡ s) × Tail s
unfolding unpacked pack pack_flags
unpacked-pack s f =
    let buf = pack s in
    let tail = put_flag s.pq ∷ kem_tail s in
    let r₁₁ = pack_skipped s.skipped ++ tail in
    let r₁₀ = put_u32 (length s.skipped) ++ r₁₁ in
    let r₉ = pack_flags s ++ r₁₀ in
    let r₈ = put_u32 s.pn ++ r₉ in
    let r₇ = put_u32 s.nr ++ r₈ in
    let r₆ = put_u32 s.ns ++ r₇ in
    let r₅ = s.ckr ++ r₆ in
    let r₄ = s.cks ++ r₅ in
    let r₃ = s.dhr ++ r₄ in
    let r₂ = s.dhs_pub ++ r₃ in
    let r₁ = s.dhs_sec ++ r₂ in
    let at₁ = next buf s.rk r₁ 0 32 32 refl f.rk_size refl in
    let at₂ = next buf s.dhs_sec r₂ 32 32 64 at₁ f.sec_size refl in
    let at₃ = next buf s.dhs_pub r₃ 64 32 96 at₂ f.pub_size refl in
    let at₄ = next buf s.dhr r₄ 96 32 128 at₃ f.dhr_size refl in
    let at₅ = next buf s.cks r₅ 128 32 160 at₄ f.cks_size refl in
    let at₆ = next buf s.ckr r₆ 160 32 192 at₅ f.ckr_size refl in
    let at₇ = next buf (put_u32 s.ns) r₇ 192 4 196 at₆ (length-put_u32 s.ns) refl in
    let at₈ = next buf (put_u32 s.nr) r₈ 196 4 200 at₇ (length-put_u32 s.nr) refl in
    let at₉ = next buf (put_u32 s.pn) r₉ 200 4 204 at₈ (length-put_u32 s.pn) refl in
    let at₁₀ = next buf (pack_flags s) r₁₀ 204 3 207 at₉ refl refl in
    let at₁₁ =
      next buf (put_u32 (length s.skipped)) r₁₁ 207 4 211 at₁₀ (length-put_u32 (length s.skipped))
        refl in
    let at_tail : drop (st_fixed + length s.skipped * st_skip_entry) buf ≡ tail =
      next buf (pack_skipped s.skipped) tail 211 (length s.skipped * 68) _ at₁₁
        (length-pack_skipped s.skipped f.entries) refl in
    let rk = field buf s.rk r₁ 0 32 refl f.rk_size in
    let sec = field buf s.dhs_sec r₂ 32 32 at₁ f.sec_size in
    let pub_key = field buf s.dhs_pub r₃ 64 32 at₂ f.pub_size in
    let dhr = field buf s.dhr r₄ 96 32 at₃ f.dhr_size in
    let cks = field buf s.cks r₅ 128 32 at₄ f.cks_size in
    let ckr = field buf s.ckr r₆ 160 32 at₅ f.ckr_size in
    let ns = word buf r₇ 192 s.ns at₆ f.ns_small in
    let nr = word buf r₈ 196 s.nr at₇ f.nr_small in
    let pn = word buf r₉ 200 s.pn at₈ f.pn_small in
    let have_dhr = flag buf r₉ 204 204 0 s.have_dhr at₉ refl refl in
    let have_cks = flag buf r₉ 204 205 1 s.have_cks at₉ refl refl in
    let have_ckr = flag buf r₉ 204 206 2 s.have_ckr at₉ refl refl in
    let stored =
      ap (unpack_skipped (length s.skipped)) at₁₁ ∙ unpack-pack_skipped s.skipped tail f.entries in
    let pq : get_flag (drop (st_fixed + length s.skipped * st_skip_entry) buf) 0 ≡ s.pq =
      ap (λ t. get_flag t 0) at_tail ∙ put-get_flag s.pq in
    let kem =
      ap₂ (λ b t. if b then unpack_kem t else zero_session.kem) pq (ap (drop 1) at_tail)
      ∙ read_kem s f in
    (
      λ i. record {
        rk = rk i;
        dhs_sec = sec i;
        dhs_pub = pub_key i;
        dhr = dhr i;
        cks = cks i;
        ckr = ckr i;
        ns = ns i;
        nr = nr i;
        pn = pn i;
        have_dhr = have_dhr i;
        have_cks = have_cks i;
        have_ckr = have_ckr i;
        he = sym f.clear i;
        header = sym f.no_header i;
        pq = pq i;
        kem = kem i;
        skipped = stored i;
      },
      record { at_count = at₁₀; at_end = at_tail },
    )

-- The size checks of `unpack`, for a buffer of `size` bytes with n entries.
abbrev checked : ℕ → ℕ → Bool → Session → Result Session
checked size n b s =
    if ltb size st_fixed
    then err Error.integrity
    else if ltb ratchet_max_skip n
    then err Error.integrity
    else if ltb size (st_fixed + n * st_skip_entry + 1)
    then err Error.integrity
    else if b
    then (if size == st_fixed + n * st_skip_entry + 1 + st_pq_meta + st_kem
        then ok s
        else err Error.integrity)
    else if size == st_fixed + n * st_skip_entry + 1
    then ok s
    else err Error.integrity

checked-ok :
    (size n : ℕ) (b : Bool) (s : Session)
    → n ≤ 1000
    → size ≡ 212 + n * 68 + (if b then 7946 else 0)
    → checked size n b s ≡ ok s
checked-ok size n true s few e = ground arith
checked-ok size n false s few e = ground arith

unpack-checked :
    (buf : Bytes)
    → let n = get_u32 (drop 207 buf) in
      unpack buf
      ≡ checked
          (length buf)
          n
          (get_flag (drop (st_fixed + n * st_skip_entry) buf) 0)
          (unpacked n buf)
unfolding unpack
unpack-checked buf = refl

unpack-ok :
    (buf : Bytes) (n : ℕ) (b : Bool)
    → get_u32 (drop 207 buf) ≡ n
    → get_flag (drop (st_fixed + n * st_skip_entry) buf) 0 ≡ b
    → n ≤ 1000
    → length buf ≡ 212 + n * 68 + (if b then 7946 else 0)
    → unpack buf ≡ ok (unpacked n buf)
unpack-ok buf n b count flagged few size =
    let flag_is = ap (λ k. get_flag (drop (st_fixed + k * st_skip_entry) buf) 0) count ∙ flagged in
    unpack-checked buf
    ∙ (λ i. checked (length buf) (count i) (flag_is i) (unpacked (count i) buf))
    ∙ checked-ok (length buf) n b (unpacked n buf) few size

length-pack_kem : (k : KemState) → KemFits k → length (pack_kem k) ≡ 7946
unfolding pack_kem
length-pack_kem k f =
    let r₅ = k.kss_send ++ k.kss_recv in
    let r₄ = k.pend_ct ++ r₅ in
    let r₃ = k.kem_r ++ r₄ in
    let r₂ = k.kem_pk ++ r₃ in
    let r₁ = k.kem_sk ++ r₂ in
    omega (
      arith,
      f.sk_size,
      f.pk_size,
      f.r_size,
      f.ct_size,
      f.send_size,
      f.recv_size,
      length-put_u32 k.send_steps,
      length-append (put_u32 k.send_steps) r₁,
      length-append k.kem_sk r₂,
      length-append k.kem_pk r₃,
      length-append k.kem_r r₄,
      length-append k.pend_ct r₅,
      length-append k.kss_send k.kss_recv,
    )

length-kem_tail : (s : Session) → AtRestFits s → length (kem_tail s) ≡ (if s.pq then 7946 else 0)
length-kem_tail s f = elim (Bool-cases s.pq) [
  | inl pq ↦ rw pq (length-pack_kem s.kem (rw pq at f.kem_part))
  | inr classical ↦ rw classical refl
]

pack-size :
    (s : Session)
    → AtRestFits s
    → length (pack s) ≡ 212 + length s.skipped * 68 + (if s.pq then 7946 else 0)
unfolding pack pack_flags
pack-size s f =
    let tail = put_flag s.pq ∷ kem_tail s in
    let r₁₁ = pack_skipped s.skipped ++ tail in
    let r₁₀ = put_u32 (length s.skipped) ++ r₁₁ in
    let r₉ = pack_flags s ++ r₁₀ in
    let r₈ = put_u32 s.pn ++ r₉ in
    let r₇ = put_u32 s.nr ++ r₈ in
    let r₆ = put_u32 s.ns ++ r₇ in
    let r₅ = s.ckr ++ r₆ in
    let r₄ = s.cks ++ r₅ in
    let r₃ = s.dhr ++ r₄ in
    let r₂ = s.dhs_pub ++ r₃ in
    let r₁ = s.dhs_sec ++ r₂ in
    let back : length r₁₀ ≡ 5 + length s.skipped * 68 + (if s.pq then 7946 else 0) =
      length-append (put_u32 (length s.skipped)) r₁₁
      ∙ ap₂ (λ x y. x + y) (length-put_u32 (length s.skipped))
          (length-append (pack_skipped s.skipped) tail
            ∙ ap₂ (λ x y. x + suc y) (length-pack_skipped s.skipped f.entries)
                (length-kem_tail s f))
      ∙ omega arith in
    omega (
      arith,
      back,
      f.rk_size,
      f.sec_size,
      f.pub_size,
      f.dhr_size,
      f.cks_size,
      f.ckr_size,
      length-put_u32 s.ns,
      length-put_u32 s.nr,
      length-put_u32 s.pn,
      length-append s.rk r₁,
      length-append s.dhs_sec r₂,
      length-append s.dhs_pub r₃,
      length-append s.dhr r₄,
      length-append s.cks r₅,
      length-append s.ckr r₆,
      length-append (put_u32 s.ns) r₇,
      length-append (put_u32 s.nr) r₈,
      length-append (put_u32 s.pn) r₉,
    )

sealed :
    (env : Envelope) (draw : ℕ) (s : Session) (passphrase : Bytes) {blob : Bytes}
    → AtRestFits s
    → ratchet_session_serialize env draw s passphrase ≡ ok blob
    → env.seal_at_rest draw passphrase (pack s) ≡ ok blob
unfolding ratchet_session_serialize zero_session
sealed env draw s passphrase f e = rw f.clear at e

opened :
    (env : Envelope) (blob passphrase : Bytes) {plain : Bytes}
    → env.open_at_rest passphrase blob ≡ ok plain
    → ratchet_session_deserialize env blob passphrase ≡ unpack plain
unfolding ratchet_session_deserialize
opened env blob passphrase e = rw (ratchet_session_deserialize, e) refl

-- A session at rest comes back. What `ratchet_session_serialize` writes for a session without header
-- encryption, its fields within their sizes and with at most 1000 stored keys, is read back as that
-- session by `ratchet_session_deserialize` under the same passphrase, for an envelope that opens what
-- it sealed; with or without post-quantum part.
pub session_deserialize-serialize :
    (env : Envelope) (draw : ℕ) (s : Session) (passphrase blob : Bytes)
    → Opens env
    → AtRestFits s
    → ratchet_session_serialize env draw s passphrase ≡ ok blob
    → ratchet_session_deserialize env blob passphrase ≡ ok s
session_deserialize-serialize env draw s passphrase blob opens f e =
    let (same, tail) = unpacked-pack s f in
    let n = length s.skipped in
    let count = ap get_u32 tail.at_count ∙ get_u32-put_u32 n _ (omega (arith, f.few)) in
    let flagged = ap (λ t. get_flag t 0) tail.at_end ∙ put-get_flag s.pq in
    let read : unpack (pack s) ≡ ok s =
      unpack-ok (pack s) n s.pq count flagged f.few (pack-size s f) ∙ ap ok same in
    opened env blob passphrase
      (opens draw passphrase (pack s) blob (sealed env draw s passphrase f e))
    ∙ read
