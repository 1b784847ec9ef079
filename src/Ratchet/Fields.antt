-- ===== src/Ratchet/Fields.antt =====
-- The fields of a session of ratchet.c at rest: reading one behind another, the stored keys and the
-- post-quantum part.
use qsafe.Base.Fields.{get_or-drop, next, field, word}
use qsafe.Base.{
  ℕ, suc, ◌+◌, ◌*◌, ◌≡◌, refl, ◌∙◌, sym, ap, ap₂, Bool, true, false, not, List, [], ◌∷◌, ◌++◌,
  append-nil, append_assoc, ◌==◌, length, length-append, drop, get_or, replicate, All, Bytes, arith,
  put_u32, length-put_u32, IsU32,
}
use qsafe.Ratchet.State.{SkippedKey, KemState}
use qsafe.Ratchet.AtRest.{put_flag, pack_skipped, pack_kem, get_flag, unpack_skipped, unpack_kem}

pub put-get_flag : (b : Bool) → not (put_flag b == 0) ≡ b
put-get_flag true = refl
put-get_flag false = refl

pub flag :
    (buf rest : Bytes) (n m i : ℕ) (b : Bool)
    → drop n buf ≡ rest
    → n + i ≡ m
    → get_or rest i 0 ≡ put_flag b
    → get_flag buf m ≡ b
flag buf rest n m i b at sum here =
    ap (λ t. not (get_or buf t 0 == 0)) (sym sum)
    ∙ ap (λ t. not (t == 0)) (sym (get_or-drop n i buf) ∙ ap (λ t. get_or t i 0) at ∙ here)
    ∙ put-get_flag b

-- The sizes of a stored key, which has no header key.
abbrev pub EntryFits : SkippedKey → Type 0
EntryFits e = (length e.dh_pub ≡ 32) × IsU32 e.n × (length e.mk ≡ 32) × (e.hk ≡ replicate 32 0)

pub length-pack_skipped :
    (l : List SkippedKey) → All EntryFits l → length (pack_skipped l) ≡ length l * 68
unfolding pack_skipped
length-pack_skipped [] f = refl
length-pack_skipped (e ∷ l) ((dh, small, mk, hk), f) = omega (
  arith,
  length-pack_skipped l f,
  length-put_u32 e.n,
  length-append e.dh_pub (put_u32 e.n ++ (e.mk ++ pack_skipped l)),
  length-append (put_u32 e.n) (e.mk ++ pack_skipped l),
  length-append e.mk (pack_skipped l),
)

pub unpack-pack_skipped :
    (l : List SkippedKey) (rest : Bytes)
    → All EntryFits l
    → unpack_skipped (length l) (pack_skipped l ++ rest) ≡ l
unfolding pack_skipped unpack_skipped
unpack-pack_skipped [] rest f = refl
unpack-pack_skipped (e ∷ l) rest ((dh_size, small, mk_size, hk), f) =
    let behind = pack_skipped l ++ rest in
    let buf = e.dh_pub ++ (put_u32 e.n ++ (e.mk ++ behind)) in
    let whole : pack_skipped (e ∷ l) ++ rest ≡ buf =
      append_assoc e.dh_pub (put_u32 e.n ++ (e.mk ++ pack_skipped l)) rest
      ∙ ap (λ t. e.dh_pub ++ t)
          (append_assoc (put_u32 e.n) (e.mk ++ pack_skipped l) rest
            ∙ ap (λ t. put_u32 e.n ++ t) (append_assoc e.mk (pack_skipped l) rest)) in
    let at_n = next buf e.dh_pub (put_u32 e.n ++ (e.mk ++ behind)) 0 32 32 refl dh_size refl in
    let at_mk = next buf (put_u32 e.n) (e.mk ++ behind) 32 4 36 at_n (length-put_u32 e.n) refl in
    let at_rest = next buf e.mk behind 36 32 68 at_mk mk_size refl in
    let is_dh = field buf e.dh_pub (put_u32 e.n ++ (e.mk ++ behind)) 0 32 refl dh_size in
    let is_n = word buf (e.mk ++ behind) 32 e.n at_n small in
    let is_mk = field buf e.mk behind 36 32 at_mk mk_size in
    ap (unpack_skipped (suc (length l))) whole
    ∙ ap₂ ◌∷◌ (λ i. record { dh_pub = is_dh i; n = is_n i; mk = is_mk i; hk = sym hk i })
        (ap (unpack_skipped (length l)) at_rest ∙ unpack-pack_skipped l rest f)

-- The sizes of the post-quantum part.
pub record KemFits (k : KemState) : Type 0 where
  pub steps_small : IsU32 k.send_steps
  pub sk_size : length k.kem_sk ≡ 3168
  pub pk_size : length k.kem_pk ≡ 1568
  pub r_size : length k.kem_r ≡ 1568
  pub ct_size : length k.pend_ct ≡ 1568
  pub send_size : length k.kss_send ≡ 32
  pub recv_size : length k.kss_recv ≡ 32

pub unpack-pack_kem : (k : KemState) → KemFits k → unpack_kem (pack_kem k) ≡ k
unfolding unpack_kem pack_kem
unpack-pack_kem k f =
    let buf = pack_kem k in
    let r₅ = k.kss_send ++ k.kss_recv in
    let r₄ = k.pend_ct ++ r₅ in
    let r₃ = k.kem_r ++ r₄ in
    let r₂ = k.kem_pk ++ r₃ in
    let r₁ = k.kem_sk ++ r₂ in
    let at_steps : drop 6 buf ≡ put_u32 k.send_steps ++ r₁ = refl in
    let at_sk =
      next buf (put_u32 k.send_steps) r₁ 6 4 10 at_steps (length-put_u32 k.send_steps) refl in
    let at_pk = next buf k.kem_sk r₂ 10 3168 3178 at_sk f.sk_size refl in
    let at_r = next buf k.kem_pk r₃ 3178 1568 4746 at_pk f.pk_size refl in
    let at_ct = next buf k.kem_r r₄ 4746 1568 6314 at_r f.r_size refl in
    let at_send = next buf k.pend_ct r₅ 6314 1568 7882 at_ct f.ct_size refl in
    let at_recv = next buf k.kss_send k.kss_recv 7882 32 7914 at_send f.send_size refl in
    let steps = word buf r₁ 6 k.send_steps at_steps f.steps_small in
    let sk = field buf k.kem_sk r₂ 10 3168 at_sk f.sk_size in
    let pk = field buf k.kem_pk r₃ 3178 1568 at_pk f.pk_size in
    let kr = field buf k.kem_r r₄ 4746 1568 at_r f.r_size in
    let ct = field buf k.pend_ct r₅ 6314 1568 at_ct f.ct_size in
    let send = field buf k.kss_send k.kss_recv 7882 32 at_send f.send_size in
    let recv =
      field buf k.kss_recv [] 7914 32 (at_recv ∙ sym (append-nil k.kss_recv)) f.recv_size in
    λ i. record {
      have_kem_r = put-get_flag k.have_kem_r i;
      have_ct = put-get_flag k.have_ct i;
      have_kss_send = put-get_flag k.have_kss_send i;
      have_kss_recv = put-get_flag k.have_kss_recv i;
      send_full = put-get_flag k.send_full i;
      advertised = put-get_flag k.advertised i;
      send_steps = steps i;
      kem_sk = sk i;
      kem_pk = pk i;
      kem_r = kr i;
      pend_ct = ct i;
      kss_send = send i;
      kss_recv = recv i;
    }
