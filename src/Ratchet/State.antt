-- ===== src/Ratchet/State.antt =====
-- The session state of ratchet.c, and the calls on it. A call gives its result and the session that
-- it leaves, also when it fails half-way. Allocation is taken to succeed, and pointers not to be NULL.
use qsafe.Base.{
  ℕ, ◌≡◌, ap, Bool, false, Option, none, some, List, [], Bytes, if◌then◌else◌, replicate,
}
use qsafe.Crypto.{Error, Result, ok, err}

-- `skipped_key_t`
pub record SkippedKey : Type 0 where
  pub dh_pub : Bytes
  pub n : ℕ
  pub mk : Bytes
  pub hk : Bytes

-- The header keys of a session; unused when `he` is false.
pub record HeaderKeys : Type 0 where
  pub have_hks : Bool
  pub have_hkr : Bool
  pub have_nhks : Bool
  pub have_nhkr : Bool
  pub hks : Bytes
  pub hkr : Bytes
  pub nhks : Bytes
  pub nhkr : Bytes

-- The post-quantum part of a session; unused when `pq` is false.
pub record KemState : Type 0 where
  pub have_kem_r : Bool
  pub have_ct : Bool
  pub have_kss_send : Bool
  pub have_kss_recv : Bool
  pub send_full : Bool
  pub advertised : Bool
  pub send_steps : ℕ
  pub kem_sk : Bytes
  pub kem_pk : Bytes
  pub kem_r : Bytes
  pub pend_ct : Bytes
  pub kss_send : Bytes
  pub kss_recv : Bytes

-- `struct ratchet_session`. The C flags are `int`s that are only tested for zero. `skipped` is
-- `skipped[0 .. n_skipped)`, so `n_skipped` is its length.
pub record Session : Type 0 where
  pub rk : Bytes
  pub dhs_sec : Bytes
  pub dhs_pub : Bytes
  pub dhr : Bytes
  pub cks : Bytes
  pub ckr : Bytes
  pub ns : ℕ
  pub nr : ℕ
  pub pn : ℕ
  pub have_dhr : Bool
  pub have_cks : Bool
  pub have_ckr : Bool
  pub he : Bool
  pub header : HeaderKeys
  pub pq : Bool
  pub kem : KemState
  pub skipped : List SkippedKey

abbrev pub ratchet_mlkem_pk : ℕ
ratchet_mlkem_pk = 1568

abbrev pub ratchet_mlkem_sk : ℕ
ratchet_mlkem_sk = 3168

abbrev pub ratchet_mlkem_ct : ℕ
ratchet_mlkem_ct = 1568

abbrev pub ratchet_mlkem_ss : ℕ
ratchet_mlkem_ss = 32

abbrev pub ratchet_max_skip : ℕ
ratchet_max_skip = 1000

-- `calloc(1, sizeof *s)`
unfoldable pub zero_session : Session
zero_session = record {
  rk = replicate 32 0;
  dhs_sec = replicate 32 0;
  dhs_pub = replicate 32 0;
  dhr = replicate 32 0;
  cks = replicate 32 0;
  ckr = replicate 32 0;
  ns = 0;
  nr = 0;
  pn = 0;
  have_dhr = false;
  have_cks = false;
  have_ckr = false;
  he = false;
  header = record {
    have_hks = false;
    have_hkr = false;
    have_nhks = false;
    have_nhkr = false;
    hks = replicate 32 0;
    hkr = replicate 32 0;
    nhks = replicate 32 0;
    nhkr = replicate 32 0;
  };
  pq = false;
  kem = record {
    have_kem_r = false;
    have_ct = false;
    have_kss_send = false;
    have_kss_recv = false;
    send_full = false;
    advertised = false;
    send_steps = 0;
    kem_sk = replicate ratchet_mlkem_sk 0;
    kem_pk = replicate ratchet_mlkem_pk 0;
    kem_r = replicate ratchet_mlkem_pk 0;
    pend_ct = replicate ratchet_mlkem_ct 0;
    kss_send = replicate ratchet_mlkem_ss 0;
    kss_recv = replicate ratchet_mlkem_ss 0;
  };
  skipped = [];
}

-- A call on the session.
abbrev pub Action : Type 0 → Type 0
Action A = Session → Result A × Session

module _ {A : Type 0} where
  abbrev pub pure : A → Action A
  pure a s = (ok a, s)

  abbrev pub fail : Error → Action A
  fail e s = (err e, s)

  abbrev pub gets : (Session → A) → Action A
  gets f s = (ok (f s), s)

  -- A primitive that may fail, with the error that the caller then returns.
  abbrev pub attempt : Option A → Error → Action A
  attempt none e s = (err e, s)
  attempt (some a) e s = (ok a, s)

-- What follows a call that ended so.
abbrev pub continue : {A B : Type 0} → (A → Action B) → Result A × Session → Result B × Session
continue f (ok a, s) = f a s
continue f (err e, s) = (err e, s)

infixl 5 ◌>>=◌ ◌>>◌
abbrev pub ◌>>=◌ : {A B : Type 0} → Action A → (A → Action B) → Action B
m >>= f = λ s. continue f (m s)

abbrev pub ◌>>◌ : {A B : Type 0} → Action A → Action B → Action B
m >> k = m >>= λ _. k

abbrev pub modify : (Session → Session) → Action (Unit {0})
modify f s = (ok tt, f s)

abbrev pub fail_if : Bool → Error → Action (Unit {0})
fail_if c e s = (if c then err e else ok tt, s)

-- A call goes on from the session that its first part leaves, and stops at an error.
module _ {A B : Type 0} where
  pub >>=-ok :
      (m : Action A) (f : A → Action B) {s t : Session} {a : A}
      → m s ≡ (ok a, t)
      → (m >>= f) s ≡ f a t
  >>=-ok m f {s} {t} {a} e = ap (λ (r : Result A × Session). continue f r) e

  pub >>=-err :
      (m : Action A) (f : A → Action B) {s t : Session} {e : Error}
      → m s ≡ (err e, t)
      → (m >>= f) s ≡ (err e, t)
  >>=-err m f h = ap (λ (r : Result A × Session). continue f r) h
