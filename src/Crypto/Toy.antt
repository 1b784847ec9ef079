-- ===== src/Crypto/Toy.antt =====
-- Stand-ins for the calls of crypto_utils.c, to run the session code on.
use qsafe.Base.{
  ℕ, zero, suc, IsByte, All, subst, ◌+◌, ◌%◌, ◌≡◌, ◌∙◌, sym, ap, ap₂, true, none, some, some_inj,
  ◌++◌, if◌then◌else◌, length, get_or, take, replicate, length-take, length-append,
  length-replicate, Bytes, bytes_eq, bytes_eq_refl, arith,
}
use qsafe.Crypto.{
  ok, Primitives, IsAead, Agrees, Decapsulates, FillsBytes, Signatures, IsSigner, Envelope, Opens,
}

abbrev pub fill : Bytes → ℕ → Bytes
fill x n = take n (x ++ replicate n 0)

-- The tag is the beginning of the key, and the body is left as it is.
abbrev pub toy_tag : Bytes → Bytes
toy_tag key = fill key 16

abbrev pub toy : Primitives
toy = record {
  hkdf = λ ikm salt info n. some (fill (info ++ ikm) n);
  hmac = λ key msg. some (fill (key ++ msg) 32);
  x25519_keypair = λ d. some (replicate 32 d, replicate 32 d);
  x25519_dh = λ sec peer. some (replicate 32 (get_or sec 0 0 + get_or peer 0 0));
  gcm_seal = λ key nonce aad pt. some (pt, toy_tag key);
  gcm_open = λ key nonce aad ct tag. if bytes_eq tag (toy_tag key) then some ct else none;
  kem_keypair = λ d. some (replicate 1568 d, replicate 3168 d);
  kem_encaps = λ d peer. some (replicate 1568 d, replicate 32 d);
  kem_decaps = λ ct sec. some (take 32 ct);
  rand_bytes = λ d n. some (replicate n (d % 256));
}

pub length-fill : (x : Bytes) (n : ℕ) → length (fill x n) ≡ n
length-fill x n =
    length-take n (x ++ replicate n 0)
      (omega (arith, length-append x (replicate n 0), length-replicate {A = ℕ} n 0))

pub toy-IsAead : IsAead toy
toy-IsAead = record {
  open_seal = λ key nonce aad pt ct tag e. ground (arith, some_inj e, bytes_eq_refl tag);
  tag_size = λ key nonce aad pt ct tag e. ground (arith, some_inj e, length-fill key 16);
  ct_size = λ key nonce aad pt ct tag e. ground (arith, some_inj e);
}

sum_of :
    (a b : ℕ)
    → toy.x25519_dh (replicate 32 a) (replicate 32 b)
      ≡ toy.x25519_dh (replicate 32 b) (replicate 32 a)
sum_of a b = let e : a + b ≡ b + a = omega arith in ap (λ x. some (replicate 32 x)) e

pub toy-Agrees : Agrees toy
toy-Agrees draw draw' sec pub_key sec' pub_key' e e' =
    let own : (replicate 32 draw, replicate 32 draw) ≡ (sec, pub_key) = some_inj e in
    let peer : (replicate 32 draw', replicate 32 draw') ≡ (sec', pub_key') = some_inj e' in
    ap₂ toy.x25519_dh (sym (ap (λ (t : Bytes × Bytes). t.0) own))
      (sym (ap (λ (t : Bytes × Bytes). t.1) peer))
    ∙ sum_of draw draw'
    ∙ ap₂ toy.x25519_dh (ap (λ (t : Bytes × Bytes). t.0) peer) (ap (λ (t : Bytes × Bytes). t.1) own)

toy_halves :
    (x y : Bytes) {pk sk : Bytes} → ◌≡◌ {A = Bytes × Bytes} (x, y) (pk, sk) → (x ≡ pk) × (y ≡ sk)
toy_halves x y e = (ap (λ (t : Bytes × Bytes). t.0) e, ap (λ (t : Bytes × Bytes). t.1) e)

pub toy-Decapsulates : Decapsulates toy
toy-Decapsulates draw draw' pk sk ct ss made sealed =
    let (ct_is, ss_is) = toy_halves (replicate 1568 draw') (replicate 32 draw') (some_inj sealed) in
    ap (λ (c : Bytes). some (take 32 c)) (sym ct_is) ∙ ap some ss_is

replicate-IsByte : (n b : ℕ) → IsByte b → All IsByte (replicate n b)
replicate-IsByte zero b h = tt
replicate-IsByte (suc n) b h = (h, replicate-IsByte n b h)

pub toy-FillsBytes : FillsBytes toy
toy-FillsBytes draw n out e =
    subst (λ (l : Bytes). All IsByte l) (some_inj e) (replicate-IsByte n (draw % 256) (omega arith))

-- A signature is the beginning of the key and of the message.
abbrev pub toy_sign : Bytes → Bytes → Bytes
toy_sign key msg = fill key 2 ++ fill msg 4

abbrev pub toy_signatures : Signatures
toy_signatures = record {
  sig_keypair = λ d. some (replicate 2592 d, replicate 2592 d);
  sig_sign = λ d msg sk. some (toy_sign sk msg);
  sig_verify = λ msg sig pk. bytes_eq sig (toy_sign pk msg);
}

length-toy_sign : (key msg : Bytes) → length (toy_sign key msg) ≡ 6
length-toy_sign key msg =
    omega (arith, length-append (fill key 2) (fill msg 4), length-fill key 2, length-fill msg 4)

signed_verifies :
    (keys : Bytes) (pk sk msg sig : Bytes)
    → ◌≡◌ {A = Bytes × Bytes} (keys, keys) (pk, sk)
    → toy_sign sk msg ≡ sig
    → bytes_eq sig (toy_sign pk msg) ≡ true
signed_verifies keys pk sk msg sig e h =
    let same : pk ≡ sk =
      sym (ap (λ (t : Bytes × Bytes). t.0) e) ∙ ap (λ (t : Bytes × Bytes). t.1) e in
    ap₂ bytes_eq (sym h) (ap (λ k. toy_sign k msg) same) ∙ bytes_eq_refl (toy_sign sk msg)

pub toy-IsSigner : IsSigner toy_signatures
toy-IsSigner = record {
  verify_sign = λ d d' pk sk msg sig e h.
      signed_verifies (replicate 2592 d) pk sk msg sig (some_inj e) (some_inj h);
  sig_size = λ d msg sk sig h.
      omega (arith, ap (λ (t : Bytes). length t) (some_inj h), length-toy_sign sk msg);
}

-- An envelope that seals nothing.
abbrev pub toy_envelope : Envelope
toy_envelope = record {
  seal_at_rest = λ d passphrase plain. ok plain;
  open_at_rest = λ passphrase blob. ok blob;
}

pub toy-Opens : Opens toy_envelope
toy-Opens d passphrase plain blob e = sym e
