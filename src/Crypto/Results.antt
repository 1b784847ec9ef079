-- ===== src/Crypto/Results.antt =====
-- Chains of calls that return a `crypto_error_t`: the first failure ends the chain.
use qsafe.Base.{◌≡◌, refl, Bool, true, false, Option, none, some}
use qsafe.Crypto.{Error, Result, ok, err}

-- `if (rc != CRYPTO_SUCCESS) return rc;` before the rest of the function.
abbrev pub on_success : {S T : Type 0} → (S → Result T) → Result S → Result T
on_success rest (err rc) = err rc
on_success rest (ok out) = rest out

infixl 5 ◌>>=◌ ◌>>◌
abbrev pub ◌>>=◌ : {S T : Type 0} → Result S → (S → Result T) → Result T
call >>= rest = on_success rest call

abbrev pub ◌>>◌ : {S T : Type 0} → Result S → Result T → Result T
call >> rest = on_success (λ _. rest) call

-- A primitive that may fail, with the error that the caller then returns.
abbrev pub need : {S : Type 0} → Option S → Error → Result S
need none rc = err rc
need (some out) rc = ok out

-- A test that ends the function with an error.
abbrev pub refuse_if : Bool → Error → Result (Unit {0})
refuse_if true rc = err rc
refuse_if false rc = ok tt

module _ {S T : Type 0} where
  -- A chain that succeeded made its first call succeed.
  pub >>=-eq_ok :
      (call : Result S) (rest : S → Result T) {made : T}
      → on_success rest call ≡ ok made
      → (out : S) × (call ≡ ok out) × (rest out ≡ ok made)
  >>=-eq_ok (err rc) rest done = cc
  >>=-eq_ok (ok out) rest done = (out, refl, done)

module _ {S : Type 0} where
  pub need-eq_ok : (o : Option S) (rc : Error) {out : S} → need o rc ≡ ok out → o ≡ some out
  need-eq_ok none rc done = cc
  need-eq_ok (some out) rc done = cc

  pub ok_inj : {x y : S} → ok x ≡ ok y → x ≡ y
  ok_inj same = cc

pub refuse_if-eq_ok : (test : Bool) (rc : Error) → refuse_if test rc ≡ ok tt → test ≡ false
refuse_if-eq_ok true rc done = cc
refuse_if-eq_ok false rc done = refl
