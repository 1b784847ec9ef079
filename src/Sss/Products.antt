-- ===== src/Sss/Products.antt =====
-- The weights of interpolation in sss.c as quotients of two products.
use qsafe.Base.{◌≡◌, ◌≢◌, refl, ◌∙◌, sym, ap, List, [], ◌∷◌, ◌++◌, All}
use qsafe.Sss.Interpolation.{
  CharTwo, null_mul, unit_mul, mul_swap, mul_cancel, weight, weight_cons, weight_nil,
}

module _ (F : CharTwo) where
  open F use {A, null, unit, add, mul, div, add_comm, mul_assoc, mul_unit, div_mul}

  -- The two products whose quotient is the weight, with accumulators.
  pub products : A × A → A → List A → A × A
  products nd x [] = nd
  products nd x (y ∷ ys) = products (mul nd.0 y, mul nd.1 (add y x)) x ys

  pub products-append :
      (nd : A × A) (x : A) (before rest : List A)
      → products nd x (before ++ rest) ≡ products (products nd x before) x rest
  unfolding products
  products-append nd x [] rest = refl
  products-append nd x (y ∷ before) rest =
      products-append (mul nd.0 y, mul nd.1 (add y x)) x before rest

  pub products_cons :
      (nd : A × A) (x y : A) (ys : List A)
      → products nd x (y ∷ ys) ≡ products (mul nd.0 y, mul nd.1 (add y x)) x ys
  unfolding products
  products_cons nd x y ys = refl

  pub products_nil : (nd : A × A) (x : A) → products nd x [] ≡ nd
  unfolding products
  products_nil nd x = refl

  no_divisors : (a b : A) → a ≢ null → b ≢ null → mul a b ≢ null
  no_divisors a b ha hb e = ha (mul_cancel F a null b hb (e ∙ sym (null_mul F b)))

  products-weight :
      (v : A) (nd : A × A) (x : A) (ys : List A)
      → mul v nd.1 ≡ nd.0
      → nd.1 ≢ null
      → All (λ y. add y x ≢ null) ys
      → (mul (mul v (weight F ys x)) (products nd x ys).1 ≡ (products nd x ys).0)
        × ((products nd x ys).1 ≢ null)
  unfolding products
  products-weight v nd x [] h ne d =
      (ap (λ t. mul (mul v t) nd.1) (weight_nil F x) ∙ ap (λ t. mul t nd.1) (unit_mul F v) ∙ h, ne)
  products-weight v nd x (y ∷ ys) h ne d =
      let r = div y (add y x) in
      let step : mul (mul v r) (mul nd.1 (add y x)) ≡ mul nd.0 y =
        mul_assoc v r (mul nd.1 (add y x))
        ∙ ap (mul v) (mul_swap F r nd.1 (add y x) ∙ ap (mul nd.1) (div_mul y (add y x) d.0))
        ∙ sym (mul_assoc v nd.1 y)
        ∙ ap (λ t. mul t y) h in
      let (ratio, nonzero) =
        products-weight (mul v r) (mul nd.0 y, mul nd.1 (add y x)) x ys step
          (no_divisors nd.1 (add y x) ne d.0) d.1 in
      (
        ap (λ t. mul t (products (mul nd.0 y, mul nd.1 (add y x)) x ys).1)
              (ap (mul v) (weight_cons F y ys x) ∙ sym (mul_assoc v r (weight F ys x)))
            ∙ ratio,
        nonzero,
      )

  -- The quotient of the products over the other points is the weight.
  pub div-products :
      (x : A) (ys : List A)
      → unit ≢ null
      → All (λ y. add y x ≢ null) ys
      → div (products (unit, unit) x ys).0 (products (unit, unit) x ys).1 ≡ weight F ys x
  div-products x ys ne d =
      let nd = products (unit, unit) x ys in
      let (ratio, nonzero) = products-weight unit (unit, unit) x ys (mul_unit unit) ne d in
      mul_cancel F (div nd.0 nd.1) (weight F ys x) nd.1 nonzero
        (div_mul nd.0 nd.1 nonzero ∙ sym ratio ∙ ap (λ t. mul t nd.1) (mul_unit (weight F ys x)))
