-- ===== src/Sss/Masks.antt =====
-- Polynomials that vanish at given points, which move the constant term of another polynomial and
-- leave its values at those points: the algebra behind the secrecy of sss.c.
use qsafe.Base.{
  suc, ◌≤◌, ◌≡◌, ◌≢◌, refl, ◌∙◌, sym, ap, ap₂, subst, List, [], ◌∷◌, length, All, arith,
}
use qsafe.Sss.Interpolation.{
  CharTwo, null_add, mul_null, null_mul, add_mul, add_swap, add_twice, mul_cancel, eval, eval_nil,
  eval_cons,
}

module _ (F : CharTwo) where
  open F use {
    A, null, unit, add, mul, div, add_comm, add_assoc, add_null, add_self, mul_comm, mul_assoc,
    mul_unit, mul_add, div_mul,
  }

  -- The product of a polynomial with x + a, whose lowest coefficient gets `carry` added.
  pub times_linear : A → A → List A → List A
  times_linear a carry [] = carry ∷ []
  times_linear a carry (c ∷ cs) = add carry (mul a c) ∷ times_linear a c cs

  length-times_linear :
      (a carry : A) (cs : List A) → length (times_linear a carry cs) ≡ suc (length cs)
  unfolding times_linear
  length-times_linear a carry [] = refl
  length-times_linear a carry (c ∷ cs) = ap suc (length-times_linear a c cs)

  eval-times_linear :
      (a carry : A) (cs : List A) (x : A)
      → eval F (times_linear a carry cs) x ≡ add (mul (add x a) (eval F cs x)) carry
  unfolding times_linear
  eval-times_linear a carry [] x =
      eval_cons F carry [] x
      ∙ ap (λ t. add t carry)
          (ap (λ t. mul t x) (eval_nil F x)
            ∙ null_mul F x
            ∙ sym (mul_null F (add x a))
            ∙ ap (mul (add x a)) (sym (eval_nil F x)))
  eval-times_linear a carry (c ∷ cs) x =
      let e = eval F cs x in
      let y = add x a in
      let high : mul (eval F (times_linear a c cs) x) x ≡ add (mul y (mul e x)) (mul x c) =
        ap (λ t. mul t x) (eval-times_linear a c cs x)
        ∙ add_mul F (mul y e) c x
        ∙ ap₂ add (mul_assoc y e x) (mul_comm c x) in
      let low : mul y (add (mul e x) c) ≡ add (mul y (mul e x)) (add (mul x c) (mul a c)) =
        mul_add y (mul e x) c ∙ ap (add (mul y (mul e x))) (add_mul F x a c) in
      eval_cons F (add carry (mul a c)) (times_linear a c cs) x
      ∙ ap₂ add high (add_comm carry (mul a c))
      ∙ sym (add_assoc (add (mul y (mul e x)) (mul x c)) (mul a c) carry)
      ∙ ap (λ t. add t carry)
          (add_assoc (mul y (mul e x)) (mul x c) (mul a c)
            ∙ sym low
            ∙ ap (mul y) (sym (eval_cons F c cs x)))

  -- The polynomial that vanishes at exactly these points.
  pub vanishing : List A → List A
  vanishing [] = unit ∷ []
  vanishing (a ∷ roots) = times_linear a null (vanishing roots)

  pub length-vanishing : (roots : List A) → length (vanishing roots) ≡ suc (length roots)
  unfolding vanishing
  length-vanishing [] = refl
  length-vanishing (a ∷ roots) =
      length-times_linear a null (vanishing roots) ∙ ap suc (length-vanishing roots)

  vanishing_step :
      (a : A) (roots : List A) (x : A)
      → eval F (vanishing (a ∷ roots)) x ≡ mul (add x a) (eval F (vanishing roots) x)
  unfolding vanishing
  vanishing_step a roots x =
      eval-times_linear a null (vanishing roots) x
      ∙ null_add F (mul (add x a) (eval F (vanishing roots) x))

  All-step :
      (a : A) (roots xs : List A)
      → All (λ x. eval F (vanishing roots) x ≡ null) xs
      → All (λ x. eval F (vanishing (a ∷ roots)) x ≡ null) xs
  All-step a roots [] h = tt
  All-step a roots (x ∷ xs) h = (
    vanishing_step a roots x ∙ ap (mul (add x a)) h.0 ∙ mul_null F (add x a),
    All-step a roots xs h.1,
  )

  pub vanishes : (roots : List A) → All (λ x. eval F (vanishing roots) x ≡ null) roots
  vanishes [] = tt
  vanishes (a ∷ roots) = (
    vanishing_step a roots a
        ∙ ap (λ t. mul t (eval F (vanishing roots) a)) (add_self a)
        ∙ null_mul F (eval F (vanishing roots) a),
    All-step a roots roots (vanishes roots),
  )

  pub vanishing-nonzero :
      (roots : List A)
      → unit ≢ null
      → All (λ a. a ≢ null) roots
      → eval F (vanishing roots) null ≢ null
  unfolding vanishing
  vanishing-nonzero [] one h = λ e. one (
      sym (
        eval_cons F unit [] null
        ∙ ap (λ t. add t unit) (mul_null F (eval F [] null))
        ∙ add_null unit)
      ∙ e)
  vanishing-nonzero (a ∷ roots) one h = λ e.
      let v = eval F (vanishing roots) null in
      let product : mul a v ≡ mul null v =
        ap (λ t. mul t v) (sym (add_null a))
        ∙ sym (vanishing_step a roots null)
        ∙ e
        ∙ sym (null_mul F v) in
      h.0 (mul_cancel F a null v (vanishing-nonzero roots one h.1) product)

  -- The first polynomial plus `k` times the second, which is no longer.
  pub plus_times : A → List A → List A → List A
  plus_times k [] q = []
  plus_times k (c ∷ p) [] = c ∷ p
  plus_times k (c ∷ p) (d ∷ q) = add c (mul k d) ∷ plus_times k p q

  pub length-plus_times : (k : A) (p q : List A) → length (plus_times k p q) ≡ length p
  unfolding plus_times
  length-plus_times k [] q = refl
  length-plus_times k (c ∷ p) [] = refl
  length-plus_times k (c ∷ p) (d ∷ q) = ap suc (length-plus_times k p q)

  plus_nothing : (k : A) (p : List A) (x : A) → eval F p x ≡ add (eval F p x) (mul k (eval F [] x))
  plus_nothing k p x = sym (
      ap (λ t. add (eval F p x) (mul k t)) (eval_nil F x)
      ∙ ap (add (eval F p x)) (mul_null F k)
      ∙ null_add F (eval F p x))

  pub eval-plus_times :
      (k : A) (p q : List A) (x : A)
      → length q ≤ length p
      → eval F (plus_times k p q) x ≡ add (eval F p x) (mul k (eval F q x))
  unfolding plus_times
  eval-plus_times k [] [] x h = plus_nothing k [] x
  eval-plus_times k [] (d ∷ q) x h = absurd (omega arith)
  eval-plus_times k (c ∷ p) [] x h = plus_nothing k (c ∷ p) x
  eval-plus_times k (c ∷ p) (d ∷ q) x h =
      let ep = eval F p x in
      let eq = eval F q x in
      let spread : mul (add ep (mul k eq)) x ≡ add (mul ep x) (mul k (mul eq x)) =
        add_mul F ep (mul k eq) x ∙ ap (add (mul ep x)) (mul_assoc k eq x) in
      eval_cons F (add c (mul k d)) (plus_times k p q) x
      ∙ ap (λ t. add (mul t x) (add c (mul k d))) (eval-plus_times k p q x (omega arith))
      ∙ ap (λ t. add t (add c (mul k d))) spread
      ∙ add_swap F (mul ep x) (mul k (mul eq x)) c (mul k d)
      ∙ ap₂ add (sym (eval_cons F c p x))
          (sym (mul_add k (mul eq x) d) ∙ ap (mul k) (sym (eval_cons F d q x)))

  -- Twice is never.
  pub plus_times_twice : (k : A) (p q : List A) → plus_times k (plus_times k p q) q ≡ p
  unfolding plus_times
  plus_times_twice k [] q = refl
  plus_times_twice k (c ∷ p) [] = refl
  plus_times_twice k (c ∷ p) (d ∷ q) =
      ap₂ ◌∷◌
        (add_comm (add c (mul k d)) (mul k d)
          ∙ ap (add (mul k d)) (add_comm c (mul k d))
          ∙ add_twice F (mul k d) c)
        (plus_times_twice k p q)

  -- A polynomial with its constant term moved to `o`, and its values at the roots kept.
  pub moved : A → List A → List A → List A
  unfolding plus_times vanishing
  moved o roots p =
      plus_times (div (add (eval F p null) o) (eval F (vanishing roots) null)) p (vanishing roots)

  pub length-moved : (o : A) (roots p : List A) → length (moved o roots p) ≡ length p
  unfolding moved
  length-moved o roots p =
      length-plus_times (div (add (eval F p null) o) (eval F (vanishing roots) null)) p
        (vanishing roots)

  module _ (one : unit ≢ null) (o : A) (roots p : List A) (nonzero : All (λ a. a ≢ null) roots)
      (fewer : suc (length roots) ≤ length p) where
    bound : length (vanishing roots) ≤ length p
    bound = subst (λ n. n ≤ length p) (sym (length-vanishing roots)) fewer

    pub moved_constant : eval F (moved o roots p) null ≡ o
    unfolding moved
    moved_constant =
        let v = eval F (vanishing roots) null in
        let s = eval F p null in
        eval-plus_times (div (add s o) v) p (vanishing roots) null bound
        ∙ ap (add s) (div_mul (add s o) v (vanishing-nonzero roots one nonzero))
        ∙ add_twice F s o

    pub moved_values : All (λ x. eval F (moved o roots p) x ≡ eval F p x) roots
    unfolding moved
    moved_values = kept roots (vanishes roots)
      where
        kept :
            (xs : List A)
            → All (λ x. eval F (vanishing roots) x ≡ null) xs
            → All (λ x. eval F (moved o roots p) x ≡ eval F p x) xs
        kept [] h = tt
        kept (x ∷ xs) h =
            let k = div (add (eval F p null) o) (eval F (vanishing roots) null) in
            (
              eval-plus_times k p (vanishing roots) x bound
                  ∙ ap (λ t. add (eval F p x) (mul k t)) h.0
                  ∙ ap (add (eval F p x)) (mul_null F k)
                  ∙ null_add F (eval F p x),
              kept xs h.1,
            )

    -- Moving the constant term back gives the first polynomial.
    pub moved_back : moved (eval F p null) roots (moved o roots p) ≡ p
    unfolding moved
    moved_back =
        let v = eval F (vanishing roots) null in
        let s = eval F p null in
        ap (λ t. plus_times (div (add t s) v) (moved o roots p) (vanishing roots)) moved_constant
        ∙ ap (λ t. plus_times (div t v) (moved o roots p) (vanishing roots)) (add_comm o s)
        ∙ plus_times_twice (div (add s o) v) p (vanishing roots)
