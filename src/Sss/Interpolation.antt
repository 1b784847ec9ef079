-- ===== src/Sss/Interpolation.antt =====
-- Interpolation at 0 in a field of characteristic 2, the algebra behind sss.c.
use qsafe.Base.{
  ◌-◌, ◌≤◌, ◌≡◌, ◌≢◌, refl, ◌∙◌, sym, ap, ap₂, List, [], ◌∷◌, ◌++◌, append_assoc, length, All,
  arith,
}
use mathlib.Core.Path.{fun_ext}

pub record CharTwo : Type 1 where
  pub A : Type 0
  pub null : A
  pub unit : A
  pub add : A → A → A
  pub mul : A → A → A
  pub div : A → A → A
  pub add_comm : (a b : A) → add a b ≡ add b a
  pub add_assoc : (a b c : A) → add (add a b) c ≡ add a (add b c)
  pub add_null : (a : A) → add null a ≡ a
  pub add_self : (a : A) → add a a ≡ null
  pub mul_comm : (a b : A) → mul a b ≡ mul b a
  pub mul_assoc : (a b c : A) → mul (mul a b) c ≡ mul a (mul b c)
  pub mul_unit : (a : A) → mul unit a ≡ a
  pub mul_add : (a b c : A) → mul a (add b c) ≡ add (mul a b) (mul a c)
  pub div_mul : (a b : A) → b ≢ null → mul (div a b) b ≡ a

module _ (F : CharTwo) where
  open F use {
    A, null, unit, add, mul, div, add_comm, add_assoc, add_null, add_self, mul_comm, mul_assoc,
    mul_unit, mul_add, div_mul,
  }

  pub null_add : (a : A) → add a null ≡ a
  null_add a = add_comm a null ∙ add_null a

  pub mul_null : (a : A) → mul a null ≡ null
  mul_null a = ap (mul a) (sym (add_self null)) ∙ mul_add a null null ∙ add_self (mul a null)

  pub null_mul : (a : A) → mul null a ≡ null
  null_mul a = mul_comm null a ∙ mul_null a

  pub unit_mul : (a : A) → mul a unit ≡ a
  unit_mul a = mul_comm a unit ∙ mul_unit a

  pub add_mul : (a b c : A) → mul (add a b) c ≡ add (mul a c) (mul b c)
  add_mul a b c = mul_comm (add a b) c ∙ mul_add c a b ∙ ap₂ add (mul_comm c a) (mul_comm c b)

  -- (a + b) + (c + d) in another order.
  pub add_swap : (a b c d : A) → add (add a b) (add c d) ≡ add (add a c) (add b d)
  add_swap a b c d =
      add_assoc a b (add c d)
      ∙ ap (add a) (sym (add_assoc b c d) ∙ ap (λ t. add t d) (add_comm b c) ∙ add_assoc c b d)
      ∙ sym (add_assoc a c (add b d))

  -- a + (a + b) is b.
  pub add_twice : (a b : A) → add a (add a b) ≡ b
  add_twice a b = sym (add_assoc a a b) ∙ ap (λ t. add t b) (add_self a) ∙ add_null b

  pub mul_swap : (a b c : A) → mul a (mul b c) ≡ mul b (mul a c)
  mul_swap a b c = sym (mul_assoc a b c) ∙ ap (λ t. mul t c) (mul_comm a b) ∙ mul_assoc b a c

  pub mul_cancel : (a b c : A) → c ≢ null → mul a c ≡ mul b c → a ≡ b
  mul_cancel a b c ne h =
      let u = div unit c in
      let back =
        λ (x : A). mul_assoc x c u ∙ ap (mul x) (mul_comm c u ∙ div_mul unit c ne) ∙ unit_mul x in
      sym (back a) ∙ ap (λ t. mul t u) h ∙ back b

  -- The weight of the point `x` among the other points.
  pub weight : List A → A → A
  weight [] x = unit
  weight (k ∷ others) x = mul (div k (add k x)) (weight others x)

  -- The weighted sum over the points that follow those that were seen.
  pub weighted : (A → A) → List A → List A → A
  weighted f seen [] = null
  weighted f seen (x ∷ rest) =
      add (mul (f x) (weight (seen ++ rest) x)) (weighted f (seen ++ (x ∷ [])) rest)

  weighted-add :
      (f g : A → A) (seen rest : List A)
      → weighted (λ x. add (f x) (g x)) seen rest
        ≡ add (weighted f seen rest) (weighted g seen rest)
  unfolding weighted
  weighted-add f g seen [] = sym (add_self null)
  weighted-add f g seen (x ∷ rest) =
      let w = weight (seen ++ rest) x in
      ap₂ add (add_mul (f x) (g x) w) (weighted-add f g (seen ++ (x ∷ [])) rest)
      ∙ add_swap (mul (f x) w) (mul (g x) w) (weighted f (seen ++ (x ∷ [])) rest)
          (weighted g (seen ++ (x ∷ [])) rest)

  weighted-mul :
      (c : A) (f : A → A) (seen rest : List A)
      → weighted (λ x. mul c (f x)) seen rest ≡ mul c (weighted f seen rest)
  unfolding weighted
  weighted-mul c f seen [] = sym (mul_null c)
  weighted-mul c f seen (x ∷ rest) =
      let w = weight (seen ++ rest) x in
      ap₂ add (mul_assoc c (f x) w) (weighted-mul c f (seen ++ (x ∷ [])) rest)
      ∙ sym (mul_add c (mul (f x) w) (weighted f (seen ++ (x ∷ [])) rest))

  -- Seen lists that differ by the point `a`.
  abbrev Adds : A → List A → List A → Type 0
  Adds a s s' =
      (ys : List A) (x : A) → weight (s' ++ ys) x ≡ mul (div a (add a x)) (weight (s ++ ys) x)

  Adds-append :
      (a : A) (s s' : List A) (x : A) → Adds a s s' → Adds a (s ++ (x ∷ [])) (s' ++ (x ∷ []))
  Adds-append a s s' x h ys z =
      ap (λ l. weight l z) (append_assoc s' (x ∷ []) ys)
      ∙ h (x ∷ ys) z
      ∙ ap (λ l. mul (div a (add a z)) (weight l z)) (sym (append_assoc s (x ∷ []) ys))

  Adds-head : (a : A) (s : List A) → Adds a s (a ∷ s)
  unfolding weight
  Adds-head a s ys x = refl

  Adds-second : (b a : A) → Adds b (a ∷ []) (a ∷ (b ∷ []))
  unfolding weight
  Adds-second b a ys x = mul_swap (div a (add a x)) (div b (add b x)) (weight ys x)

  -- A factor that vanishes at `a` takes the point out of the weights.
  cancel_factor :
      (a x y w : A)
      → add a x ≢ null
      → mul (mul (add x a) y) (mul (div a (add a x)) w) ≡ mul a (mul y w)
  cancel_factor a x y w ne =
      let d = div a (add a x) in
      mul_assoc (add x a) y (mul d w)
      ∙ ap (mul (add x a)) (mul_swap y d w)
      ∙ sym (mul_assoc (add x a) d (mul y w))
      ∙ ap (λ t. mul t (mul y w))
          (ap (λ t. mul t d) (add_comm x a) ∙ mul_comm (add a x) d ∙ div_mul a (add a x) ne)

  weighted-factor :
      (a : A) (f : A → A) (s s' rest : List A)
      → Adds a s s'
      → All (λ x. add a x ≢ null) rest
      → weighted (λ x. mul (add x a) (f x)) s' rest ≡ mul a (weighted f s rest)
  unfolding weighted
  weighted-factor a f s s' [] adds d = sym (mul_null a)
  weighted-factor a f s s' (x ∷ rest) adds d =
      let w = weight (s ++ rest) x in
      ap₂ add (ap (mul (mul (add x a) (f x))) (adds rest x) ∙ cancel_factor a x (f x) w d.0)
        (weighted-factor a f (s ++ (x ∷ [])) (s' ++ (x ∷ [])) rest (Adds-append a s s' x adds) d.1)
      ∙ sym (mul_add a (mul (f x) w) (weighted f (s ++ (x ∷ [])) rest))

  -- No two points are the same.
  abbrev pub Distinct : List A → Type 0
  Distinct [] = Unit
  Distinct (x ∷ rest) = All (λ y. add x y ≢ null) rest × Distinct rest

  weighted_first :
      (a : A) (f : A → A) (xs : List A)
      → All (λ x. add a x ≢ null) xs
      → weighted (λ x. mul (add x a) (f x)) [] (a ∷ xs) ≡ mul a (weighted f [] xs)
  unfolding weighted
  weighted_first a f xs d =
      let w = weight xs a in
      ap₂ add
        (ap (λ t. mul (mul t (f a)) w) (add_self a)
          ∙ ap (λ t. mul t w) (null_mul (f a))
          ∙ null_mul w)
        (weighted-factor a f [] (a ∷ []) xs (Adds-head a []) d)
      ∙ add_null (mul a (weighted f [] xs))

  weighted_second :
      (a b : A) (f : A → A) (xs : List A)
      → add b a ≢ null
      → All (λ x. add b x ≢ null) xs
      → weighted (λ x. mul (add x b) (f x)) [] (a ∷ b ∷ xs) ≡ mul b (weighted f [] (a ∷ xs))
  unfolding weighted weight
  weighted_second a b f xs ne d =
      let w = weight xs a in
      let v = weight (a ∷ xs) b in
      ap₂ add (cancel_factor b a (f a) w ne) (
        ap₂ add
          (ap (λ t. mul (mul t (f b)) v) (add_self b)
            ∙ ap (λ t. mul t v) (null_mul (f b))
            ∙ null_mul v)
          (weighted-factor b f (a ∷ []) (a ∷ (b ∷ [])) xs (Adds-second b a) d)
        ∙ add_null (mul b (weighted f (a ∷ []) xs)))
      ∙ sym (mul_add b (mul (f a) w) (weighted f (a ∷ []) xs))

  -- The weights of distinct points add up to 1.
  weighted_unit :
      (a : A) (xs : List A) → Distinct (a ∷ xs) → weighted (λ _. unit) [] (a ∷ xs) ≡ unit
  unfolding weighted weight
  weighted_unit a [] d = null_add (mul unit unit) ∙ mul_unit unit
  weighted_unit a (b ∷ xs) d =
      let total = weighted (λ _. unit) [] (a ∷ b ∷ xs) in
      let ba : add b a ≢ null = λ e. d.0.0 (add_comm a b ∙ e) in
      let at_a : weighted (λ x. mul (add x a) unit) [] (a ∷ b ∷ xs) ≡ a =
        weighted_first a (λ _. unit) (b ∷ xs) d.0
        ∙ ap (mul a) (weighted_unit b xs d.1)
        ∙ unit_mul a in
      let at_b : weighted (λ x. mul (add x b) unit) [] (a ∷ b ∷ xs) ≡ b =
        weighted_second a b (λ _. unit) xs ba d.1.0
        ∙ ap (mul b) (weighted_unit a xs (d.0.1, d.1.1))
        ∙ unit_mul b in
      let pointwise : (x : A) → add (mul (add x a) unit) (mul (add x b) unit) ≡ mul (add a b) unit =
        λ x.
          ap₂ add (unit_mul (add x a)) (unit_mul (add x b))
          ∙ add_swap x a x b
          ∙ ap (λ t. add t (add a b)) (add_self x)
          ∙ add_null (add a b)
          ∙ sym (unit_mul (add a b)) in
      let scaled : mul total (add a b) ≡ mul unit (add a b) =
        mul_comm total (add a b)
        ∙ sym (weighted-mul (add a b) (λ _. unit) [] (a ∷ b ∷ xs))
        ∙ ap (λ (f : A → A). weighted f [] (a ∷ b ∷ xs)) (sym (fun_ext pointwise))
        ∙ weighted-add (λ x. mul (add x a) unit) (λ x. mul (add x b) unit) [] (a ∷ b ∷ xs)
        ∙ ap₂ add at_a at_b
        ∙ sym (mul_unit (add a b)) in
      mul_cancel total unit (add a b) d.0.0 scaled

  -- A polynomial at a point, lowest coefficient first.
  pub eval : List A → A → A
  eval [] x = null
  eval (c ∷ cs) x = add (mul (eval cs x) x) c

  -- Its quotient by the factor that vanishes at `a`.
  quotient : List A → A → List A
  unfolding eval
  quotient [] a = []
  quotient (c ∷ []) a = []
  quotient (c ∷ (d ∷ g)) a = eval (d ∷ g) a ∷ quotient (d ∷ g) a

  length-quotient : (cs : List A) (a : A) → length (quotient cs a) ≡ length cs - 1
  unfolding quotient
  length-quotient [] a = refl
  length-quotient (c ∷ []) a = refl
  length-quotient (c ∷ (d ∷ g)) a = omega (arith, length-quotient (d ∷ g) a)

  regroup : (u v m c : A) → add (add u m) c ≡ add (add v c) (add m (add u v))
  regroup u v m c =
      add_comm (add u m) c
      ∙ ap (add c) (add_comm u m)
      ∙ sym (add_null (add c (add m u)))
      ∙ ap (λ t. add t (add c (add m u))) (sym (add_self v))
      ∙ add_swap v v c (add m u)
      ∙ ap (add (add v c)) (add_comm v (add m u) ∙ add_assoc m u v)

  eval-quotient :
      (cs : List A) (a x : A) → eval cs x ≡ add (eval cs a) (mul (add x a) (eval (quotient cs a) x))
  unfolding eval quotient
  eval-quotient [] a x = sym (add_null (mul (add x a) null) ∙ mul_null (add x a))
  eval-quotient (c ∷ []) a x =
      ap (λ t. add t c) (null_mul x ∙ sym (null_mul a))
      ∙ sym (null_add (add (mul null a) c))
      ∙ ap (add (add (mul null a) c)) (sym (mul_null (add x a)))
  eval-quotient (c ∷ (d ∷ g)) a x =
      let pa = eval (d ∷ g) a in
      let q = eval (quotient (d ∷ g) a) x in
      let m = mul (add x a) (mul q x) in
      let times : mul (eval (d ∷ g) x) x ≡ add (mul pa x) m =
        ap (λ t. mul t x) (eval-quotient (d ∷ g) a x)
        ∙ add_mul pa (mul (add x a) q) x
        ∙ ap (add (mul pa x)) (mul_assoc (add x a) q x) in
      let spread : mul (add x a) (add (mul q x) pa) ≡ add m (add (mul pa x) (mul pa a)) =
        mul_add (add x a) (mul q x) pa ∙ ap (add m) (mul_comm (add x a) pa ∙ mul_add pa x a) in
      ap (λ t. add t c) times
      ∙ regroup (mul pa x) (mul pa a) m c
      ∙ ap (add (add (mul pa a) c)) (sym spread)

  -- A polynomial with no more coefficients than there are distinct points is interpolated at 0.
  pub weighted-eval :
      (xs : List A) (cs : List A)
      → Distinct xs
      → length cs ≤ length xs
      → weighted (eval cs) [] xs ≡ eval cs null
  unfolding weighted eval quotient
  weighted-eval [] [] d h = refl
  weighted-eval [] (c ∷ cs) d h = absurd (omega arith)
  weighted-eval (a ∷ xs) cs d h =
      let q = quotient cs a in
      let split : weighted (eval cs) [] (a ∷ xs) ≡ add (eval cs a) (mul a (eval q null)) =
        ap (λ (f : A → A). weighted f [] (a ∷ xs))
          (fun_ext (λ x.
            eval-quotient cs a x
            ∙ ap (λ t. add t (mul (add x a) (eval q x))) (sym (unit_mul (eval cs a)))))
        ∙ weighted-add (λ _. mul (eval cs a) unit) (λ x. mul (add x a) (eval q x)) [] (a ∷ xs)
        ∙ ap₂ add
            (weighted-mul (eval cs a) (λ _. unit) [] (a ∷ xs)
              ∙ ap (mul (eval cs a)) (weighted_unit a xs d)
              ∙ unit_mul (eval cs a))
            (weighted_first a (eval q) xs d.0
              ∙ ap (mul a) (weighted-eval xs q d.1 (omega (arith, length-quotient cs a)))) in
      split
      ∙ ap (λ t. add (eval cs a) (mul t (eval q null))) (sym (add_null a))
      ∙ sym (eval-quotient cs a null)

  -- The clauses of the definitions.
  pub eval_nil : (x : A) → eval [] x ≡ null
  unfolding eval
  eval_nil x = refl

  pub eval_cons : (c : A) (cs : List A) (x : A) → eval (c ∷ cs) x ≡ add (mul (eval cs x) x) c
  unfolding eval
  eval_cons c cs x = refl

  pub eval_at_null : (c : A) (cs : List A) → eval (c ∷ cs) null ≡ c
  unfolding eval
  eval_at_null c cs = ap (λ t. add t c) (mul_null (eval cs null)) ∙ add_null c

  pub weight_nil : (x : A) → weight [] x ≡ unit
  unfolding weight
  weight_nil x = refl

  pub weight_cons :
      (k : A) (others : List A) (x : A)
      → weight (k ∷ others) x ≡ mul (div k (add k x)) (weight others x)
  unfolding weight
  weight_cons k others x = refl

  pub weighted_nil : (f : A → A) (seen : List A) → weighted f seen [] ≡ null
  unfolding weighted
  weighted_nil f seen = refl

  pub weighted_cons :
      (f : A → A) (seen : List A) (x : A) (rest : List A)
      → weighted f seen (x ∷ rest)
        ≡ add (mul (f x) (weight (seen ++ rest) x)) (weighted f (seen ++ (x ∷ [])) rest)
  unfolding weighted
  weighted_cons f seen x rest = refl
