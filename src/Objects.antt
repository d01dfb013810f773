-- ===== src/Objects.antt =====
-- Objects that several names may share, by number: a list, to which a new object is put last.
use mathlib.Core.Path.{subst}
use uber_clone_python.Base.{
  ℕ, zero, suc, ◌≡◌, refl, ap, ◌≢◌, ◌⊎◌, inl, inr, Option, none, some, List, [], ◌∷◌, ◌++◌, length,
  arith, eqb, if◌then◌else◌, All,
}

module _ {A : Type 0} where
  -- The object of a number.
  unfoldable pub object : ℕ → List A → Option A
  object n [] = none
  object zero (x ∷ xs) = some x
  object (suc n) (x ∷ xs) = object n xs

  -- A change of the object of a number.
  unfoldable pub alter : ℕ → (A → A) → List A → List A
  alter n f [] = []
  alter zero f (x ∷ xs) = f x ∷ xs
  alter (suc n) f (x ∷ xs) = x ∷ alter n f xs

  pub object-append_new : (xs : List A) (x : A) → object (length xs) (xs ++ x ∷ []) ≡ some x
  unfolding object
  object-append_new [] x = refl
  object-append_new (y ∷ xs) x = object-append_new xs x

  pub object-append_old :
      (n : ℕ) (xs ys : List A) (x : A) → object n xs ≡ some x → object n (xs ++ ys) ≡ some x
  unfolding object
  object-append_old n [] ys x h = absurd (ground arith)
  object-append_old zero (y ∷ xs) ys x h = h
  object-append_old (suc n) (y ∷ xs) ys x h = object-append_old n xs ys x h

  pub append_longer : (xs : List A) (x : A) → length (xs ++ x ∷ []) ≢ length xs
  append_longer [] x h = absurd (ground arith)
  append_longer (y ∷ xs) x h = append_longer xs x (ground arith)

  -- Behind the objects there is only the new one.
  pub object-append_cases :
      (n : ℕ) (xs : List A) (y x : A)
      → object n (xs ++ y ∷ []) ≡ some x
      → (object n xs ≡ some x) ⊎ ((n ≡ length xs) × (y ≡ x))
  unfolding object
  object-append_cases zero [] y x h = inr (refl, ground arith)
  object-append_cases (suc n) [] y x h = absurd (ground arith)
  object-append_cases zero (z ∷ xs) y x h = inl h
  object-append_cases (suc n) (z ∷ xs) y x h = elim (object-append_cases n xs y x h) [
    | inl old ↦ inl old
    | inr (last, same) ↦ inr (ap suc last, same)
  ]

  pub object-alter_self :
      (n : ℕ) (f : A → A) (xs : List A) (x : A)
      → object n xs ≡ some x
      → object n (alter n f xs) ≡ some (f x)
  unfolding object alter
  object-alter_self n f [] x h = absurd (ground arith)
  object-alter_self zero f (y ∷ xs) x h = ground arith
  object-alter_self (suc n) f (y ∷ xs) x h = object-alter_self n f xs x h

  pub object-alter_ne :
      (n m : ℕ) (f : A → A) (xs : List A) → n ≢ m → object m (alter n f xs) ≡ object m xs
  unfolding object alter
  object-alter_ne n m f [] h = refl
  object-alter_ne zero zero f (y ∷ xs) h = absurd (h refl)
  object-alter_ne zero (suc m) f (y ∷ xs) h = refl
  object-alter_ne (suc n) zero f (y ∷ xs) h = refl
  object-alter_ne (suc n) (suc m) f (y ∷ xs) h = object-alter_ne n m f xs (λ e. h (ap suc e))

  pub alter-append_new :
      (f : A → A) (xs : List A) (x : A) → alter (length xs) f (xs ++ x ∷ []) ≡ xs ++ f x ∷ []
  unfolding alter
  alter-append_new f [] x = refl
  alter-append_new f (y ∷ xs) x = ap (λ l. y ∷ l) (alter-append_new f xs x)

  -- A change that leaves the object as it is.
  pub alter_same :
      (n : ℕ) (f : A → A) (xs : List A) (x : A) → object n xs ≡ some x → f x ≡ x → alter n f xs ≡ xs
  unfolding object alter
  alter_same n f [] x h same = refl
  alter_same zero f (y ∷ xs) x h same = ground arith
  alter_same (suc n) f (y ∷ xs) x h same = ap (λ l. y ∷ l) (alter_same n f xs x h same)

  -- An altered object was there before.
  pub object-alter_cases :
      (n m : ℕ) (f : A → A) (xs : List A) (x : A)
      → object m (alter n f xs) ≡ some x
      → ((n ≢ m) × (object m xs ≡ some x))
        ⊎ ((y : A) × (n ≡ m) × (object n xs ≡ some y) × (x ≡ f y))
  unfolding object alter
  object-alter_cases n m f [] x h = absurd (ground arith)
  object-alter_cases zero zero f (y ∷ xs) x h = inr (y, refl, refl, ground arith)
  object-alter_cases zero (suc m) f (y ∷ xs) x h = inl (ground arith, h)
  object-alter_cases (suc n) zero f (y ∷ xs) x h = inl (ground arith, h)
  object-alter_cases (suc n) (suc m) f (y ∷ xs) x h = elim (object-alter_cases n m f xs x h) [
    | inl (apart, old) ↦ inl (λ e. apart (ground arith), old)
    | inr (z, same, was, is) ↦ inr (z, ap suc same, was, is)
  ]

-- A dictionary with numbers for keys.
module _ {A : Type 0} where
  unfoldable pub get : ℕ → List (ℕ × A) → Option A
  get k [] = none
  get k ((j, v) ∷ rest) = if eqb j k then some v else get k rest

  unfoldable pub pop : ℕ → List (ℕ × A) → List (ℕ × A)
  pop k [] = []
  pop k ((j, v) ∷ rest) = let others = pop k rest in if eqb j k then others else (j, v) ∷ others

  pub get-pop : (k j : ℕ) (d : List (ℕ × A)) → get j (pop k d) ≡ (if eqb k j then none else get j d)
  unfolding get pop
  get-pop k j [] = ground arith
  get-pop k j ((i, v) ∷ d) = ground (arith, get-pop k j d)

  -- `d[k] = v`
  pub get-put :
      (k j : ℕ) (v : A) (d : List (ℕ × A))
      → get j ((k, v) ∷ pop k d) ≡ (if eqb k j then some v else get j d)
  unfolding get
  get-put k j v d = ground (arith, get-pop k j d)

module _ {A : Type 0} where
  -- Of two lists, which one an object stands in; all of the second have a property.
  pub object-append-All :
      (P : A → Type 0) (n : ℕ) (xs ys : List A) (x : A)
      → All P ys
      → object n (xs ++ ys) ≡ some x
      → (object n xs ≡ some x) ⊎ P x
  unfolding object
  object-append-All P n [] [] x all h = absurd (ground arith)
  object-append-All P zero [] (y ∷ ys) x (here, _) h = inr (subst P (ground arith) here)
  object-append-All P (suc n) [] (y ∷ ys) x (_, rest) h =
      elim (object-append-All P n [] ys x rest h) [
        | inl old ↦ absurd (ground arith)
        | inr new ↦ inr new
      ]
  object-append-All P zero (z ∷ xs) ys x all h = inl h
  object-append-All P (suc n) (z ∷ xs) ys x all h = object-append-All P n xs ys x all h
