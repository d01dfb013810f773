-- ===== src/Exec.antt =====
-- A handler or a method: it reads and changes a state and may raise. What was written before a
-- raise stays written, so the state comes back beside the error too.
use uber_clone_python.Base.{
  ◌≡◌, refl, ◌⊎◌, inl, inr, ℕ, ⊤, String, Bool, Option, none, some, if◌then◌else◌,
}

-- What the code raises: `HTTPException` with its status and detail, and the exceptions that reach
-- the framework as an internal error.
pub data Error : Type 0 where
  http : ℕ → String → Error
  integrity_error : Error
  value_error : Error
  decimal_error : Error
  redis_error : Error
  key_error : Error
  runtime_error : Error
  kafka_error : Error
  unicode_error : Error
  cancelled_error : Error
  assertion_error : Error
  multiple_results_found : Error

pub data Result (A : Type 0) : Type 0 where
  ok : A → Result A
  err : Error → Result A

abbrev pub Exec : Type 0 → Type 0 → Type 0
Exec S A = S → Result A × S

module _ {S A : Type 0} where
  abbrev pub pure : A → Exec S A
  pure a s = (ok a, s)

  abbrev pub raise : Error → Exec S A
  raise e s = (err e, s)

  abbrev pub lift : Result A → Exec S A
  lift r s = (r, s)

  abbrev pub gets : (S → A) → Exec S A
  gets f s = (ok (f s), s)

  abbrev pub or_raise : Option A → Error → Exec S A
  or_raise none e s = (err e, s)
  or_raise (some a) e s = (ok a, s)

infixl 5 ◌>>=◌ ◌>>◌
abbrev pub ◌>>=◌ : {S A B : Type 0} → Exec S A → (A → Exec S B) → Exec S B
◌>>=◌ m f s = let (r, s') = m s in elim r [ ok a ↦ f a s' | err e ↦ (err e, s') ]

abbrev pub ◌>>◌ : {S A B : Type 0} → Exec S A → Exec S B → Exec S B
m >> k = m >>= λ _. k

module _ {S : Type 0} where
  -- `if c: raise e`
  abbrev pub raise_if : Bool → Error → Exec S ⊤
  raise_if c e s = (if c then err e else ok tt, s)

  abbrev pub modify : (S → S) → Exec S ⊤
  modify f s = (ok tt, f s)

-- The ways in which an optional read may end.
pub Result-cases :
    {A : Type 0} (r : Result (Option A))
    → ((e : Error) × (r ≡ err e)) ⊎ (r ≡ ok none) ⊎ ((a : A) × (r ≡ ok (some a)))
Result-cases (ok none) = inr (inl refl)
Result-cases (ok (some a)) = inr (inr (a, refl))
Result-cases (err e) = inl (e, refl)

-- What the rest of a block keeps for every value, and the state has already, the block keeps.
pub lift_keeps :
    {S A B : Type 0} (P : S → Type 0) (r : Result A) (f : A → Exec S B) (s : S)
    → P s
    → ((a : A) → P (f a s).1)
    → P ((lift r >>= f) s).1
lift_keeps P (ok a) f s h k = k a
lift_keeps P (err e) f s h k = h

pub ok-or-err : {A : Type 0} (r : Result A) → ((e : Error) × (r ≡ err e)) ⊎ ((a : A) × (r ≡ ok a))
ok-or-err (ok a) = inr (a, refl)
ok-or-err (err e) = inl (e, refl)
