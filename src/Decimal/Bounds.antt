-- ===== src/Decimal/Bounds.antt =====
-- Bounds of the decimal operations.
use uber_clone_python.Base.{
  ℕ, zero, suc, ◌+◌, ◌≤◌, ◌<◌, ◌*◌, ◌^◌, ◌/◌, ◌≡◌, refl, ◌≢◌, ◌⊎◌, inl, inr, arith,
}
use uber_clone_python.Decimal.{Decimal}
use native.Mathlib.Nat.{pow-suc, le-div_iff_mul-le, div-lt_iff_lt-mul}
use uber_clone_python.Decimal.{finite, nan, digits_from, digits, hundredths, fix, div_int}

pub pow-pos : (s : ℕ) → 0 < 10 ^ s
pow-pos zero = omega arith
pow-pos (suc s) = rw pow-suc (omega (arith, pow-pos s))

-- A number below 10 ^ k has at most k digits.
digits_from-le : (fuel k n : ℕ) → n < 10 ^ k → digits_from fuel n ≤ k
unfolding digits_from
digits_from-le zero k n h = omega arith
digits_from-le (suc fuel) zero n h = ground arith
digits_from-le (suc fuel) (suc k) n h =
    let step : n / 10 < 10 ^ k = omega (arith, pow-suc 10 k) in
    ground (arith, digits_from-le fuel k (n / 10) step)

pub digits-le : (k n : ℕ) → n < 10 ^ k → digits n ≤ k
unfolding digits
digits-le k n h = digits_from-le n k n h

pub hundredths-le : (c s : ℕ) → c ≤ 3 * 10 ^ s → hundredths c s ≤ 300
hundredths-le c s h = omega (
  arith,
  (div-lt_iff_lt-mul {k = 2 * 10 ^ s} {x = 200 * c + 10 ^ s} {y = 301} (omega (arith, pow-pos s))).1
      (omega (arith, pow-pos s)),
)

pub le-hundredths : (c s : ℕ) → 10 ^ s ≤ c → 100 ≤ hundredths c s
le-hundredths c s h = (le-div_iff_mul-le (omega (arith, pow-pos s))).1 (omega arith)

finite-cases : (d : Decimal) → (d ≡ nan) ⊎ ((c : ℕ) × (s : ℕ) × (d ≡ finite c s))
finite-cases (finite c s) = inr (c, s, refl)
finite-cases nan = inl refl

fix-ne-nan : (c s : ℕ) → fix c s ≢ nan
unfolding fix
fix-ne-nan c s = ground arith

div_int-ne-nan : (p a : ℕ) → div_int p a ≢ nan
unfolding div_int
div_int-ne-nan p a = grind (arith, fix-ne-nan)

-- A quotient of integers is finite.
pub div_int-finite : (p a : ℕ) → (c : ℕ) × (s : ℕ) × (div_int p a ≡ finite c s)
div_int-finite p a = elim (finite-cases (div_int p a)) [
  | inl e ↦ absurd (div_int-ne-nan p a e)
  | inr found ↦ found
]
