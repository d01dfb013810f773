-- ===== src/Decimal.antt =====
-- `decimal.Decimal` of Python's standard library, as far as the program uses it: non-negative
-- finite values and NaN, under the default context of 28 digits. A value is kept up to trailing
-- zeros: `finite c s` is c / 10 ^ s.
pub mod Bounds
use uber_clone_python.Base.{
  ℕ, zero, suc, ◌+◌, ◌-◌, ◌*◌, ◌/◌, ◌%◌, ◌^◌, Bool, true, false, ltb, leb, eqb, if◌then◌else◌,
}
use uber_clone_python.Exec.{Result, ok, err, decimal_error}

pub data Decimal : Type 0 where
  finite : ℕ → ℕ → Decimal
  nan : Decimal

-- `getcontext().prec`
abbrev pub precision : ℕ
precision = 28

-- The number of digits of n; n itself is more fuel than there are digits.
digits_from : ℕ → ℕ → ℕ
digits_from zero n = 0
digits_from (suc fuel) n = elim (eqb n 0) [ true ↦ 0 | false ↦ suc (digits_from fuel (n / 10)) ]

unfoldable pub digits : ℕ → ℕ
unfolding digits_from
digits n = digits_from n n

-- c / d to the nearest integer, and a tie to the even one.
unfoldable pub half_even : ℕ → ℕ → ℕ
half_even c d =
    if ltb (2 * (c % d)) d
    then c / d
    else if ltb d (2 * (c % d))
    then c / d + 1
    else c / d + c / d % 2

-- Rounding to the context's precision, after each operation: the last k digits are dropped.
drop_digits : ℕ → ℕ → ℕ → Decimal
drop_digits k c s =
    if leb k s
    then finite (half_even c (10 ^ k)) (s - k)
    else finite (half_even c (10 ^ k) * 10 ^ (k - s)) 0

unfoldable pub fix : ℕ → ℕ → Decimal
unfolding drop_digits
fix c s = if leb (digits c) precision then finite c s else drop_digits (digits c - precision) c s

unfoldable pub add : Decimal → Decimal → Decimal
add (finite a s) (finite b t) = fix (a * 10 ^ t + b * 10 ^ s) (s + t)
add (finite _ _) nan = nan
add nan _ = nan

unfoldable pub mul : Decimal → Decimal → Decimal
mul (finite a s) (finite b t) = fix (a * b) (s + t)
mul (finite _ _) nan = nan
mul nan _ = nan

-- A quotient with digits to spare; its last digit is made odd if something is left over, so that
-- the rounding sees that the quotient is no tie.
sticky : ℕ → ℕ → ℕ
sticky n d = if eqb (n % d) 0 then n / d else if eqb (n / d % 5) 0 then n / d + 1 else n / d

-- `Decimal(p) / Decimal(a)` for integers p and a, a not 0.
unfoldable pub div_int : ℕ → ℕ → Decimal
unfolding sticky
div_int p a =
    if leb (digits p) (digits a + precision + 1)
    then fix (sticky (p * 10 ^ (digits a + precision + 1 - digits p)) a)
        (digits a + precision + 1 - digits p)
    else fix
        (sticky p (a * 10 ^ (digits p - (digits a + precision + 1)))
          * 10 ^ (digits p - (digits a + precision + 1)))
        0

-- `<`; of NaN it is never asked.
abbrev pub lt : Decimal → Decimal → Bool
lt (finite a s) (finite b t) = ltb (a * 10 ^ t) (b * 10 ^ s)
lt (finite _ _) nan = false
lt nan _ = false

-- `min(a, b)` and `max(a, b)` keep `a` unless `b` is strictly on the other side.
unfoldable pub min_decimal : Decimal → Decimal → Decimal
min_decimal a b = if lt b a then b else a

unfoldable pub max_decimal : Decimal → Decimal → Decimal
max_decimal a b = if lt a b then b else a

-- c / 10 ^ s in hundredths, rounded half up.
abbrev pub hundredths : ℕ → ℕ → ℕ
hundredths c s = (200 * c + 10 ^ s) / (2 * 10 ^ s)

-- `quantize(Decimal("0.01"), rounding=ROUND_HALF_UP)`; a result of more than 28 digits raises.
unfoldable pub quantize : Decimal → Result Decimal
quantize (finite c s) =
    if leb (digits (hundredths c s)) precision
    then ok (finite (hundredths c s) 2)
    else err decimal_error
quantize nan = ok nan
