-- ===== src/Pricing/Surge.antt =====
-- The surge multiplier: its range for every demand and supply, and the cache in front of it.
use uber_clone_python.Base.{ℕ, ◌≤◌, ◌*◌, ◌^◌, ◌≡◌, refl, inl, inr, arith, ltb, eqb, Bool-cases}
use uber_clone_python.Exec.{ok}
use uber_clone_python.Decimal.{Decimal}
use uber_clone_python.Decimal.{finite, hundredths, digits, quantize, min_decimal, max_decimal}
use uber_clone_python.Decimal.Bounds.{div_int-finite, digits-le, hundredths-le, le-hundredths}
use uber_clone_python.Pricing.{compute_surge_multiplier, surge_min_multiplier, surge_max_multiplier}

-- A decimal from 1 to 3.
pub record InRange (d : Decimal) : Type 0 where
  pub coefficient : ℕ
  pub scale : ℕ
  pub value : d ≡ finite coefficient scale
  pub at_least_one : 10 ^ scale ≤ coefficient
  pub at_most_three : coefficient ≤ 3 * 10 ^ scale

-- Any finite quotient is clamped into the range.
clamped :
    (c s : ℕ)
    → InRange (max_decimal surge_min_multiplier (min_decimal surge_max_multiplier (finite c s)))
unfolding max_decimal min_decimal
clamped c s = elim (Bool-cases (ltb (c * 10) (30 * 10 ^ s))) [
  | inr above ↦ record {
    coefficient = 30;
    scale = 1;
    value = ground arith;
    at_least_one = omega arith;
    at_most_three = omega arith;
  }
  | inl below ↦ elim (Bool-cases (ltb (10 * 10 ^ s) (c * 10))) [
    | inr small ↦ record {
      coefficient = 10;
      scale = 1;
      value = ground arith;
      at_least_one = omega arith;
      at_most_three = omega arith;
    }
    | inl inside ↦ record {
      coefficient = c;
      scale = s;
      value = ground arith;
      at_least_one = ground arith;
      at_most_three = ground arith;
    }
  ]
]

quantize-InRange : (d : Decimal) → InRange d → (q : Decimal) × (quantize d ≡ ok q) × InRange q
unfolding quantize
quantize-InRange d r =
    let low = le-hundredths r.coefficient r.scale r.at_least_one in
    let high = hundredths-le r.coefficient r.scale r.at_most_three in
    let short : digits (hundredths r.coefficient r.scale) ≤ 3 = digits-le 3 _ (omega arith) in
    (
      finite (hundredths r.coefficient r.scale) 2,
      rw r.value (ground arith),
      record {
        coefficient = hundredths r.coefficient r.scale;
        scale = 2;
        value = refl;
        at_least_one = low;
        at_most_three = high;
      },
    )

-- For every number of pending rides and of available drivers the surge multiplier is computed
-- without an exception and lies from 1 to 3.
pub surge_multiplier-InRange :
    (pending_rides available_drivers : ℕ)
    → (d : Decimal) × (compute_surge_multiplier pending_rides available_drivers ≡ ok d) × InRange d
unfolding compute_surge_multiplier
surge_multiplier-InRange p a = elim (Bool-cases (eqb a 0)) [
  | inl none_left ↦ (
    surge_max_multiplier,
    rw none_left,
    record {
      coefficient = 30;
      scale = 1;
      value = refl;
      at_least_one = omega arith;
      at_most_three = omega arith;
    },
  )
  | inr some_left ↦
      let (c, s, e) = div_int-finite p a in rw (some_left, e) (quantize-InRange _ (clamped c s))
]
