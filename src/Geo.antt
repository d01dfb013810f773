-- ===== src/Geo.antt =====
-- src/ride_service/geo.py
pub mod Symmetry
use uber_clone_python.Base.{
  ℕ, zero, suc, ◌+◌, ◌≤◌, ◌<◌, ⊤, String, ◌==◌, eq_iff, eq_refl, ◌≡◌, refl, sym, ap, ◌∙◌, ◌≢◌, ◌↔◌,
  ◌⊎◌, inl, inr, Bool, true, false, not, ◌&&◌, ◌||◌, Option, none, some, List, [], ◌∷◌, ◌++◌, map,
  Mem, not-mem-nil, All, length, is_empty, is_some, is_text, head?, contains, arith, ltb, leb, eqb,
  if◌then◌else◌, Bool-cases, Option-cases,
}
use uber_clone_python.Exec.{
  Error, http, integrity_error, value_error, decimal_error, redis_error, Result, ok, err, Exec,
  pure, raise, lift, gets, or_raise, ◌>>=◌, ◌>>◌, raise_if, modify,
}
use uber_clone_python.Models.{
  Float, DateTime, Role, rider, driver, RideStatus, requested, matched, in_progress, completed,
  cancelled, role_value, status_value, role_of, status_of, is_role, is_status, User, Driver, Ride,
  Rating, UserRow, DriverRow, RideRow, RatingRow,
}
use uber_clone_python.Decimal.{Decimal}
use uber_clone_python.Env.{Env, World, Table}
use uber_clone_python.Env.{FloatOps}
use uber_clone_python.Base.{ℤ, pos, negsuc}

-- `none` is an exception of `math` or of `int`, which ends the function.
infixl 5 ◌>>='◌
abbrev ◌>>='◌ : {A B : Type 0} → Option A → (A → Option B) → Option B
none >>=' f = none
some a >>=' f = f a

-- `max(1, n)`
at_least_one : ℤ → ℕ
at_least_one (pos n) = if leb n 1 then 1 else n
at_least_one (negsuc n) = 1

module _ (fl : FloatOps) where
  abbrev pub average_city_speed_kmh : Float
  average_city_speed_kmh = fl.literal 300 1

  abbrev pub earth_radius_km : Float
  earth_radius_km = fl.literal 63710 1

  -- `2` beside a float
  abbrev two : Float
  two = fl.of_int (pos 2)

  -- sin(d / 2) ** 2
  unfoldable pub half_chord : Float → Option Float
  half_chord d = fl.sin (fl.div d two) >>=' λ s. some (fl.square s)

  unfoldable pub haversine_km : Float → Float → Float → Float → Option Float
  haversine_km lat1 lng1 lat2 lng2 = half_chord (fl.radians (fl.sub lat2 lat1)) >>=' λ u.
      fl.cos (fl.radians lat1) >>=' λ c1. fl.cos (fl.radians lat2) >>=' λ c2.
      half_chord (fl.radians (fl.sub lng2 lng1)) >>=' λ v.
      fl.sqrt (fl.add u (fl.mul (fl.mul c1 c2) v)) >>=' λ root.
      fl.asin root >>=' λ angle. some (fl.mul (fl.mul earth_radius_km two) angle)

  unfoldable pub eta_minutes : Float → Option ℕ
  unfolding at_least_one
  eta_minutes distance_km =
      fl.truncate (fl.mul (fl.div distance_km average_city_speed_kmh) (fl.of_int (pos 60)))
      >>=' λ n. some (at_least_one n)
