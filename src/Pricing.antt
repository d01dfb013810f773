-- ===== src/Pricing.antt =====
-- src/ride_service/pricing.py
pub mod Cache
pub mod Surge
use mathlib.Core.Option
use uber_clone_python.Base.{
  ℕ, zero, suc, ◌+◌, ◌≤◌, ◌<◌, ⊤, String, ◌==◌, eq_iff, eq_refl, ◌≡◌, refl, sym, ap, ◌∙◌, ◌≢◌, ◌↔◌,
  ◌⊎◌, inl, inr, Bool, true, false, not, ◌&&◌, ◌||◌, Option, none, some, List, [], ◌∷◌, ◌++◌, map,
  Mem, not-mem-nil, All, length, is_empty, is_some, is_text, head?, contains, ◌<>◌, arith, ltb, leb,
  eqb, if◌then◌else◌, Bool-cases, Option-cases,
}
use uber_clone_python.Exec.{
  Error, http, integrity_error, value_error, decimal_error, redis_error, Result, ok, err, Exec,
  pure, raise, lift, gets, or_raise, ◌>>=◌, ◌>>◌, raise_if, modify,
}
use uber_clone_python.Models.{
  Float, DateTime, Role, rider, driver, RideStatus, requested, matched, in_progress, completed,
  cancelled, role_value, status_value, role_of, status_of, is_role, is_status, User, Driver, Ride,
  Rating, UserRow, DriverRow, RideRow, RatingRow,
}
use uber_clone_python.Decimal.{Decimal}
use uber_clone_python.Env.{Env, World, Table}
use uber_clone_python.Env.{FloatOps}
use uber_clone_python.Decimal.{finite, add, mul, div_int, min_decimal, max_decimal, quantize}
use uber_clone_python.Geo.{haversine_km}

abbrev pub base_fare : Decimal
base_fare = finite 200 2

abbrev pub per_km_rate : Decimal
per_km_rate = finite 150 2

abbrev pub surge_min_multiplier : Decimal
surge_min_multiplier = finite 10 1

abbrev pub surge_max_multiplier : Decimal
surge_max_multiplier = finite 30 1

abbrev pub surge_ttl_seconds : ℕ
surge_ttl_seconds = 30

-- `Decimal(str(distance_km))` is the argument: the fare is decimal arithmetic from there on.
unfoldable pub calculate_base_fare : Decimal → Decimal
unfolding add mul
calculate_base_fare distance = add base_fare (mul per_km_rate distance)

unfoldable pub compute_surge_multiplier : ℕ → ℕ → Result Decimal
unfolding quantize max_decimal min_decimal
compute_surge_multiplier pending_rides available_drivers =
    if eqb available_drivers 0
    then ok surge_max_multiplier
    else quantize (
        max_decimal surge_min_multiplier
          (min_decimal surge_max_multiplier (div_int pending_rides available_drivers)))

unfoldable pub calculate_fare : Decimal → Decimal → Result Decimal
unfolding calculate_base_fare quantize mul
calculate_fare distance surge_multiplier =
    quantize (mul (calculate_base_fare distance) surge_multiplier)

module _ (env : Env) where
  abbrev pub surge_search_radius_km : Float
  surge_search_radius_km = env.floats.literal 30 1

  unfoldable pub surge_grid_key : Float → Float → String
  surge_grid_key lat lng = "surge:" <> env.two_places_text lat <> ":" <> env.two_places_text lng

  -- `SurgeCache.get` and `SurgeCache.set`
  unfoldable pub cache_get : String → Exec (World env) (Option Decimal)
  cache_get key w = (ok (Option.map env.text_decimal (env.strings.get w.strings w.now key)), w)

  unfoldable pub cache_set : String → Decimal → Exec (World env) ⊤
  cache_set key value = modify λ w. record w {
    strings = env.strings.set_ex w.strings w.now key (env.decimal_text value) surge_ttl_seconds;
  }

  -- The call after a cache miss.
  unfoldable pub fresh_multiplier : String → ℕ → ℕ → Exec (World env) Decimal
  unfolding cache_set
  fresh_multiplier key pending_rides available_drivers = do
    multiplier ← lift (compute_surge_multiplier pending_rides available_drivers)
    cache_set key multiplier
    pure multiplier

  unfoldable pub cached_or : Option Decimal → Exec (World env) Decimal → Exec (World env) Decimal
  cached_or none fresh = fresh
  cached_or (some cached) fresh = pure cached

  unfoldable pub get_surge_multiplier : Float → Float → ℕ → ℕ → Exec (World env) Decimal
  unfolding cache_get fresh_multiplier cached_or surge_grid_key
  get_surge_multiplier lat lng pending_rides available_drivers = do
    let key = surge_grid_key lat lng
    cached ← cache_get key
    cached_or cached (fresh_multiplier key pending_rides available_drivers)

  unfoldable pub get_fare_quote :
      Float → Float → Float → Float → ℕ → ℕ → Exec (World env) (Decimal × Decimal)
  unfolding get_surge_multiplier
  get_fare_quote pickup_lat pickup_lng dropoff_lat dropoff_lng pending_rides available_drivers = do
    distance_km ←
        or_raise (haversine_km env.floats pickup_lat pickup_lng dropoff_lat dropoff_lng) value_error
    surge ← get_surge_multiplier pickup_lat pickup_lng pending_rides available_drivers
    fare ← lift (calculate_fare (env.floats.to_decimal distance_km) surge)
    pure (fare, surge)
