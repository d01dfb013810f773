-- ===== src/System.antt =====
-- The service as a whole: a request runs one method of src/ride_service/services/ to its end and
-- leaves the world that the method left, whether it returned or raised.
pub mod Effects
pub mod Availability
pub mod History
pub mod Invariant
use uber_clone_python.Base.{
  ℕ, zero, suc, ◌+◌, ◌≤◌, ◌<◌, ⊤, String, ◌==◌, eq_iff, eq_refl, ◌≡◌, refl, sym, ap, ◌∙◌, ◌≢◌, ◌↔◌,
  ◌⊎◌, inl, inr, Bool, true, false, not, ◌&&◌, ◌||◌, Option, none, some, List, [], ◌∷◌, ◌++◌, map,
  Mem, not-mem-nil, All, length, is_empty, is_some, is_text, head?, contains, arith, ltb, leb, eqb,
  if◌then◌else◌, Bool-cases, Option-cases,
}
use uber_clone_python.Exec.{
  Error, http, integrity_error, value_error, decimal_error, redis_error, Result, ok, err, Exec,
  pure, raise, lift, gets, or_raise, ◌>>=◌, ◌>>◌, raise_if, modify,
}
use uber_clone_python.Models.{
  Float, DateTime, Role, rider, driver, RideStatus, requested, matched, in_progress, completed,
  cancelled, role_value, status_value, role_of, status_of, is_role, is_status, User, Driver, Ride,
  Rating, UserRow, DriverRow, RideRow, RatingRow,
}
use uber_clone_python.Decimal.{Decimal}
use uber_clone_python.Env.{Env, World, Table}
use uber_clone_python.Base.{ℤ}
use uber_clone_python.Services.Driver.{register_driver, go_online, go_offline, update_location}
use uber_clone_python.Services.Ride.{
  request_ride, accept_ride, start_ride, complete_ride, cancel_ride,
}
use uber_clone_python.Services.Rating.{rate}

-- The calls that the routers make, and the clock going on.
pub data Request : Type 0 where
  register : String → String → String → Request
  online : String → Float → Float → Request
  offline : String → Request
  locate : String → Float → Float → Request
  request : String → Float → Float → Float → Float → Request
  accept : String → String → Request
  start : String → String → Request
  complete : String → String → Request
  cancel : String → String → Request
  score : String → String → ℤ → Option String → Request
  wait : ℕ → Request

module _ (env : Env) where
  unfoldable pub handle : Request → World env → World env
  handle (register user_id vehicle_type license_plate) w =
      (register_driver env user_id vehicle_type license_plate w).1
  handle (online user_id lat lng) w = (go_online env user_id lat lng w).1
  handle (offline user_id) w = (go_offline env user_id w).1
  handle (locate user_id lat lng) w = (update_location env user_id lat lng w).1
  handle (request rider_id a b c d) w = (request_ride env rider_id a b c d w).1
  handle (accept ride_id driver_id) w = (accept_ride env ride_id driver_id w).1
  handle (start ride_id driver_id) w = (start_ride env ride_id driver_id w).1
  handle (complete ride_id driver_id) w = (complete_ride env ride_id driver_id w).1
  handle (cancel ride_id user_id) w = (cancel_ride env ride_id user_id w).1
  handle (score ride_id user_id n comment) w = (rate env ride_id user_id n comment w).1
  handle (wait n) w = record w { now = w.now + n }

  unfoldable pub serve : List Request → World env → World env
  serve [] w = w
  serve (r ∷ rs) w = serve rs (handle r w)
