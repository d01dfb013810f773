-- ===== src/Services/Ride.antt =====
-- src/ride_service/services/ride.py
pub mod Lifecycle
pub mod Cancellation
pub mod Acceptance
pub mod Steps
pub mod Refinement
use uber_clone_python.Base.{
  ℕ, zero, suc, ◌+◌, ◌≤◌, ◌<◌, ⊤, String, ◌==◌, eq_iff, eq_refl, ◌≡◌, refl, sym, ap, ◌∙◌, ◌≢◌, ◌↔◌,
  ◌⊎◌, inl, inr, Bool, true, false, not, ◌&&◌, ◌||◌, Option, none, some, List, [], ◌∷◌, ◌++◌, map,
  Mem, not-mem-nil, All, length, is_empty, is_some, is_text, head?, contains, ◌<>◌, arith, ltb, leb,
  eqb, if◌then◌else◌, Bool-cases, Option-cases,
}
use uber_clone_python.Exec.{
  Error, http, integrity_error, value_error, decimal_error, redis_error, Result, ok, err, Exec,
  pure, raise, lift, gets, or_raise, ◌>>=◌, ◌>>◌, raise_if, modify,
}
use uber_clone_python.Models.{
  Float, DateTime, Role, rider, driver, RideStatus, requested, matched, in_progress, completed,
  cancelled, role_value, status_value, role_of, status_of, is_role, is_status, User, Driver, Ride,
  Rating, UserRow, DriverRow, RideRow, RatingRow,
}
use uber_clone_python.Decimal.{Decimal}
use uber_clone_python.Env.{Env, World, Table}
use uber_clone_python.Kafka.{
  publish_ride_requested, publish_ride_accepted, publish_ride_completed, publish_ride_cancelled,
}
use uber_clone_python.Dispatch.{find_nearby_available_drivers}
use uber_clone_python.Pricing.{surge_search_radius_km, get_fare_quote}
use uber_clone_python.Repositories.Driver as DriverRepository
use uber_clone_python.Repositories.Ride as RideRepository
use uber_clone_python.Repositories.Ride.{active_ride_statuses}
use uber_clone_python.Services.Driver.{mark_available_by_id, mark_unavailable_by_id}

-- The details of the exceptions.
abbrev pub ride_not_found : Error
ride_not_found = http 404 "Ride not found"

abbrev pub not_assigned : Error
not_assigned = http 403 "Not the assigned driver for this ride"

abbrev pub not_participant : Error
not_participant = http 403 "Not a participant in this ride"

abbrev pub no_driver_profile : Error
no_driver_profile = http 403 "No driver profile found — register as a driver first"

unfoldable pub cannot_cancel : RideStatus → Error
unfolding status_value
cannot_cancel s = http 409 ("Cannot cancel a ride with status " <> status_value s)

module _ (env : Env) where
  -- `Ride(...)` with its default fields, drawn from uuid4 and the clock.
  unfoldable pub new_ride : String → Float → Float → Float → Float → Exec (World env) Ride
  new_ride rider_id pickup_lat pickup_lng dropoff_lat dropoff_lng w = (
    ok (record {
      rider_id = rider_id;
      pickup_lat = pickup_lat;
      pickup_lng = pickup_lng;
      dropoff_lat = dropoff_lat;
      dropoff_lng = dropoff_lng;
      id = env.uuid w.drawn;
      driver_id = none;
      status = requested;
      estimated_fare = none;
      fare = none;
      requested_at = w.now;
      completed_at = none;
      version = 0;
    }),
    record w { drawn = w.drawn + 1 },
  )

  -- `_calculate_fare`
  unfoldable pub calculate_fare : Ride → Exec (World env) Decimal
  unfolding RideRepository.count_pending_near find_nearby_available_drivers get_fare_quote
  calculate_fare ride = do
    pending_rides ← RideRepository.count_pending_near env ride.pickup_lat ride.pickup_lng
    nearby ←
        find_nearby_available_drivers env ride.pickup_lat ride.pickup_lng
          (surge_search_radius_km env)
    quote ←
        get_fare_quote env ride.pickup_lat ride.pickup_lng ride.dropoff_lat ride.dropoff_lng
          pending_rides (length nearby)
    pure quote.0

  unfoldable pub request_ride : String → Float → Float → Float → Float → Exec (World env) Ride
  unfolding new_ride RideRepository.exists_by_rider_id_and_status_in RideRepository.save
      publish_ride_requested
  request_ride rider_id pickup_lat pickup_lng dropoff_lat dropoff_lng = do
    active ← RideRepository.exists_by_rider_id_and_status_in env rider_id active_ride_statuses
    raise_if active (http 409 "Rider already has an active ride")
    ride ← new_ride rider_id pickup_lat pickup_lng dropoff_lat dropoff_lng
    estimated_fare ← calculate_fare ride
    saved ← RideRepository.save env (record ride { estimated_fare = some estimated_fare })
    publish_ride_requested env saved.id
    pure saved

  unfoldable pub get_ride : String → Exec (World env) Ride
  unfolding RideRepository.find_by_id
  get_ride ride_id = do found ← RideRepository.find_by_id env ride_id; or_raise found ride_not_found

  -- The body of `async with self._accept_lock`.
  unfoldable pub accept_ride : String → String → Exec (World env) Ride
  unfolding get_ride mark_unavailable_by_id DriverRepository.find_by_id DriverRepository.save
      RideRepository.save publish_ride_accepted
  accept_ride ride_id driver_id = do
    ride ← get_ride ride_id
    raise_if (not (is_status ride.status requested))
        (http 409 "Ride is not available for acceptance")
    found ← DriverRepository.find_by_id env driver_id
    d ← or_raise found no_driver_profile
    raise_if (not d.is_available) (http 409 "Driver is not currently available")
    mark_unavailable_by_id env driver_id
    saved ←
        RideRepository.save env
          (record ride { driver_id = some driver_id; status = matched; version = ride.version + 1 })
    publish_ride_accepted env saved.id
    pure saved

  unfoldable pub start_ride : String → String → Exec (World env) Ride
  unfolding get_ride RideRepository.save
  start_ride ride_id driver_id = do
    ride ← get_ride ride_id
    raise_if (not (is_status ride.status matched)) (http 409 "Ride is not in MATCHED state")
    raise_if (not (is_text ride.driver_id driver_id)) not_assigned
    RideRepository.save env (record ride { status = in_progress; version = ride.version + 1 })

  unfoldable pub complete_ride : String → String → Exec (World env) Ride
  unfolding get_ride mark_available_by_id DriverRepository.save RideRepository.save
      publish_ride_completed
  complete_ride ride_id driver_id = do
    ride ← get_ride ride_id
    raise_if (not (is_status ride.status in_progress)) (http 409 "Ride is not IN_PROGRESS")
    raise_if (not (is_text ride.driver_id driver_id)) not_assigned
    now ← gets (λ w. w.now)
    saved ← RideRepository.save env (record ride {
      status = completed;
      fare = ride.estimated_fare;
      completed_at = some now;
      version = ride.version + 1;
    })
    mark_available_by_id env driver_id
    publish_ride_completed env saved.id
    pure saved

  -- `if ride.driver_id is not None`
  unfoldable pub free_driver : Option String → Exec (World env) ⊤
  unfolding mark_available_by_id DriverRepository.save
  free_driver none = pure tt
  free_driver (some driver_id) = do mark_available_by_id env driver_id; pure tt

  unfoldable pub cancel_ride : String → String → Exec (World env) Ride
  unfolding get_ride RideRepository.save publish_ride_cancelled cannot_cancel
  cancel_ride ride_id user_id = do
    ride ← get_ride ride_id
    raise_if (is_status ride.status in_progress || is_status ride.status completed)
        (cannot_cancel ride.status)
    raise_if (not (ride.rider_id == user_id) && not (is_text ride.driver_id user_id))
        not_participant
    free_driver ride.driver_id
    saved ← RideRepository.save env (record ride { status = cancelled; version = ride.version + 1 })
    publish_ride_cancelled env saved.id
    pure saved
