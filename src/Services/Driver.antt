-- ===== src/Services/Driver.antt =====
-- src/ride_service/services/driver.py
use uber_clone_python.Base.{⊤, String, true, false, Option, none, some, List, [], ◌∷◌}
use uber_clone_python.Exec.{
  Error, http, value_error, Exec, pure, or_raise, ◌>>=◌, ◌>>◌, raise_if, modify,
}
use uber_clone_python.Models.{Float, RideStatus, matched, in_progress, Driver, Ride}
use uber_clone_python.Env.{Env, World}
use uber_clone_python.Env.{JsonValue}
use uber_clone_python.Geo.{haversine_km, eta_minutes}
use uber_clone_python.Sse
use uber_clone_python.Dispatch.{NearbyDriver, find_nearby_available_drivers}
use uber_clone_python.Repositories.Driver as DriverRepository
use uber_clone_python.Repositories.Ride as RideRepository

abbrev pub active_statuses : List RideStatus
active_statuses = matched ∷ in_progress ∷ []

-- `raise HTTPException(status.HTTP_404_NOT_FOUND, "No driver profile found")`
abbrev pub no_profile : Error
no_profile = http 404 "No driver profile found"

module _ (env : Env) where
  unfoldable pub register_driver : String → String → String → Exec (World env) Driver
  unfolding DriverRepository.exists_by_id DriverRepository.save
  register_driver user_id vehicle_type license_plate = do
    exists ← DriverRepository.exists_by_id env user_id
    raise_if exists (http 409 "Driver profile already exists")
    DriverRepository.save env (record {
      user_id = user_id;
      vehicle_type = vehicle_type;
      license_plate = license_plate;
      is_available = false;
      avg_rating = none;
      rating_count = 0;
    })

  unfoldable pub get_profile : String → Exec (World env) Driver
  unfolding DriverRepository.find_by_id
  get_profile user_id = do
    found ← DriverRepository.find_by_id env user_id
    or_raise found no_profile

  unfoldable pub mark_available_by_id : String → Exec (World env) Driver
  unfolding DriverRepository.find_by_id DriverRepository.save
  mark_available_by_id user_id = do
    found ← DriverRepository.find_by_id env user_id
    d ← or_raise found no_profile
    DriverRepository.save env (record d { is_available = true })

  unfoldable pub mark_unavailable_by_id : String → Exec (World env) Driver
  unfolding DriverRepository.find_by_id DriverRepository.save
  mark_unavailable_by_id user_id = do
    found ← DriverRepository.find_by_id env user_id
    d ← or_raise found no_profile
    DriverRepository.save env (record d { is_available = false })

  unfoldable pub go_online : String → Float → Float → Exec (World env) Driver
  unfolding get_profile mark_available_by_id DriverRepository.set_location
  go_online user_id lat lng = do
    get_profile user_id
    DriverRepository.set_location env user_id lat lng
    mark_available_by_id user_id

  unfoldable pub go_offline : String → Exec (World env) Driver
  unfolding get_profile mark_unavailable_by_id DriverRepository.clear_location
  go_offline user_id = do
    get_profile user_id
    DriverRepository.clear_location env user_id
    saved ← mark_unavailable_by_id user_id
    modify (λ w. record w { registry = Sse.complete user_id w.registry })
    pure saved

  -- `if ride is not None`: the rider of the ride learns the position and the time left.
  notify_rider : Float → Float → Option Ride → Exec (World env) ⊤
  notify_rider lat lng none = pure tt
  notify_rider lat lng (some ride) = do
    km ← or_raise (haversine_km env.floats lat lng ride.dropoff_lat ride.dropoff_lng) value_error
    eta ← or_raise (eta_minutes env.floats km) value_error
    let payload = env.json_dumps (
        ("lat", JsonValue.float lat)
        ∷ ("lng", JsonValue.float lng)
        ∷ ("etaMinutes", JsonValue.int eta)
        ∷ [])
    modify (λ w. record w { registry = Sse.emit ride.id "driver_location" payload w.registry })

  unfoldable pub update_location : String → Float → Float → Exec (World env) ⊤
  unfolding get_profile notify_rider DriverRepository.set_location
      RideRepository.find_first_by_driver_id_and_status_in
  update_location user_id lat lng = do
    get_profile user_id
    DriverRepository.set_location env user_id lat lng
    ride ← RideRepository.find_first_by_driver_id_and_status_in env user_id active_statuses
    notify_rider lat lng ride

  unfoldable pub find_nearby : Float → Float → Float → Exec (World env) (List NearbyDriver)
  find_nearby lat lng radius_km = find_nearby_available_drivers env lat lng radius_km
