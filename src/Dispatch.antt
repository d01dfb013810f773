-- ===== src/Dispatch.antt =====
-- src/ride_service/dispatch.py
pub mod Nearby
pub mod Offers
use mathlib.Core.Option
use uber_clone_python.Base.{
  ℕ, zero, suc, ◌+◌, ◌≤◌, ◌<◌, ⊤, String, ◌==◌, eq_iff, eq_refl, ◌≡◌, refl, sym, ap, ◌∙◌, ◌≢◌, ◌↔◌,
  ◌⊎◌, inl, inr, Bool, true, false, not, ◌&&◌, ◌||◌, Option, none, some, List, [], ◌∷◌, ◌++◌, map,
  Mem, not-mem-nil, All, length, is_empty, is_some, is_text, head?, contains, ◌*◌, ◌<>◌, arith, ltb,
  leb, eqb, if◌then◌else◌, Bool-cases, Option-cases,
}
use uber_clone_python.Exec.{
  Error, http, integrity_error, value_error, decimal_error, redis_error, Result, ok, err, Exec,
  pure, raise, lift, gets, or_raise, ◌>>=◌, ◌>>◌, raise_if, modify,
}
use uber_clone_python.Models.{
  Float, DateTime, Role, rider, driver, RideStatus, requested, matched, in_progress, completed,
  cancelled, role_value, status_value, role_of, status_of, is_role, is_status, User, Driver, Ride,
  Rating, UserRow, DriverRow, RideRow, RatingRow,
}
use uber_clone_python.Decimal.{Decimal}
use uber_clone_python.Env.{Env, World, Table}
use uber_clone_python.Env.{JsonValue}
use uber_clone_python.Geo.{eta_minutes}
use uber_clone_python.Repositories.Driver.{driver_geo_key, driver_available_set}

abbrev pub ride_offer_channel_prefix : String
ride_offer_channel_prefix = "ride_offers:"

abbrev pub dispatched_key_prefix : String
dispatched_key_prefix = "dispatched:"

abbrev pub dispatched_ttl_seconds : ℕ
dispatched_ttl_seconds = 5 * 60

abbrev pub max_results : ℕ
max_results = 20

pub record NearbyDriver : Type 0 where
  pub driver_id : String
  pub distance_km : Float

-- The comprehension over `zip(results, available, strict=True)`.
unfoldable pub available_only : List (String × Float) → List Bool → Result (List NearbyDriver)
available_only [] [] = ok []
available_only [] (_ ∷ _) = err value_error
available_only (_ ∷ _) [] = err value_error
available_only ((id, km) ∷ results) (is_available ∷ available) =
    let rest = available_only results available in
    elim rest [
      | err e ↦ err e
      | ok ds ↦ ok (if is_available then record { driver_id = id; distance_km = km } ∷ ds else ds)
    ]

optional_float : (Decimal → Float) → Option Decimal → JsonValue
optional_float to_float none = JsonValue.null
optional_float to_float (some d) = JsonValue.float (to_float d)

module _ (env : Env) where
  abbrev pub default_search_radius_km : Float
  default_search_radius_km = env.floats.literal 50 1

  -- `smismember` of the availability set, for the drivers of the search.
  unfoldable pub smismember : env.sets.State → List (String × Float) → List Bool
  smismember sets [] = []
  smismember sets ((id, _) ∷ results) =
      env.sets.sismember sets driver_available_set id ∷ smismember sets results

  -- `if not results: return []` is the first clause of `available_only`.
  unfoldable pub find_nearby_available_drivers :
      Float → Float → Float → Exec (World env) (List NearbyDriver)
  find_nearby_available_drivers lat lng radius_km = do
    geo ← gets (λ w. w.geo)
    results ←
        or_raise (env.geo.geosearch geo driver_geo_key lng lat radius_km max_results) redis_error
    sets ← gets (λ w. w.sets)
    lift (available_only results (smismember sets results))

  -- `geopos` answers (longitude, latitude); this answers (latitude, longitude).
  unfoldable pub get_driver_location : String → Exec (World env) (Option (Float × Float))
  get_driver_location driver_id w =
      (ok (Option.map (λ p. (p.1, p.0)) (env.geo.geopos w.geo driver_geo_key driver_id)), w)

  unfoldable pub offer_payload : Ride → ℕ → String
  unfolding optional_float
  offer_payload ride eta = env.json_dumps (
      ("rideId", JsonValue.text ride.id)
      ∷ ("pickupLat", JsonValue.float ride.pickup_lat)
      ∷ ("pickupLng", JsonValue.float ride.pickup_lng)
      ∷ ("dropoffLat", JsonValue.float ride.dropoff_lat)
      ∷ ("dropoffLng", JsonValue.float ride.dropoff_lng)
      ∷ ("estimatedFare", optional_float env.floats.of_decimal ride.estimated_fare)
      ∷ ("etaMinutes", JsonValue.int eta)
      ∷ [])

  publish : String → String → Exec (World env) ⊤
  publish channel payload =
      modify (λ w. record w { published = w.published ++ (channel, payload) ∷ [] })

  -- `for driver in nearby`
  unfoldable pub offer_to_each : Ride → List NearbyDriver → Exec (World env) ⊤
  unfolding publish
  offer_to_each ride [] = pure tt
  offer_to_each ride (d ∷ nearby) = do
    eta ← or_raise (eta_minutes env.floats d.distance_km) value_error
    publish (ride_offer_channel_prefix <> d.driver_id) (offer_payload ride eta)
    offer_to_each ride nearby

  -- `if not nearby: return`, then the dispatched set and the offers.
  unfoldable pub offer_ride : Ride → List NearbyDriver → Exec (World env) ⊤
  unfolding offer_to_each
  offer_ride ride [] = pure tt
  offer_ride ride (d ∷ nearby) = do
    let key = dispatched_key_prefix <> ride.id
    let ids = map (λ d. d.driver_id) (d ∷ nearby)
    modify (λ w. record w { expiring = env.expiring.sadd w.expiring w.now key ids })
    modify (λ w. record w {
      expiring = env.expiring.expire w.expiring w.now key dispatched_ttl_seconds;
    })
    offer_to_each ride (d ∷ nearby)

  unfoldable pub fanout_to_nearby_drivers : Ride → Exec (World env) ⊤
  unfolding find_nearby_available_drivers offer_ride
  fanout_to_nearby_drivers ride = do
    nearby ← find_nearby_available_drivers ride.pickup_lat ride.pickup_lng default_search_radius_km
    offer_ride ride nearby
