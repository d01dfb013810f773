-- ===== src/Consumer.antt =====
-- src/ride_service/kafka_consumer.py: the handlers of the four topics, and the loop over messages.
pub mod Reach
pub mod Values
use uber_clone_python.Base.{
  ℕ, zero, suc, ◌+◌, ◌≤◌, ◌<◌, ⊤, String, ◌==◌, eq_iff, eq_refl, ◌≡◌, refl, sym, ap, ◌∙◌, ◌≢◌, ◌↔◌,
  ◌⊎◌, inl, inr, Bool, true, false, not, ◌&&◌, ◌||◌, Option, none, some, List, [], ◌∷◌, ◌++◌, map,
  Mem, not-mem-nil, All, length, is_empty, is_some, is_text, head?, contains, arith, ltb, leb, eqb,
  if◌then◌else◌, Bool-cases, Option-cases,
}
use uber_clone_python.Exec.{
  Error, http, integrity_error, value_error, key_error, decimal_error, redis_error, Result, ok, err,
  Result-cases, Exec, pure, raise, lift, gets, or_raise, ◌>>=◌, ◌>>◌, raise_if, modify,
}
use uber_clone_python.Models.{
  Float, DateTime, Role, rider, driver, RideStatus, requested, matched, in_progress, completed,
  cancelled, role_value, status_value, role_of, status_of, is_role, is_status, User, Driver, Ride,
  Rating, UserRow, DriverRow, RideRow, RatingRow,
}
use uber_clone_python.Decimal.{Decimal}
use uber_clone_python.Env.{Env, World, Table}
use uber_clone_python.Base.{◌<>◌}
use uber_clone_python.Env.{JsonValue}
use uber_clone_python.Geo.{haversine_km, eta_minutes}
use uber_clone_python.Kafka.{
  ride_requested_topic, ride_accepted_topic, ride_completed_topic, ride_cancelled_topic,
}
use uber_clone_python.Dispatch.{
  get_driver_location, fanout_to_nearby_drivers, dispatched_key_prefix,
}
use uber_clone_python.Repositories.Ride as RideRepository
use uber_clone_python.Sse

module _ (env : Env) where
  -- `if ride is None or ride.status != REQUESTED: return`
  unfoldable pub dispatch_requested : Option Ride → Exec (World env) ⊤
  unfolding fanout_to_nearby_drivers
  dispatch_requested none = pure tt
  dispatch_requested (some ride) =
      if is_status ride.status requested then fanout_to_nearby_drivers env ride else pure tt

  unfoldable pub handle_ride_requested : String → Exec (World env) ⊤
  unfolding RideRepository.find_by_id dispatch_requested
  handle_ride_requested ride_id = do
    found ← RideRepository.find_by_id env ride_id
    dispatch_requested found

  -- `if position is not None`: the rider learns when the driver arrives.
  unfoldable pub announce_eta : Ride → Option (Float × Float) → Exec (World env) ⊤
  announce_eta ride none = pure tt
  announce_eta ride (some (lat, lng)) = do
    km ← or_raise (haversine_km env.floats lat lng ride.pickup_lat ride.pickup_lng) value_error
    eta ← or_raise (eta_minutes env.floats km) value_error
    let payload = env.json_dumps (("etaMinutes", JsonValue.int eta) ∷ [])
    modify (λ w. record w { registry = Sse.emit ride.id "driver_eta_to_pickup" payload w.registry })

  -- `if ride.driver_id is not None`
  unfoldable pub announce_driver : Ride → Option String → Exec (World env) ⊤
  unfolding announce_eta get_driver_location
  announce_driver ride none = pure tt
  announce_driver ride (some driver_id) = do
    position ← get_driver_location env driver_id
    announce_eta ride position

  -- `for driver_id in dispatched_drivers`, on the registry.
  unfoldable pub cancel_offers : Option String → String → List String → Sse.Registry → Sse.Registry
  cancel_offers winner payload [] r = r
  cancel_offers winner payload (driver_id ∷ ids) r =
      cancel_offers winner payload ids
        (if is_text winner driver_id then r else Sse.emit driver_id "offer_cancelled" payload r)

  -- `if ride is None: return`, then the rest of the handler.
  unfoldable pub settle_accepted : String → Option Ride → Exec (World env) ⊤
  unfolding announce_driver cancel_offers
  settle_accepted ride_id none = pure tt
  settle_accepted ride_id (some ride) = do
    announce_driver ride ride.driver_id
    let dispatched_key = dispatched_key_prefix <> ride_id
    dispatched_drivers ← gets (λ w. env.expiring.smembers w.expiring w.now dispatched_key)
    let payload = env.json_dumps (("rideId", JsonValue.text ride_id) ∷ [])
    modify (λ w. record w {
      registry = cancel_offers ride.driver_id payload dispatched_drivers w.registry;
    })
    modify (λ w. record w { expiring = env.expiring.delete w.expiring w.now dispatched_key })

  unfoldable pub handle_ride_accepted : String → Exec (World env) ⊤
  unfolding RideRepository.find_by_id settle_accepted
  handle_ride_accepted ride_id = do
    found ← RideRepository.find_by_id env ride_id
    settle_accepted ride_id found

  -- `if ride is None or ride.status != COMPLETED: return`
  unfoldable pub close_completed : String → Option Ride → Exec (World env) ⊤
  close_completed ride_id none = pure tt
  close_completed ride_id (some ride) =
      if is_status ride.status completed
      then modify (λ w. record w { registry = Sse.complete ride_id w.registry })
      else pure tt

  unfoldable pub handle_ride_completed : String → Exec (World env) ⊤
  unfolding RideRepository.find_by_id close_completed
  handle_ride_completed ride_id = do
    found ← RideRepository.find_by_id env ride_id
    close_completed ride_id found

  unfoldable pub close_cancelled : String → Option Ride → Exec (World env) ⊤
  close_cancelled ride_id none = pure tt
  close_cancelled ride_id (some ride) =
      modify (λ w. record w { registry = Sse.complete ride_id w.registry })

  unfoldable pub handle_ride_cancelled : String → Exec (World env) ⊤
  unfolding RideRepository.find_by_id close_cancelled
  handle_ride_cancelled ride_id = do
    found ← RideRepository.find_by_id env ride_id
    close_cancelled ride_id found

  -- `_HANDLERS[message.topic](ride_id)`; another topic raises a `KeyError`.
  unfoldable pub handle_message : String × String → Exec (World env) ⊤
  handle_message (topic, ride_id) =
      if topic == ride_requested_topic
      then handle_ride_requested ride_id
      else (if topic == ride_accepted_topic
          then handle_ride_accepted ride_id
          else (if topic == ride_completed_topic
              then handle_ride_completed ride_id
              else (if topic == ride_cancelled_topic
                  then handle_ride_cancelled ride_id
                  else raise key_error)))

  -- The loop on the messages (topic, ride id) that it receives. What a handler raises is logged.
  unfoldable pub consume_loop : List (String × String) → World env → World env
  consume_loop [] w = w
  consume_loop (message ∷ messages) w = consume_loop messages (handle_message message w).1
