-- ===== src/Consumer/Reach.antt =====
-- What the consumer of Kafka may change, and what its handlers do for the streams.
use uber_clone_python.Base.{
  ℕ, String, ◌≡◌, refl, ◌⊎◌, inl, inr, Option, none, some, List, [], ◌∷◌, ◌++◌, arith, Option-cases,
}
use uber_clone_python.Exec.{ok}
use uber_clone_python.Models.{Float, completed, Ride}
use uber_clone_python.Env.{Env, World}
use uber_clone_python.Dispatch.{
  default_search_radius_km, NearbyDriver, find_nearby_available_drivers, fanout_to_nearby_drivers,
  offer_ride, offer_to_each, get_driver_location,
}
use uber_clone_python.Repositories.Ride.{read_ride}
use uber_clone_python.Sse
use uber_clone_python.Exec.{ok-or-err}
use uber_clone_python.Geo.{eta_minutes}
use uber_clone_python.Kafka.{ride_completed_topic, ride_cancelled_topic}
use uber_clone_python.Sse.Delivery.{complete_gone, complete_live}
use uber_clone_python.Consumer.{
  announce_eta, announce_driver, settle_accepted, dispatch_requested, close_completed,
  close_cancelled, handle_ride_requested, handle_ride_accepted, handle_ride_completed,
  handle_ride_cancelled, handle_message, consume_loop,
}

-- The stores of record are the same: the tables, the availability set, the positions, the surge
-- cache, and what was sent to Kafka.
pub record Keeps (env : Env) (before after : World env) : Type 0 where
  pub users : after.users ≡ before.users
  pub drivers : after.drivers ≡ before.drivers
  pub rides : after.rides ≡ before.rides
  pub ratings : after.ratings ≡ before.ratings
  pub sets : after.sets ≡ before.sets
  pub geo : after.geo ≡ before.geo
  pub strings : after.strings ≡ before.strings
  pub kafka : after.kafka ≡ before.kafka

module _ (env : Env) where
  Keeps-refl : (w : World env) → Keeps env w w
  Keeps-refl w = ground arith

  Keeps-trans : {u v w : World env} → Keeps env u v → Keeps env v w → Keeps env u w
  Keeps-trans a b = ground arith

  offer_to_each-Keeps :
      (ride : Ride) (ds : List NearbyDriver) (w : World env)
      → Keeps env w (offer_to_each env ride ds w).1
  unfolding offer_to_each
  offer_to_each-Keeps ride [] w = ground arith
  offer_to_each-Keeps ride (d ∷ ds) w = elim (Option-cases (eta_minutes env.floats d.distance_km)) [
    | inl far ↦ ground arith
    | inr (eta, near) ↦ grind (arith, offer_to_each-Keeps ride ds)
  ]

  offer_ride-Keeps :
      (ride : Ride) (ds : List NearbyDriver) (w : World env)
      → Keeps env w (offer_ride env ride ds w).1
  unfolding offer_ride
  offer_ride-Keeps ride [] w = ground arith
  offer_ride-Keeps ride (d ∷ ds) w =
      Keeps-trans (ground arith) (offer_to_each-Keeps ride (d ∷ ds) _)

  -- The search changes nothing, whether it returns or raises.
  find_nearby_world :
      (lat lng radius : Float) (w : World env)
      → (find_nearby_available_drivers env lat lng radius w).1 ≡ w
  unfolding find_nearby_available_drivers
  find_nearby_world lat lng radius w = ground arith

  fanout-Keeps : (ride : Ride) (w : World env) → Keeps env w (fanout_to_nearby_drivers env ride w).1
  unfolding fanout_to_nearby_drivers
  fanout-Keeps ride w =
      let search =
        find_nearby_available_drivers env ride.pickup_lat ride.pickup_lng
          (default_search_radius_km env) w in
      let same =
        find_nearby_world ride.pickup_lat ride.pickup_lng (default_search_radius_km env) w in
      elim (ok-or-err search.0) [
        | inl (e, failed) ↦ ground (arith, same)
        | inr (ds, found) ↦ ground (arith, same, offer_ride-Keeps ride ds w)
      ]

  dispatch_requested-Keeps :
      (found : Option Ride) (w : World env) → Keeps env w (dispatch_requested env found w).1
  unfolding dispatch_requested
  dispatch_requested-Keeps none w = ground arith
  dispatch_requested-Keeps (some ride) w = ground (arith, fanout-Keeps ride w)

  announce_eta-Keeps :
      (ride : Ride) (p : Option (Float × Float)) (w : World env)
      → Keeps env w (announce_eta env ride p w).1
  unfolding announce_eta
  announce_eta-Keeps ride none w = ground arith
  announce_eta-Keeps ride (some (lat, lng)) w = ground arith

  announce_driver-Keeps :
      (ride : Ride) (d : Option String) (w : World env)
      → Keeps env w (announce_driver env ride d w).1
  unfolding announce_driver get_driver_location
  announce_driver-Keeps ride none w = ground arith
  announce_driver-Keeps ride (some d) w = announce_eta-Keeps ride _ w

  settle_accepted-Keeps :
      (ride_id : String) (found : Option Ride) (w : World env)
      → Keeps env w (settle_accepted env ride_id found w).1
  unfolding settle_accepted
  settle_accepted-Keeps ride_id none w = ground arith
  settle_accepted-Keeps ride_id (some ride) w =
      ground (arith, announce_driver-Keeps ride ride.driver_id w)

  close_completed-Keeps :
      (ride_id : String) (found : Option Ride) (w : World env)
      → Keeps env w (close_completed env ride_id found w).1
  unfolding close_completed
  close_completed-Keeps ride_id none w = ground arith
  close_completed-Keeps ride_id (some ride) w = ground arith

  close_cancelled-Keeps :
      (ride_id : String) (found : Option Ride) (w : World env)
      → Keeps env w (close_cancelled env ride_id found w).1
  unfolding close_cancelled
  close_cancelled-Keeps ride_id none w = ground arith
  close_cancelled-Keeps ride_id (some ride) w = ground arith

  handle_message-Keeps :
      (m : String × String) (w : World env) → Keeps env w (handle_message env m w).1
  unfolding handle_message handle_ride_requested handle_ride_accepted handle_ride_completed
      handle_ride_cancelled
  handle_message-Keeps (topic, ride_id) w = elim (ok-or-err (read_ride env w.rides ride_id)) [
    | inl (e, failed) ↦ ground arith
    | inr (found, read) ↦ ground (
      arith,
      dispatch_requested-Keeps found w,
      settle_accepted-Keeps ride_id found w,
      close_completed-Keeps ride_id found w,
      close_cancelled-Keeps ride_id found w,
    )
  ]

  -- Whatever messages the consumer receives, on known topics or not, and whichever handlers
  -- raise, the four tables, the availability set, the positions, the cached multipliers and the
  -- log of Kafka stay as they were.
  pub consume_loop-Keeps :
      (messages : List (String × String)) (w : World env)
      → Keeps env w (consume_loop env messages w)
  unfolding consume_loop
  consume_loop-Keeps [] w = Keeps-refl w
  consume_loop-Keeps (m ∷ ms) w =
      Keeps-trans (handle_message-Keeps m w) (consume_loop-Keeps ms (handle_message env m w).1)

  -- The message that ends the ride's stream.
  close_run :
      (w : World env) (topic ride_id : String) (ride : Ride)
      → read_ride env w.rides ride_id ≡ ok (some ride)
      → ((topic ≡ ride_completed_topic) × (ride.status ≡ completed))
        ⊎ (topic ≡ ride_cancelled_topic)
      → handle_message env (topic, ride_id) w
        ≡ (ok tt, record w { registry = Sse.complete ride_id w.registry })
  unfolding handle_message handle_ride_completed handle_ride_cancelled close_completed
      close_cancelled
  close_run w topic ride_id ride h (inl (e, done)) = rw e (ground arith)
  close_run w topic ride_id ride h (inr e) = rw e (ground arith)

  -- If a ride is there and its key has a live queue, then a message on the cancelled topic, or
  -- one on the completed topic when the ride is completed, is handled with success, takes the key
  -- out of the registry, and puts the end mark behind the events that wait in the queue.
  pub handle_message_closes :
      (w : World env) (topic ride_id : String) (ride : Ride)
      → read_ride env w.rides ride_id ≡ ok (some ride)
      → ((topic ≡ ride_completed_topic) × (ride.status ≡ completed))
        ⊎ (topic ≡ ride_cancelled_topic)
      → (n : ℕ) (q : Sse.Queue) → Sse.lookup ride_id w.registry.emitters ≡ some n
      → Sse.queue_at n w.registry.queues ≡ some q
      → let (answer, after) = handle_message env (topic, ride_id) w in
        (answer ≡ ok tt)
        × (Sse.lookup ride_id after.registry.emitters ≡ none)
        × (Sse.queue_at n after.registry.queues ≡ some (q ++ none ∷ []))
  handle_message_closes w topic ride_id ride h ends n q at queue =
      rw (close_run w topic ride_id ride h ends)
        (refl, complete_gone ride_id w.registry, complete_live ride_id w.registry n q at queue)
