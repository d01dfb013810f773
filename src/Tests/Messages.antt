-- ===== src/Tests/Messages.antt =====
-- The messages of Kafka, the offers and the retry on concrete inputs.
use uber_clone_python.Base.{◌-◌, ◌≡◌, refl, inr, true, none, some, [], ◌∷◌}
use uber_clone_python.Exec.{ok}
use uber_clone_python.Models.{requested, cancelled}
use uber_clone_python.Env.{World}
use uber_clone_python.Memory.{memory}
use uber_clone_python.Dispatch.{
  NearbyDriver, find_nearby_available_drivers, fanout_to_nearby_drivers, offer_ride, offer_to_each,
  available_only, smismember,
}
use uber_clone_python.Dispatch.Offers.{Offered, dispatched, fanout-Offered}
use uber_clone_python.Geo.{eta_minutes}
use uber_clone_python.Kafka.{ride_requested_topic}
use uber_clone_python.Consumer.{handle_message, consume_loop}
use uber_clone_python.Consumer.Reach.{Keeps, consume_loop-Keeps, handle_message_closes}
use uber_clone_python.Repositories.Ride.{
  find_by_status_and_requested_at_before, rides_from_rows, ride_from_row, ride_to_row,
}
use uber_clone_python.Retry.{retry_once, retry_once_lem, retry_cutoff}
use mathlib.Core.Option
use uber_clone_python.Dispatch.{offer_payload}
use uber_clone_python.Listener.{listen_loop}
use uber_clone_python.Listener.Delivery.{delivered, emit_offers, AloneOn, listen_loop-Offered}
use uber_clone_python.Base.{◌++◌, map, List, String, arith, eq_iff}
use uber_clone_python.Sse.{Registry, lookup, queue_at}
use uber_clone_python.Tests.Scenario.{town, the_ride, town-Shows}

abbrev waiting : World memory
waiting = town (the_ride requested none) true

abbrev near_driver : NearbyDriver
near_driver = record { driver_id = "d"; distance_km = 0 }

consume_loop-Keeps_example : Keeps memory waiting (
    consume_loop memory
      (("ride-requested", "") ∷ ("ride-cancelled", "") ∷ ("other", "") ∷ [])
      waiting)
consume_loop-Keeps_example =
    consume_loop-Keeps memory (("ride-requested", "") ∷ ("ride-cancelled", "") ∷ ("other", "") ∷ [])
      waiting

-- The rider's stream waits for events.
abbrev watched : World memory
watched = record (town (the_ride cancelled (some "d")) true) {
  registry = record { emitters = ("", 0) ∷ []; queues = [] ∷ [] };
}

watching : lookup "" watched.registry.emitters ≡ some 0
unfolding lookup
watching = refl

still_open : queue_at 0 watched.registry.queues ≡ some []
unfolding queue_at
still_open = refl

handle_message_closes_example :
    ((handle_message memory ("ride-cancelled", "") watched).0 ≡ ok tt)
    × (lookup "" (handle_message memory ("ride-cancelled", "") watched).1.registry.emitters ≡ none)
    × (queue_at 0 (handle_message memory ("ride-cancelled", "") watched).1.registry.queues
        ≡ some (none ∷ []))
handle_message_closes_example =
    handle_message_closes memory watched "ride-cancelled" "" (the_ride cancelled (some "d"))
      (town-Shows (the_ride cancelled (some "d")) true refl) (inr refl) 0 [] watching still_open

-- The ride has waited for 200 seconds.
abbrev long_ago : World memory
long_ago = record waiting { now = 200000000 }

stale :
    (find_by_status_and_requested_at_before memory requested
      (long_ago.now - retry_cutoff)
      long_ago).0
    ≡ ok (the_ride requested none ∷ [])
unfolding find_by_status_and_requested_at_before rides_from_rows ride_from_row ride_to_row
stale = refl

retry_once_lem_example :
    retry_once memory long_ago
    ≡ (ok tt, record long_ago { kafka = (ride_requested_topic, "") ∷ [] })
retry_once_lem_example = retry_once_lem memory long_ago (the_ride requested none ∷ []) stale

nearby_free :
    find_nearby_available_drivers memory 0 0 500 waiting ≡ (ok (near_driver ∷ []), waiting)
unfolding find_nearby_available_drivers available_only smismember
nearby_free = refl

offered : (fanout_to_nearby_drivers memory (the_ride requested none) waiting).0 ≡ ok tt
unfolding fanout_to_nearby_drivers find_nearby_available_drivers available_only smismember
    offer_ride offer_to_each eta_minutes
offered = refl

fanout-Offered_example :
    Offered memory
      (the_ride requested none)
      (near_driver ∷ [])
      waiting
      (fanout_to_nearby_drivers memory (the_ride requested none) waiting).1
    × ((fanout_to_nearby_drivers memory (the_ride requested none) waiting).1.expiring
        ≡ dispatched memory waiting (the_ride requested none) (near_driver ∷ []))
fanout-Offered_example =
    fanout-Offered memory waiting (the_ride requested none) near_driver [] nearby_free offered

-- The driver listens, and a rider beside.
abbrev listening : Registry
listening = record { emitters = ("d", 0) ∷ ("r", 1) ∷ []; queues = [] ∷ [] ∷ [] }

abbrev after_offer : World memory
after_offer = (fanout_to_nearby_drivers memory (the_ride requested none) waiting).1

listen_loop-Offered_example :
    (sent : List (String × String)) × (payloads : List String) × (after_offer.published
      ≡ waiting.published ++ sent)
    × (map some payloads
        ≡ map
            (λ (d : NearbyDriver).
              Option.map
                (offer_payload memory (the_ride requested none))
                (eta_minutes memory.floats d.distance_km))
            (near_driver ∷ []))
    × (listen_loop (map delivered sent) listening
        ≡ emit_offers (near_driver ∷ []) payloads listening)
listen_loop-Offered_example =
    listen_loop-Offered memory (the_ride requested none) (near_driver ∷ []) waiting after_offer
      fanout-Offered_example.0 listening

only_driver : AloneOn "d" 0 listening
unfolding lookup
only_driver k h = ground (arith, eq_iff "d" k, eq_iff "r" k)
