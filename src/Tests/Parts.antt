-- ===== src/Tests/Parts.antt =====
-- The parts of the service on concrete inputs.
use uber_clone_python.Base.{
  ◌+◌, ◌≤◌, ◌<◌, String, ◌≡◌, refl, ap, inr, true, false, none, some, List, [], ◌∷◌, All, arith,
}
use uber_clone_python.Exec.{http, ok, err}
use uber_clone_python.Models.{Float, requested, matched, in_progress, cancelled, Ride}
use uber_clone_python.Decimal.{Decimal}
use uber_clone_python.Env.{World}
use uber_clone_python.Memory.{memory, memory_floats, memory-IsLawful, empty}
use uber_clone_python.Base.{pos, ◌-◌, ◌*◌, ◌/◌}
use uber_clone_python.Repositories.Driver as DriverRepository
use uber_clone_python.Decimal.{finite, quantize, div_int, digits, fix, half_even}
use uber_clone_python.Env.{FloatOps}
use uber_clone_python.Dispatch.{
  NearbyDriver, find_nearby_available_drivers, available_only, smismember, max_results,
}
use uber_clone_python.Dispatch.Nearby.{nearby_in, find_nearby-available}
use uber_clone_python.Geo.{eta_minutes}
use uber_clone_python.Geo.Symmetry.{IsSymmetric}
use uber_clone_python.Pricing.{compute_surge_multiplier, surge_grid_key, get_surge_multiplier}
use uber_clone_python.Pricing.Surge.{InRange, surge_multiplier-InRange}
use uber_clone_python.Pricing.Cache.{surge_cached}
use uber_clone_python.Repositories.Ride.{read_ride, optional_ride, ride_to_row, ride_from_row}
use uber_clone_python.Repositories.User.{read_user, optional_user}
use uber_clone_python.Repositories.Driver.{
  read_driver, driver_to_row, driver_geo_key, driver_available_set,
}
use uber_clone_python.Services.Rating.{
  rate, rated_user, update_averages, rate_driver, rate_user, incremental_avg,
}
use uber_clone_python.Services.Rating.Once.{Rated, rate-Rated, rate_once}
use uber_clone_python.Services.Ride.{cancel_ride}
use uber_clone_python.Services.Ride.Cancellation.{
  called_off, freed_world, cancel_ride_ok, cancel_ride_again,
}
use uber_clone_python.Sse.{
  Event, Registry, register, emit, complete, disconnect, lookup, queue_at, run_stream,
}
use uber_clone_python.Sse.Delivery.{
  emit_all, frames_of, stream_delivers, older_stream_detaches_newer,
}
use text.Mathlib.TextLemmas.{cons≢nil}
use uber_clone_python.Tests.Scenario.{
  town, the_ride, completed_ride, the_driver, town-Shows, town_driver,
}

abbrev arrived : World memory
arrived = town completed_ride true

rated : (rate memory "" "r" (pos 5) none arrived).0 ≡ ok tt
unfolding rate rated_user update_averages rate_driver rate_user incremental_avg read_ride
    read_driver read_user optional_ride optional_user ride_from_row ride_to_row driver_to_row
    quantize digits DriverRepository.save
rated = refl

rate-Rated_example :
    Rated memory arrived "" "r" (pos 5) none (rate memory "" "r" (pos 5) none arrived).1
rate-Rated_example = rate-Rated memory arrived "" "r" (pos 5) none rated

rate_once_example :
    rate memory "" "r" (pos 1) none (rate memory "" "r" (pos 5) none arrived).1
    ≡ (err (http 409 "Already rated this ride"), (rate memory "" "r" (pos 5) none arrived).1)
rate_once_example =
    rate_once memory memory-IsLawful arrived "" "r" (pos 5) none rated (pos 1) none refl

abbrev matched_ride : Ride
matched_ride = the_ride matched (some "d")

abbrev on_the_way : World memory
on_the_way = town matched_ride false

cancel_ride_ok_example : cancel_ride memory "" "r" on_the_way ≡ (
  ok (called_off memory matched_ride),
  freed_world memory on_the_way matched_ride (the_driver false),
)
cancel_ride_ok_example =
    cancel_ride_ok memory on_the_way "" "r" "d" matched_ride (the_driver false)
      (town-Shows matched_ride false refl) refl refl (town_driver matched_ride false) refl

-- The first ride is cancelled, and its driver is on another one.
abbrev called_ride : Ride
called_ride = the_ride cancelled (some "d")

abbrev running : Ride
running = record (the_ride in_progress (some "d")) { id = "a" }

abbrev next_ride : World memory
next_ride = record (town called_ride false) {
  rides = memory.rides.put (town called_ride false).rides (ride_to_row running);
}

ride_called : read_ride memory next_ride.rides "" ≡ ok (some called_ride)
unfolding read_ride optional_ride ride_from_row ride_to_row
ride_called = refl

ride_running : read_ride memory next_ride.rides "a" ≡ ok (some running)
unfolding read_ride optional_ride ride_from_row ride_to_row
ride_running = refl

cancel_ride_again_example :
    let (answer, after) = cancel_ride memory "" "r" next_ride in
    (answer ≡ ok (called_off memory called_ride))
    × (read_ride memory after.rides "a" ≡ ok (some running))
    × (read_driver memory after.drivers "d" ≡ some (the_driver true))
cancel_ride_again_example =
    cancel_ride_again memory memory-IsLawful next_ride "" "r" "d" called_ride (the_driver false)
      ride_called refl refl refl (town_driver called_ride false) refl "a" running (λ h. cons≢nil h)
      ride_running refl refl

surge_multiplier-InRange_example : (d : Decimal) × (compute_surge_multiplier 7 3 ≡ ok d) × InRange d
surge_multiplier-InRange_example = surge_multiplier-InRange 7 3

computed : compute_surge_multiplier 1 1 ≡ ok (finite 100 2)
unfolding compute_surge_multiplier div_int digits fix half_even
computed = refl

surge_cached_example :
    let (answer, after) = get_surge_multiplier memory 10 20 1 1 empty in
    let later : World memory = record after { now = after.now + 5 } in
    (answer ≡ ok (finite 100 2))
    × (5 < 30000000 → get_surge_multiplier memory 11 21 9 2 later ≡ (ok (finite 100 2), later))
    × (30000000 ≤ 5
        → (get_surge_multiplier memory 11 21 9 2 later).0 ≡ compute_surge_multiplier 9 2)
unfolding surge_grid_key
surge_cached_example =
    surge_cached memory memory-IsLawful empty 10 20 1 1 (finite 100 2) refl computed refl 11 21 refl
      5 9 2

abbrev waiting : World memory
waiting = town (the_ride requested none) true

nearby :
    (find_nearby_available_drivers memory 0 0 500 waiting).0
    ≡ ok (record { driver_id = "d"; distance_km = 0 } ∷ [])
unfolding find_nearby_available_drivers available_only smismember
nearby = refl

find_nearby-available_example :
    (results : List (String × Float)) × (memory.geo.geosearch waiting.geo driver_geo_key 0 0 500
        max_results
      ≡ some results)
    × (record { driver_id = "d"; distance_km = 0 } ∷ []
        ≡ nearby_in (memory.sets.sismember waiting.sets driver_available_set) results)
    × All
        (λ (d : NearbyDriver).
          memory.sets.sismember waiting.sets driver_available_set d.driver_id ≡ true)
        (record { driver_id = "d"; distance_km = 0 } ∷ [])
    × (1 ≤ 20)
    × ((find_nearby_available_drivers memory 0 0 500 waiting).1 ≡ waiting)
find_nearby-available_example =
    find_nearby-available memory memory-IsLawful waiting 0 0 500
      (record { driver_id = "d"; distance_km = 0 } ∷ []) nearby

-- Natural numbers with the distance in place of the difference.
abbrev distances : FloatOps
distances = record memory_floats { sub = λ a b. (a - b) + (b - a) }

distances-IsSymmetric : IsSymmetric distances
distances-IsSymmetric = record {
  Opposite = λ a b. a ≡ b;
  sub_opposite = λ a b. omega arith;
  radians_opposite = λ a b h. h;
  half_opposite = λ a b c h. ap (λ x. x * 100 / c) h;
  sin_opposite = λ a b h. inr (a, b, refl, refl, h);
  square_opposite = λ a b h. h;
  mul_comm = λ a b. ap (λ x. x / 100) (omega arith);
}

half_a_minute : eta_minutes memory_floats 1 ≡ some 1
unfolding eta_minutes
half_a_minute = refl

abbrev events : List Event
events = ("driver_location", "1") ∷ ("driver_location", "2") ∷ []

abbrev nobody : Registry
nobody = record { emitters = []; queues = [] }

abbrev opened : Registry
opened = (register "k" nobody).1

stream_delivers_example :
    ((run_stream 5 "k" 0 (complete "k" (emit_all "k" events opened))).0 ≡ frames_of events)
    × ((run_stream 5 "k" 0 (complete "k" (emit_all "k" events opened))).1 ≡ true)
    × (lookup "k" (run_stream 5 "k" 0 (complete "k" (emit_all "k" events opened))).2.emitters
        ≡ none)
unfolding register
stream_delivers_example = stream_delivers "k" events nobody 5 (omega arith)

registered : lookup "k" opened.emitters ≡ some 0
unfolding register lookup
registered = refl

older_stream_detaches_newer_example :
    (lookup "k" (register "k" opened).1.emitters ≡ some 1)
    × (lookup "k" (disconnect "k" (register "k" opened).1).emitters ≡ none)
    × (queue_at 1 (emit "k" "e" "p" (disconnect "k" (register "k" opened).1)).queues ≡ some [])
unfolding register
older_stream_detaches_newer_example = older_stream_detaches_newer "k" "e" "p" nobody
