-- ===== src/Tests/Tasks.antt =====
-- Calls at the same time, and offers that are passed on, on concrete inputs.
use uber_clone_python.Base.{
  ℕ, zero, suc, ap, ◌∙◌, ◌≡◌, ◌≢◌, refl, true, false, none, some, List, [], ◌∷◌, arith,
}
use uber_clone_python.Exec.{Result, ok}
use uber_clone_python.Models.{status_of, status_value, requested, matched, cancelled, Ride}
use uber_clone_python.Env.{World}
use uber_clone_python.Memory.{memory, memory-IsLawful, empty}
use uber_clone_python.Repositories.Ride.{read_ride, optional_ride, ride_from_row, ride_to_row}
use uber_clone_python.Repositories.Driver.{read_driver, driver_to_row}
use uber_clone_python.Interleaving.{
  call, save_and_publish, Task, Call, request, accept, cancel, task_of, run_alone,
}
use uber_clone_python.Services.Ride.Lifecycle.{Effect}
use uber_clone_python.Interleaving.Alone.{run_alone-task_of, run_alone-Effect}
use uber_clone_python.Interleaving.Schedule.{Office, Tick, go_on, work}
use uber_clone_python.Interleaving.Locking.{Balanced-task_of}
use uber_clone_python.Interleaving.Completion.{Finish, finish_balanced}
use uber_clone_python.Interleaving.OneWinner.{opening, work-accept_once}
use uber_clone_python.Interleaving.Deadlock.{work_ends}
use uber_clone_python.Interleaving.Races.{run_pair, accept_over_cancel}
use uber_clone_python.Interleaving.Requests.{creating, request_twice}
use uber_clone_python.Dispatch.{available_only, smismember}
use uber_clone_python.Geo.{haversine_km, half_chord}
use uber_clone_python.Pricing.{compute_surge_multiplier, calculate_fare}
use uber_clone_python.Decimal.{finite, fix, digits}
use uber_clone_python.Services.Ride.{
  free_driver, calculate_fare as ride_fare, accept_ride, cancel_ride, request_ride,
}
use uber_clone_python.Services.Ride.Acceptance.{accepted}
use uber_clone_python.Tests.Scenario.{town, the_ride, the_driver, town-Shows, town_driver}

abbrev waiting : World memory
waiting = town (the_ride requested none) true

run_alone-Effect_example :
    (run_alone (task_of memory (accept "" "d")) waiting ≡ accept_ride memory "" "d" waiting)
    × Effect memory waiting (run_alone (task_of memory (accept "" "d")) waiting).1
run_alone-Effect_example = run_alone-Effect memory memory-IsLawful (accept "" "d") waiting

-- Two drivers accept the ride at the same time.
abbrev rush : ℕ → Call memory
rush zero = accept "" "d"
rush (suc _) = accept "" "e"

abbrev won_ride : Ride
won_ride = record (the_ride matched (some "d")) { version = 1 }

won : accept_ride memory "" "d" waiting ≡ (ok won_ride, (accept_ride memory "" "d" waiting).1)
unfolding accept_ride
won = ground (
  arith,
  town-Shows (the_ride requested none) true refl,
  town_driver (the_ride requested none) true,
)

-- The first driver's call goes on to its end.
first_run : Finish false 0 (task_of memory (accept "" "d")) (opening memory rush waiting)
first_run =
    finish_balanced 0 false (task_of memory (accept "" "d")) (opening memory rush waiting) refl
      (Balanced-task_of memory (accept "" "d")) refl

first_wins : (work first_run.ticks (opening memory rush waiting)).tasks 0 ≡ Task.done (ok won_ride)
first_wins =
    first_run.ends
    ∙ ap (λ r. Task.done r.0) (run_alone-task_of memory (accept "" "d") waiting ∙ won)

work-accept_once_example :
    (work first_run.ticks (opening memory rush waiting)).tasks 1 ≢ Task.done (ok won_ride)
work-accept_once_example =
    work-accept_once memory memory-IsLawful "" 0 refl rush waiting (omega arith) first_run.ticks 0 1
      "d" "e" (λ e. absurd (omega (arith, e))) refl refl won_ride first_wins won_ride

work_ends_example :
    (more : List (Tick memory)) × (r : Result Ride) × ((work
          (go_on 0 ∷ go_on 1 ∷ more)
          (opening memory rush waiting)).tasks
        1
      ≡ Task.done r)
work_ends_example = work_ends rush waiting (go_on 0 ∷ go_on 1 ∷ []) 1

-- The rider calls off while the driver accepts.
called_off :
    cancel_ride memory "" "r" waiting
    ≡ (ok (record (the_ride cancelled none) { version = 1 }), (cancel_ride memory "" "r" waiting).1)
unfolding cancel_ride read_ride optional_ride ride_from_row ride_to_row status_of status_value
    free_driver
called_off = refl

still_there :
    read_driver memory (cancel_ride memory "" "r" waiting).1.drivers "d" ≡ some (the_driver true)
unfolding cancel_ride read_ride optional_ride ride_from_row ride_to_row status_of status_value
    read_driver driver_to_row free_driver
still_there = refl

accept_over_cancel_example :
    (ticks : List (Tick memory)) × ((run_pair memory
          (accept "" "d")
          (cancel "" "r")
          waiting
          ticks).tasks
        0
      ≡ Task.done (ok (accepted memory "d" (the_ride requested none))))
    × ((run_pair memory (accept "" "d") (cancel "" "r") waiting ticks).tasks 1
        ≡ Task.done (ok (record (the_ride cancelled none) { version = 1 })))
    × ((the_ride cancelled none).status ≡ cancelled)
    × (read_ride memory
          (run_pair memory (accept "" "d") (cancel "" "r") waiting ticks).world.rides
          ""
        ≡ ok (some (accepted memory "d" (the_ride requested none))))
accept_over_cancel_example =
    accept_over_cancel memory memory-IsLawful "" "d" "r" (the_ride requested none) _
      (the_driver true) waiting (cancel_ride memory "" "r" waiting).1
      (town-Shows (the_ride requested none) true refl) refl called_off still_there refl refl

-- A rider asks twice.
abbrev asked : World memory
asked = (request_ride memory "r" 0 0 0 0 empty).1

abbrev first_ride : Ride
first_ride = record (the_ride requested none) { estimated_fare = some (finite 600 2) }

abbrev second_ride : Ride
second_ride = record (the_ride requested none) { id = "a" }

asked_once : request_ride memory "r" 0 0 0 0 empty ≡ (ok first_ride, asked)
unfolding request_ride ride_fare ride_to_row available_only smismember haversine_km half_chord
    compute_surge_multiplier calculate_fare fix digits
asked_once = refl

asked_again :
    run_alone (creating memory "r" 0 0 0 0) asked
    ≡ (ok second_ride, (run_alone (creating memory "r" 0 0 0 0) asked).1)
unfolding run_alone request_ride ride_fare ride_to_row call save_and_publish available_only
    smismember haversine_km half_chord compute_surge_multiplier calculate_fare fix digits
asked_again = refl

abbrev twice : List (Tick memory) → Office memory
twice = run_pair memory (request "r" 0 0 0 0) (request "r" 0 0 0 0) empty

request_twice_example :
    (ticks : List (Tick memory)) × ((twice ticks).tasks 0 ≡ Task.done (ok second_ride))
    × ((twice ticks).tasks 1 ≡ Task.done (ok first_ride))
    × (first_ride.id ≢ second_ride.id)
    × (first_ride.rider_id ≡ "r")
    × (second_ride.rider_id ≡ "r")
    × (first_ride.status ≡ requested)
    × (second_ride.status ≡ requested)
    × (read_ride memory (twice ticks).world.rides "" ≡ ok (some first_ride))
    × (read_ride memory (twice ticks).world.rides "a" ≡ ok (some second_ride))
request_twice_example =
    request_twice memory memory-IsLawful "r" 0 0 0 0 0 0 0 0 empty asked
      (run_alone (creating memory "r" 0 0 0 0) asked).1 first_ride second_ride asked_once
      asked_again
