-- ===== src/Tests/Rides.antt =====
-- The service as a whole and the acceptance of rides, on concrete requests.
use uber_clone_python.Base.{String, ◌≡◌, refl, true, false, none, some, List, [], ◌∷◌, arith}
use uber_clone_python.Exec.{http, ok, err}
use uber_clone_python.Models.{requested, matched, cancelled, status_value, status_of, Ride}
use uber_clone_python.Env.{World}
use uber_clone_python.Memory.{memory, memory-IsLawful, empty}
use uber_clone_python.Base.{pos}
use uber_clone_python.Repositories.Ride.{read_ride, optional_ride, ride_from_row, ride_to_row}
use uber_clone_python.Repositories.Driver.{read_driver}
use uber_clone_python.Services.Ride.{accept_ride}
use uber_clone_python.Services.Ride.Lifecycle.{Effect}
use uber_clone_python.Services.Ride.Acceptance.{
  Accepted, accept_ride-Accepted, accept_ride_once, accept_ride_busy,
}
use uber_clone_python.System.{Request, serve, handle, offline, request, accept, cancel, score, wait}
use uber_clone_python.System.Effects.{handle-Effect}
use uber_clone_python.System.Invariant.{Shows, IsValid, serve-IsValid}
use uber_clone_python.System.Availability.{Agrees, serve-Agrees}
use uber_clone_python.System.History.{Course, serve_path, completed_final}
use uber_clone_python.Tests.Scenario.{
  journey, town, the_ride, completed_ride, empty-IsValid, town-IsValid, town-Shows, town_driver,
}

-- The driver's acceptance of the requested ride.
abbrev waiting : World memory
waiting = town (the_ride requested none) true

abbrev matched_ride : Ride
matched_ride = record (the_ride matched (some "d")) { version = 1 }

abbrev after_match : World memory
after_match = (accept_ride memory "" "d" waiting).1

won : accept_ride memory "" "d" waiting ≡ (ok matched_ride, after_match)
unfolding accept_ride
won = ground (
  arith,
  town-Shows (the_ride requested none) true refl,
  town_driver (the_ride requested none) true,
)

waiting-IsValid : IsValid memory waiting
waiting-IsValid =
    town-IsValid (the_ride requested none) true refl
      (record { estimate = refl; fields = (refl, refl, refl) })

completed-IsValid : IsValid memory (town completed_ride true)
completed-IsValid =
    town-IsValid completed_ride true refl (record { estimate = refl; fields = (refl, refl, refl) })

abbrev cancelled_ride : Ride
cancelled_ride = the_ride cancelled (some "d")

cancelled-IsValid : IsValid memory (town cancelled_ride true)
cancelled-IsValid =
    town-IsValid cancelled_ride true refl (record { estimate = refl; fields = (refl, refl, tt) })

-- What is asked of the service after the ride.
abbrev later : List Request
later =
    cancel "" "r"
    ∷ accept "" "d"
    ∷ score "" "r" (pos 5) none
    ∷ request "r" 0 0 0 0
    ∷ wait 7
    ∷ offline "d"
    ∷ []

handle-Effect_example : Effect memory waiting (handle memory (accept "" "d") waiting)
handle-Effect_example = handle-Effect memory memory-IsLawful (accept "" "d") waiting

serve-IsValid_example : IsValid memory (serve memory journey empty)
serve-IsValid_example = serve-IsValid memory memory-IsLawful journey empty empty-IsValid

empty-Agrees : (k : String) → Agrees memory empty k
unfolding read_driver
empty-Agrees k = refl

serve-Agrees_example : Agrees memory (serve memory journey empty) "d"
serve-Agrees_example = serve-Agrees memory memory-IsLawful journey empty empty-Agrees "d"

completed_final_example :
    Shows memory (serve memory later (town completed_ride true)).rides "" completed_ride
completed_final_example =
    completed_final memory memory-IsLawful later (town completed_ride true) "" completed_ride
      completed-IsValid (town-Shows completed_ride true refl) refl

serve_path_example :
    (r : Ride) × Shows memory (serve memory later waiting).rides "" r
    × Course (the_ride requested none) r
serve_path_example =
    serve_path memory memory-IsLawful later waiting waiting-IsValid "" (the_ride requested none)
      (town-Shows (the_ride requested none) true refl)

-- The completed ride still shows after the later requests.
still-Shows : Shows memory (serve memory later (town completed_ride true)).rides "" completed_ride
still-Shows =
    completed_final memory memory-IsLawful later (town completed_ride true) "" completed_ride
      completed-IsValid (town-Shows completed_ride true refl) refl

accept_ride-Accepted_example : Accepted memory waiting "" "d" matched_ride after_match
accept_ride-Accepted_example =
    accept_ride-Accepted memory waiting "" "d" matched_ride after_match won

accept_ride_once_example :
    accept_ride memory "" "e" after_match
    ≡ (err (http 409 "Ride is not available for acceptance"), after_match)
accept_ride_once_example =
    accept_ride_once memory memory-IsLawful waiting "" "d" matched_ride after_match won "e"

-- Another rider has requested a ride too, whose id is "a".
abbrev other_ride : Ride
other_ride = record (the_ride requested none) { rider_id = "s"; id = "a" }

abbrev two_riders : World memory
two_riders = record waiting { rides = memory.rides.put waiting.rides (ride_to_row other_ride) }

abbrev after_first : World memory
after_first = (accept_ride memory "" "d" two_riders).1

first-Shows : Shows memory two_riders.rides "" (the_ride requested none)
unfolding read_ride optional_ride ride_from_row ride_to_row status_value status_of
first-Shows = refl

won_first : accept_ride memory "" "d" two_riders ≡ (ok matched_ride, after_first)
unfolding accept_ride
won_first = ground (arith, first-Shows, town_driver (the_ride requested none) true)

other-Shows : Shows memory after_first.rides "a" other_ride
unfolding accept_ride read_ride read_driver optional_ride ride_from_row ride_to_row status_value
    status_of
other-Shows = refl

accept_ride_busy_example :
    accept_ride memory "a" "d" after_first
    ≡ (err (http 409 "Driver is not currently available"), after_first)
accept_ride_busy_example =
    accept_ride_busy memory memory-IsLawful two_riders "" "d" matched_ride after_first won_first "a"
      other_ride other-Shows refl

refused :
    (accept_ride memory "" "d" (town (the_ride requested none) false)).0
    ≡ err (http 409 "Driver is not currently available")
unfolding accept_ride
refused = ground (
  arith,
  town-Shows (the_ride requested none) false refl,
  town_driver (the_ride requested none) false,
)
