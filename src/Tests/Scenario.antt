-- ===== src/Tests/Scenario.antt =====
-- A small town: one driver, one rider, and the requests that the examples run.
use uber_clone_python.Base.{
  String, ◌==◌, eq_iff, eq_refl, ◌≡◌, sym, ◌∙◌, inl, inr, Bool, ◌&&◌, Option, none, some, List, [],
  ◌∷◌, arith,
}
use uber_clone_python.Models.{RideStatus, completed, Driver, Ride}
use uber_clone_python.Env.{World}
use uber_clone_python.Decimal.{finite}
use uber_clone_python.Memory.{memory, memory-IsLawful, empty}
use uber_clone_python.Repositories.Ride.{read_ride, optional_ride, ride_to_row}
use uber_clone_python.Repositories.Laws.{read_ride-put, read_ride-put_cases, read_driver-put}
use uber_clone_python.Services.Ride.Steps.{HasShape}
use uber_clone_python.Repositories.Driver.{read_driver, driver_to_row}
use uber_clone_python.System.{Request, register, online, request, accept, start, complete}
use uber_clone_python.System.Invariant.{Shows, IsValid}

-- The requests of one ride, whose id is the empty text.
abbrev pub journey : List Request
journey =
    register "d" "car" "ABC"
    ∷ online "d" 0 0
    ∷ request "r" 0 0 0 0
    ∷ accept "" "d"
    ∷ start "" "d"
    ∷ complete "" "d"
    ∷ []

abbrev pub the_ride : RideStatus → Option String → Ride
the_ride status driver_id = record {
  rider_id = "r";
  pickup_lat = 0;
  pickup_lng = 0;
  dropoff_lat = 0;
  dropoff_lng = 0;
  id = "";
  driver_id = driver_id;
  status = status;
  estimated_fare = some (finite 200 2);
  fare = none;
  requested_at = 0;
  completed_at = none;
  version = 0;
}

abbrev pub completed_ride : Ride
completed_ride = record (the_ride completed (some "d")) {
  fare = some (finite 200 2);
  completed_at = some 0;
}

abbrev pub the_driver : Bool → Driver
the_driver is_available = record {
  user_id = "d";
  vehicle_type = "car";
  license_plate = "ABC";
  is_available = is_available;
  avg_rating = none;
  rating_count = 0;
}

-- A town with one driver and one ride.
abbrev pub town : Ride → Bool → World memory
town ride is_available = record empty {
  rides = memory.rides.put [] (ride_to_row ride);
  drivers = memory.drivers.put [] (driver_to_row (the_driver is_available));
  sets = λ k m. is_available && m == "d";
  geo = ("d", (0, 0)) ∷ [];
  drawn = 1;
}

pub empty-IsValid : IsValid memory empty
unfolding read_ride optional_ride
empty-IsValid = record {
  ids = λ k r h. absurd (ground arith);
  shapes = λ k r h. absurd (ground arith);
  one_active = λ k j r s h i e a b. absurd (ground arith);
}

-- In a town only that ride shows.
only_ride :
    (ride : Ride) (is_available : Bool) (k : String) (r : Ride)
    → Shows memory (town ride is_available).rides k r
    → (k ≡ ride.id) × (r ≡ ride)
only_ride ride is_available k r h =
    elim (read_ride-put_cases memory memory-IsLawful [] ride k r h) [
      | inl (at, same) ↦ (at, same)
      | inr (old, _) ↦ absurd (unfold read_ride optional_ride in ground arith)
    ]

pub town-IsValid :
    (ride : Ride) (is_available : Bool)
    → ride.id ≡ ""
    → HasShape ride
    → IsValid memory (town ride is_available)
town-IsValid ride is_available id shape = record {
  ids = λ k r h. (0, omega arith, (only_ride ride is_available k r h).0 ∙ id);
  shapes = λ k r h. rw (only_ride ride is_available k r h).1 shape;
  one_active = λ k j r s h i e a b.
      (only_ride ride is_available k r h).0 ∙ sym (only_ride ride is_available j s i).0;
}

pub town-Shows :
    (ride : Ride) (is_available : Bool)
    → ride.id ≡ ""
    → Shows memory (town ride is_available).rides "" ride
town-Shows ride is_available id =
    ground (arith, read_ride-put memory memory-IsLawful [] ride "", eq_iff ride.id "")

pub town_driver :
    (ride : Ride) (is_available : Bool)
    → read_driver memory (town ride is_available).drivers "d" ≡ some (the_driver is_available)
town_driver ride is_available =
    ground
      (arith, read_driver-put memory memory-IsLawful [] (the_driver is_available) "d", eq_refl "d")
