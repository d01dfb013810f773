-- ===== src/Services/Ride/Refinement.antt =====
-- Every method of RideService makes a step of the lifecycle, or leaves the rides alone.
use uber_clone_python.Base.{
  ◌+◌, String, ◌==◌, ◌≡◌, refl, ◌⊎◌, inl, inr, Bool, true, false, not, ◌&&◌, ◌||◌, Option, none,
  some, is_empty, is_text, arith, Bool-cases,
}
use uber_clone_python.Exec.{Error, Result, ok, err, Result-cases}
use uber_clone_python.Models.{
  Float, DateTime, requested, matched, in_progress, completed, cancelled, is_status, Ride,
}
use uber_clone_python.Decimal.{Decimal}
use uber_clone_python.Env.{Env, World}
use uber_clone_python.Repositories.Driver.{read_driver, driver_to_row}
use uber_clone_python.Env.Laws.{IsLawful}
use uber_clone_python.Repositories.Queries.{active_of, none_active}
use uber_clone_python.Repositories.Ride.{read_ride, ride_to_row}
use uber_clone_python.Services.Ride.Lifecycle.{
  accept, start, complete, cancel, Effect, unchanged, created, moved,
}
use uber_clone_python.Services.Ride.{
  calculate_fare, accept_ride, start_ride, complete_ride, cancel_ride, request_ride, free_driver,
}

-- Pricing a ride changes the surge cache and nothing else.
pub calculate_fare_world :
    (env : Env) (ride : Ride) (w : World env)
    → (calculate_fare env ride w).1 ≡ record w { strings = (calculate_fare env ride w).1.strings }
unfolding calculate_fare
calculate_fare_world env ride w = ground arith

module _ (env : Env) where
  abbrev accepted : String → Ride → Ride
  accepted driver_id ride = record ride {
    driver_id = some driver_id;
    status = matched;
    version = ride.version + 1;
  }

  abbrev started : Ride → Ride
  started ride = record ride { status = in_progress; version = ride.version + 1 }

  abbrev finished : DateTime → Ride → Ride
  finished now ride = record ride {
    status = completed;
    fare = ride.estimated_fare;
    completed_at = some now;
    version = ride.version + 1;
  }

  abbrev called_off : Ride → Ride
  called_off ride = record ride { status = cancelled; version = ride.version + 1 }

  -- The tests after the ride is found, and the admission of the write.
  abbrev starts : World env → String → Ride → Bool
  starts w driver_id ride =
      is_status ride.status matched
      && (is_text ride.driver_id driver_id && env.admits_ride w.rides (ride_to_row (started ride)))

  abbrev finishes : World env → String → Ride → Bool
  finishes w driver_id ride =
      is_status ride.status in_progress
      && (is_text ride.driver_id driver_id
          && env.admits_ride w.rides (ride_to_row (finished w.now ride)))

  pub start_ride-Effect :
      (ride_id driver_id : String) (w : World env)
      → Effect env w (start_ride env ride_id driver_id w).1
  unfolding start_ride
  start_ride-Effect ride_id driver_id w = elim (Result-cases (read_ride env w.rides ride_id)) [
    | inl (e, h) ↦ unchanged (ground arith) (ground arith)
    | inr (inl h) ↦ unchanged (ground arith) (ground arith)
    | inr (inr (ride, h)) ↦ elim (Bool-cases (starts w driver_id ride)) [
      | inr stays ↦ unchanged (ground arith) (ground arith)
      | inl moves ↦
          moved ride_id ride (started ride) h (start (ground arith) refl) (ground arith)
            (ground arith)
    ]
  ]

  pub complete_ride-Effect :
      (ride_id driver_id : String) (w : World env)
      → Effect env w (complete_ride env ride_id driver_id w).1
  unfolding complete_ride
  complete_ride-Effect ride_id driver_id w = elim (Result-cases (read_ride env w.rides ride_id)) [
    | inl (e, h) ↦ unchanged (ground arith) (ground arith)
    | inr (inl h) ↦ unchanged (ground arith) (ground arith)
    | inr (inr (ride, h)) ↦ elim (Bool-cases (finishes w driver_id ride)) [
      | inr stays ↦ unchanged (ground arith) (ground arith)
      | inl moves ↦
          moved ride_id ride (finished w.now ride) h (complete w.now (ground arith) refl)
            (ground arith) (ground arith)
    ]
  ]

  -- Whether the profile of the driver exists and its write with that availability is admitted.
  abbrev marks : World env → String → Bool → Bool
  marks w driver_id b = elim (read_driver env w.drivers driver_id) [
    | none ↦ false
    | some d ↦ env.admits_driver w.users w.drivers (driver_to_row (record d { is_available = b }))
  ]

  abbrev is_free : World env → String → Bool
  is_free w driver_id = elim (read_driver env w.drivers driver_id) [
    | none ↦ false
    | some d ↦ d.is_available
  ]

  abbrev accepts : World env → String → Ride → Bool
  accepts w driver_id ride =
      is_status ride.status requested
      && (is_free w driver_id
          && (marks w driver_id false
              && env.admits_ride w.rides (ride_to_row (accepted driver_id ride))))

  pub accept_ride-Effect :
      (ride_id driver_id : String) (w : World env)
      → Effect env w (accept_ride env ride_id driver_id w).1
  unfolding accept_ride
  accept_ride-Effect ride_id driver_id w = elim (Result-cases (read_ride env w.rides ride_id)) [
    | inl (e, h) ↦ unchanged (ground arith) (ground arith)
    | inr (inl h) ↦ unchanged (ground arith) (ground arith)
    | inr (inr (ride, h)) ↦ elim (Bool-cases (accepts w driver_id ride)) [
      | inr stays ↦ unchanged (ground arith) (ground arith)
      | inl moves ↦
          moved ride_id ride (accepted driver_id ride) h (accept driver_id (ground arith) refl)
            (ground arith) (ground arith)
    ]
  ]

  -- Freeing the driver of a ride leaves the rides alone.
  free_driver-rides :
      (o : Option String) (w : World env)
      → ((free_driver env o w).1.rides ≡ w.rides) × ((free_driver env o w).1.drawn ≡ w.drawn)
  unfolding free_driver
  free_driver-rides none w = (refl, refl)
  free_driver-rides (some driver_id) w = ground arith

  abbrev is_ok : {A : Type 0} → Result A → Bool
  is_ok (ok _) = true
  is_ok (err _) = false

  abbrev cancels : World env → String → Ride → Bool
  cancels w user_id ride =
      not (is_status ride.status in_progress || is_status ride.status completed)
      && ((ride.rider_id == user_id || is_text ride.driver_id user_id)
          && (is_ok (free_driver env ride.driver_id w).0
              && env.admits_ride w.rides (ride_to_row (called_off ride))))

  pub cancel_ride-Effect :
      (ride_id user_id : String) (w : World env)
      → Effect env w (cancel_ride env ride_id user_id w).1
  unfolding cancel_ride
  cancel_ride-Effect ride_id user_id w = elim (Result-cases (read_ride env w.rides ride_id)) [
    | inl (e, h) ↦ unchanged (ground arith) (ground arith)
    | inr (inl h) ↦ unchanged (ground arith) (ground arith)
    | inr (inr (ride, h)) ↦
        let (keeps, draws) = free_driver-rides ride.driver_id w in
        elim (Bool-cases (cancels w user_id ride)) [
          | inr stays ↦ unchanged (ground arith) (ground arith)
          | inl moves ↦
              moved ride_id ride (called_off ride) h (cancel (ground arith) (ground arith) refl)
                (ground arith) (ground arith)
        ]
  ]

  -- The ride that a request draws, and the world in which its fare is worked out.
  abbrev pub drawn_ride : World env → String → Float → Float → Float → Float → Ride
  drawn_ride w rider_id pickup_lat pickup_lng dropoff_lat dropoff_lng = record {
    rider_id = rider_id;
    pickup_lat = pickup_lat;
    pickup_lng = pickup_lng;
    dropoff_lat = dropoff_lat;
    dropoff_lng = dropoff_lng;
    id = env.uuid w.drawn;
    driver_id = none;
    status = requested;
    estimated_fare = none;
    fare = none;
    requested_at = w.now;
    completed_at = none;
    version = 0;
  }

  Fare-cases : (r : Result Decimal) → ((e : Error) × (r ≡ err e)) ⊎ ((d : Decimal) × (r ≡ ok d))
  Fare-cases (ok d) = inr (d, refl)
  Fare-cases (err e) = inl (e, refl)

  module _ (L : IsLawful env) (rider_id : String) (a b c d : Float) (w : World env) where
    abbrev ride : Ride
    ride = drawn_ride w rider_id a b c d

    abbrev drawn_world : World env
    drawn_world = record w { drawn = w.drawn + 1 }

    pub request_ride-Effect : Effect env w (request_ride env rider_id a b c d w).1
    unfolding request_ride
    request_ride-Effect =
        elim (Bool-cases (is_empty (env.rides.select w.rides (active_of rider_id)))) [
          | inr active ↦ unchanged (ground arith) (ground arith)
          | inl inactive ↦ elim (Fare-cases (calculate_fare env ride drawn_world).0) [
            | inl (e, h) ↦
                unchanged (ground (arith, calculate_fare_world env ride drawn_world))
                  (ground (arith, calculate_fare_world env ride drawn_world))
            | inr (fare, h) ↦
                elim (Bool-cases (
                  env.admits_ride w.rides
                    (ride_to_row (record ride { estimated_fare = some fare })))) [
                      | inr refused ↦
                          unchanged (ground (arith, calculate_fare_world env ride drawn_world))
                            (ground (arith, calculate_fare_world env ride drawn_world))
                      | inl admitted ↦
                          created (record ride { estimated_fare = some fare }) (ground arith) refl
                            (ground (arith, calculate_fare_world env ride drawn_world))
                            (none_active env L w.rides rider_id inactive)
                            (ground (arith, calculate_fare_world env ride drawn_world))
                    ]
          ]
        ]
