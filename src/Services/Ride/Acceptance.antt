-- ===== src/Services/Ride/Acceptance.antt =====
-- `RideService.accept_ride`: exactly what an accepted ride changes, and who is turned away.
use uber_clone_python.Base.{
  ℕ, ◌+◌, String, eq_iff, ◌≡◌, inl, inr, Bool, true, false, ◌&&◌, some, [], ◌∷◌, ◌++◌, arith,
  Option-cases,
}
use uber_clone_python.Exec.{http, ok, err, Result-cases}
use uber_clone_python.Models.{requested, matched, Driver, Ride}
use uber_clone_python.Env.{Env, World}
use uber_clone_python.Env.Laws.{IsLawful}
use uber_clone_python.Kafka.{ride_accepted_topic}
use uber_clone_python.Repositories.Driver.{read_driver, driver_to_row, driver_available_set}
use uber_clone_python.Repositories.Ride.{read_ride, ride_to_row}
use uber_clone_python.Repositories.Laws.{
  read_ride-put, read_driver-put, id-read_ride, user_id-read_driver,
}
use uber_clone_python.Services.Ride.{accept_ride}

module _ (env : Env) where
  -- The ride after driver `driver_id` has accepted it, and the driver's profile then.
  abbrev pub accepted : String → Ride → Ride
  accepted driver_id ride = record ride {
    driver_id = some driver_id;
    status = matched;
    version = ride.version + 1;
  }

  abbrev pub busy : Driver → Driver
  busy d = record d { is_available = false }

  -- The database admits both writes.
  abbrev pub admits_match : World env → String → Ride → Driver → Bool
  admits_match w driver_id ride d =
      env.admits_driver w.users w.drivers (driver_to_row (busy d))
      && env.admits_ride w.rides (ride_to_row (accepted driver_id ride))

  -- The world after the match.
  abbrev pub matched_world : World env → String → Ride → Driver → World env
  matched_world w driver_id ride d = record w {
    drivers = env.drivers.put w.drivers (driver_to_row (busy d));
    sets = env.sets.srem w.sets driver_available_set d.user_id;
    rides = env.rides.put w.rides (ride_to_row (accepted driver_id ride));
    kafka = w.kafka ++ (ride_accepted_topic, ride.id) ∷ [];
  }

  accept_ride_ok :
      (w : World env) (ride_id driver_id : String) (ride : Ride) (d : Driver)
      → read_ride env w.rides ride_id ≡ ok (some ride)
      → ride.status ≡ requested
      → read_driver env w.drivers driver_id ≡ some d
      → d.is_available ≡ true
      → admits_match w driver_id ride d ≡ true
      → accept_ride env ride_id driver_id w
        ≡ (ok (accepted driver_id ride), matched_world w driver_id ride d)
  unfolding accept_ride
  accept_ride_ok w ride_id driver_id ride d h1 h2 h3 h4 h5 = ground arith

  -- What a successful acceptance had before it, and what it left.
  pub record Accepted (w : World env) (ride_id driver_id : String) (saved : Ride) (w' : World env)
      : Type 0 where
    pub ride : Ride
    pub profile : Driver
    pub found : read_ride env w.rides ride_id ≡ ok (some ride)
    pub was_requested : ride.status ≡ requested
    pub has_profile : read_driver env w.drivers driver_id ≡ some profile
    pub was_available : profile.is_available ≡ true
    pub saved_eq : saved ≡ accepted driver_id ride
    pub after : w' ≡ matched_world w driver_id ride profile

  -- If an acceptance succeeds, it found the ride requested and the driver's profile available; it
  -- returns the ride with that driver, matched and one version on, and the world differs only in
  -- that ride, in the driver's availability in both stores, and in one event on the accepted
  -- topic.
  pub accept_ride-Accepted :
      (w : World env) (ride_id driver_id : String) (saved : Ride) (w' : World env)
      → accept_ride env ride_id driver_id w ≡ (ok saved, w')
      → Accepted w ride_id driver_id saved w'
  unfolding accept_ride
  accept_ride-Accepted w ride_id driver_id saved w' h =
      elim (Result-cases (read_ride env w.rides ride_id)) [
        | inl (e, missing) ↦ absurd (ground arith)
        | inr (inl missing) ↦ absurd (ground arith)
        | inr (inr (ride, found)) ↦ elim (Option-cases (read_driver env w.drivers driver_id)) [
          | inl missing ↦ absurd (ground arith)
          | inr (d, has) ↦ record {
            ride = ride;
            profile = d;
            found = found;
            was_requested = ground arith;
            has_profile = has;
            was_available = ground arith;
            saved_eq = ground arith;
            after = ground arith;
          }
        ]
      ]

  -- If an acceptance raises an HTTP exception, it has changed nothing.
  pub accept_ride_refused :
      (w : World env) (ride_id driver_id : String) (code : ℕ) (detail : String)
      → (accept_ride env ride_id driver_id w).0 ≡ err (http code detail)
      → (accept_ride env ride_id driver_id w).1 ≡ w
  unfolding accept_ride
  accept_ride_refused w ride_id driver_id code detail h = ground arith

  module _ (L : IsLawful env) (w : World env) (ride_id driver_id : String) (saved : Ride)
      (w' : World env) (won : accept_ride env ride_id driver_id w ≡ (ok saved, w')) where
    -- In a lawful environment, after an acceptance of a ride has succeeded, the next acceptance
    -- of that ride, by whatever driver, is refused with 409 and changes nothing.
    pub accept_ride_once :
        (other : String)
        → accept_ride env ride_id other w'
          ≡ (err (http 409 "Ride is not available for acceptance"), w')
    unfolding accept_ride
    accept_ride_once other =
        let a = accept_ride-Accepted w ride_id driver_id saved w' won in
        let id : a.ride.id ≡ ride_id = id-read_ride env L w.rides ride_id a.ride a.found in
        let now : read_ride env w'.rides ride_id ≡ ok (some (accepted driver_id a.ride)) =
          rw a.after (
            ground (
              arith,
              read_ride-put env L w.rides (accepted driver_id a.ride) ride_id,
              eq_iff a.ride.id ride_id,
            )) in
        ground arith

    -- In a lawful environment, after a driver's acceptance has succeeded, the same driver's
    -- acceptance of any other ride that is still requested is refused with 409 and changes
    -- nothing.
    pub accept_ride_busy :
        (other : String) (next : Ride)
        → read_ride env w'.rides other ≡ ok (some next)
        → next.status ≡ requested
        → accept_ride env other driver_id w'
          ≡ (err (http 409 "Driver is not currently available"), w')
    unfolding accept_ride
    accept_ride_busy other next h r =
        let a = accept_ride-Accepted w ride_id driver_id saved w' won in
        let id : a.profile.user_id ≡ driver_id =
          user_id-read_driver env L w.drivers driver_id a.profile a.has_profile in
        let now : read_driver env w'.drivers driver_id ≡ some (busy a.profile) = rw a.after (
          ground (
            arith,
            read_driver-put env L w.drivers (busy a.profile) driver_id,
            eq_iff a.profile.user_id driver_id,
          )) in
        ground arith
