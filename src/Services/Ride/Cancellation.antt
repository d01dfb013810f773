-- ===== src/Services/Ride/Cancellation.antt =====
-- `RideService.cancel_ride`: what a cancellation frees, and a cancellation that comes twice.
use uber_clone_python.Base.{
  ◌+◌, String, ◌==◌, eq_iff, ◌≡◌, refl, sym, ◌∙◌, ◌≢◌, Bool, true, not, ◌&&◌, ◌||◌, some, [], ◌∷◌,
  ◌++◌, is_text, arith,
}
use uber_clone_python.Exec.{ok}
use uber_clone_python.Models.{in_progress, completed, cancelled, is_status, Driver, Ride}
use uber_clone_python.Env.{Env, World}
use uber_clone_python.Env.Laws.{IsLawful}
use uber_clone_python.Kafka.{ride_cancelled_topic}
use uber_clone_python.Repositories.Driver.{read_driver, driver_to_row, driver_available_set}
use uber_clone_python.Repositories.Ride.{read_ride, ride_to_row}
use uber_clone_python.Repositories.Laws.{
  read_ride-put, read_driver-put, id-read_ride, user_id-read_driver,
}
use uber_clone_python.Services.Ride.{cancel_ride, free_driver}

module _ (env : Env) where
  abbrev pub called_off : Ride → Ride
  called_off ride = record ride { status = cancelled; version = ride.version + 1 }

  abbrev pub freed : Driver → Driver
  freed d = record d { is_available = true }

  -- The world after a driver's ride is cancelled.
  abbrev pub freed_world : World env → Ride → Driver → World env
  freed_world w ride d = record w {
    drivers = env.drivers.put w.drivers (driver_to_row (freed d));
    sets = env.sets.sadd w.sets driver_available_set d.user_id;
    rides = env.rides.put w.rides (ride_to_row (called_off ride));
    kafka = w.kafka ++ (ride_cancelled_topic, ride.id) ∷ [];
  }

  abbrev pub may_cancel : Ride → String → Bool
  may_cancel ride user_id =
      not (is_status ride.status in_progress || is_status ride.status completed)
      && (ride.rider_id == user_id || is_text ride.driver_id user_id)

  abbrev pub admits_cancel : World env → Ride → Driver → Bool
  admits_cancel w ride d =
      env.admits_driver w.users w.drivers (driver_to_row (freed d))
      && env.admits_ride w.rides (ride_to_row (called_off ride))

  -- If a ride is there with a driver whose profile is there, is neither in progress nor
  -- completed, the caller is its rider or its driver, and the database admits both rows, then a
  -- cancellation succeeds: it returns the ride cancelled and one version on, and the world
  -- differs only in that ride, in the driver's availability in both stores, and in one event on
  -- the cancelled topic.
  pub cancel_ride_ok :
      (w : World env) (ride_id user_id driver_id : String) (ride : Ride) (d : Driver)
      → read_ride env w.rides ride_id ≡ ok (some ride)
      → may_cancel ride user_id ≡ true
      → ride.driver_id ≡ some driver_id
      → read_driver env w.drivers driver_id ≡ some d
      → admits_cancel w ride d ≡ true
      → cancel_ride env ride_id user_id w ≡ (ok (called_off ride), freed_world w ride d)
  unfolding cancel_ride free_driver
  cancel_ride_ok w ride_id user_id driver_id ride d h1 h2 h3 h4 h5 = ground arith

  -- In a lawful environment: if a ride is already cancelled and has a driver whose profile is
  -- there, that driver is in progress with another ride, the caller is a participant of the
  -- cancelled ride, and the database admits both rows, then cancelling it again succeeds, leaves
  -- the other ride in progress as it was, and marks the driver available.
  pub cancel_ride_again :
      (L : IsLawful env) (w : World env) (ride_id user_id driver_id : String) (ride : Ride)
      (d : Driver)
      → read_ride env w.rides ride_id ≡ ok (some ride)
      → ride.status ≡ cancelled
      → may_cancel ride user_id ≡ true
      → ride.driver_id ≡ some driver_id
      → read_driver env w.drivers driver_id ≡ some d
      → admits_cancel w ride d ≡ true
      → (current : String) (other : Ride) → current ≢ ride_id
      → read_ride env w.rides current ≡ ok (some other)
      → other.status ≡ in_progress
      → other.driver_id ≡ some driver_id
      → let (answer, after) = cancel_ride env ride_id user_id w in
        (answer ≡ ok (called_off ride))
        × (read_ride env after.rides current ≡ ok (some other))
        × (read_driver env after.drivers driver_id ≡ some (freed d))
  cancel_ride_again L w ride_id user_id driver_id ride d h1 gone h2 h3 h4 h5 current other apart h6
        busy same =
      let id : ride.id ≡ ride_id = id-read_ride env L w.rides ride_id ride h1 in
      let user : d.user_id ≡ driver_id = user_id-read_driver env L w.drivers driver_id d h4 in
      let elsewhere : ride.id ≢ current = λ e. apart (sym e ∙ id) in
      rw (cancel_ride_ok w ride_id user_id driver_id ride d h1 h2 h3 h4 h5) (
        refl,
        ground
            (arith, read_ride-put env L w.rides (called_off ride) current, eq_iff ride.id current),
        ground (
          arith,
          read_driver-put env L w.drivers (freed d) driver_id,
          eq_iff d.user_id driver_id,
        ),
      )
