-- ===== src/Interleaving.antt =====
-- src/ride_service/services/ride.py once more, as coroutines: a task gives way at each await, so
-- that other tasks run between its steps. A step is one call of a repository, of dispatch, of
-- pricing or of the producer; saving a driver is two, the row and the availability set.
pub mod Alone
pub mod Schedule
pub mod Modes
pub mod Exclusion
pub mod Winner
pub mod Calls
pub mod Methods
pub mod Acceptance
pub mod OneWinner
pub mod Locking
pub mod Completion
pub mod Deadlock
pub mod Races
pub mod Requests
use uber_clone_python.Base.{
  ℕ, zero, suc, ◌+◌, ◌≤◌, ◌<◌, ⊤, String, ◌==◌, eq_iff, eq_refl, ◌≡◌, refl, sym, ap, ◌∙◌, ◌≢◌, ◌↔◌,
  ◌⊎◌, inl, inr, Bool, true, false, not, ◌&&◌, ◌||◌, Option, none, some, List, [], ◌∷◌, ◌++◌, map,
  Mem, not-mem-nil, All, length, is_empty, is_some, is_text, head?, contains, arith, ltb, leb, eqb,
  if◌then◌else◌, Bool-cases, Option-cases,
}
use uber_clone_python.Exec.{
  Error, http, integrity_error, value_error, decimal_error, redis_error, key_error, Result, ok, err,
  Result-cases, Exec, pure, raise, lift, gets, or_raise, ◌>>=◌, ◌>>◌, raise_if, modify,
}
use uber_clone_python.Models.{
  Float, DateTime, Role, rider, driver, RideStatus, requested, matched, in_progress, completed,
  cancelled, role_value, status_value, role_of, status_of, is_role, is_status, User, Driver, Ride,
  Rating, UserRow, DriverRow, RideRow, RatingRow,
}
use uber_clone_python.Decimal.{Decimal}
use uber_clone_python.Env.{Env, World, Table}
use uber_clone_python.Kafka.{
  publish_ride_requested, publish_ride_accepted, publish_ride_completed, publish_ride_cancelled,
}
use uber_clone_python.Repositories.Driver as DriverRepository
use uber_clone_python.Repositories.Driver.{driver_to_row, driver_from_row, driver_available_set}
use uber_clone_python.Repositories.Ride as RideRepository
use uber_clone_python.Repositories.Ride.{active_ride_statuses}
use uber_clone_python.Services.Driver.{no_profile}
use uber_clone_python.Services.Ride.{
  new_ride, calculate_fare, ride_not_found, not_assigned, not_participant, no_driver_profile,
  cannot_cancel,
}

-- What is left of a task: it has ended, it makes a step on the state and goes on from what it read
-- there, or it is about to take or to give back the lock.
pub data Task (S A : Type 0) : Type 0 where
  done : Result A → Task S A
  step : (S → S) → (S → Task S A) → Task S A
  acquire : Task S A → Task S A
  release : Task S A → Task S A

module _ {S : Type 0} where
  -- The next step runs an action, whose exception ends the task.
  abbrev pub after_call : {A B : Type 0} → (A → Task S B) → Result A → Task S B
  after_call k (ok a) = k a
  after_call k (err e) = done (err e)

  unfoldable pub call : {A B : Type 0} → Exec S A → (A → Task S B) → Task S B
  call m k = step (λ s. (m s).1) (λ s. after_call k (m s).0)

  -- Between two awaits: `if c: raise e`, and `if x is None: raise e`.
  unfoldable pub refuse_if : {A : Type 0} → Bool → Error → Task S A → Task S A
  refuse_if c e t = if c then done (err e) else t

  unfoldable pub expect : {A B : Type 0} → Option A → Error → (A → Task S B) → Task S B
  expect none e k = done (err e)
  expect (some a) e k = k a

  -- `async with lock`: the lock is given back when the body ends, by an exception too.
  unfoldable pub releasing : {A : Type 0} → Task S A → Task S A
  releasing (done r) = release (done r)
  releasing (step g k) = step g (λ s. releasing (k s))
  releasing (acquire t) = acquire (releasing t)
  releasing (release t) = release (releasing t)

  -- A task that runs with no other task in between.
  unfoldable pub run_alone : {A : Type 0} → Task S A → Exec S A
  run_alone (done r) s = (r, s)
  run_alone (step g k) s = run_alone (k s) (g s)
  run_alone (acquire t) s = run_alone t s
  run_alone (release t) s = run_alone t s

module _ (env : Env) where
  -- The two halves of saving a driver.
  unfoldable pub save_row : Driver → Exec (World env) Driver
  save_row d w =
      if env.admits_driver w.users w.drivers (driver_to_row d)
      then (
        ok (driver_from_row (driver_to_row d)),
        record w { drivers = env.drivers.put w.drivers (driver_to_row d) },
      )
      else (err integrity_error, w)

  unfoldable pub note_availability : Driver → Exec (World env) ⊤
  note_availability d = modify (λ w. record w {
    sets =
        if d.is_available
        then env.sets.sadd w.sets driver_available_set d.user_id
        else env.sets.srem w.sets driver_available_set d.user_id;
  })

  -- `mark_available_by_id` and `mark_unavailable_by_id`, and then the rest of the task.
  unfoldable pub mark_steps : Bool → String → Task (World env) Ride → Task (World env) Ride
  mark_steps is_available user_id rest = call (DriverRepository.find_by_id env user_id) λ found.
      expect found no_profile λ d.
        call (save_row (record d { is_available = is_available }))
          λ saved. call (note_availability (record d { is_available = is_available })) λ _. rest

  unfoldable pub save_and_publish : Ride → (String → Exec (World env) ⊤) → Task (World env) Ride
  save_and_publish ride publish =
      call (RideRepository.save env ride) λ saved. call (publish saved.id) λ _. done (ok saved)

  unfoldable pub get_ride_steps : String → (Ride → Task (World env) Ride) → Task (World env) Ride
  get_ride_steps ride_id rest =
      call (RideRepository.find_by_id env ride_id) λ found. expect found ride_not_found rest

  unfoldable pub request_ride_steps : String → Float → Float → Float → Float → Task (World env) Ride
  unfolding save_and_publish
  request_ride_steps rider_id pickup_lat pickup_lng dropoff_lat dropoff_lng =
      call (RideRepository.exists_by_rider_id_and_status_in env rider_id active_ride_statuses)
        λ active. refuse_if active (http 409 "Rider already has an active ride") (
          call (new_ride env rider_id pickup_lat pickup_lng dropoff_lat dropoff_lng) λ ride.
            call (calculate_fare env ride) λ estimated_fare.
              save_and_publish (record ride { estimated_fare = some estimated_fare })
                (publish_ride_requested env))

  -- The body of `async with self._accept_lock`, from the ride that was read on.
  unfoldable pub accept_found : String → Ride → Task (World env) Ride
  unfolding mark_steps save_and_publish
  accept_found driver_id ride =
      refuse_if (not (is_status ride.status requested))
        (http 409 "Ride is not available for acceptance")
        (call (DriverRepository.find_by_id env driver_id) λ found.
          expect found no_driver_profile λ d.
            refuse_if (not d.is_available) (http 409 "Driver is not currently available") (
              mark_steps false driver_id (
                save_and_publish
                  (record ride {
                    driver_id = some driver_id;
                    status = matched;
                    version = ride.version + 1;
                  })
                  (publish_ride_accepted env))))

  unfoldable pub accept_ride_steps : String → String → Task (World env) Ride
  unfolding get_ride_steps accept_found releasing
  accept_ride_steps ride_id driver_id =
      acquire (releasing (get_ride_steps ride_id (accept_found driver_id)))

  unfoldable pub start_ride_steps : String → String → Task (World env) Ride
  unfolding get_ride_steps
  start_ride_steps ride_id driver_id = get_ride_steps ride_id λ ride.
      refuse_if (not (is_status ride.status matched)) (http 409 "Ride is not in MATCHED state") (
        refuse_if (not (is_text ride.driver_id driver_id)) not_assigned (
          call
            (RideRepository.save env
              (record ride { status = in_progress; version = ride.version + 1 }))
            λ saved. done (ok saved)))

  unfoldable pub complete_ride_steps : String → String → Task (World env) Ride
  unfolding get_ride_steps mark_steps
  complete_ride_steps ride_id driver_id = get_ride_steps ride_id λ ride.
      refuse_if (not (is_status ride.status in_progress)) (http 409 "Ride is not IN_PROGRESS") (
        refuse_if (not (is_text ride.driver_id driver_id)) not_assigned (
          call (gets (λ w. w.now)) λ now.
            call
              (RideRepository.save env (record ride {
                status = completed;
                fare = ride.estimated_fare;
                completed_at = some now;
                version = ride.version + 1;
              }))
              λ saved.
                mark_steps true driver_id
                  (call (publish_ride_completed env saved.id) λ _. done (ok saved))))

  -- `if ride.driver_id is not None`
  unfoldable pub free_driver_steps : Option String → Task (World env) Ride → Task (World env) Ride
  unfolding mark_steps
  free_driver_steps none rest = rest
  free_driver_steps (some driver_id) rest = mark_steps true driver_id rest

  unfoldable pub cancel_ride_steps : String → String → Task (World env) Ride
  unfolding get_ride_steps free_driver_steps save_and_publish cannot_cancel
  cancel_ride_steps ride_id user_id = get_ride_steps ride_id λ ride.
      refuse_if (is_status ride.status in_progress || is_status ride.status completed)
        (cannot_cancel ride.status)
        (refuse_if (not (ride.rider_id == user_id) && not (is_text ride.driver_id user_id))
          not_participant
          (free_driver_steps ride.driver_id (
            save_and_publish (record ride { status = cancelled; version = ride.version + 1 })
              (publish_ride_cancelled env))))

  -- The calls that may run at the same time.
  pub data Call : Type 0 where
    request : String → Float → Float → Float → Float → Call
    accept : String → String → Call
    start : String → String → Call
    complete : String → String → Call
    cancel : String → String → Call

  unfoldable pub task_of : Call → Task (World env) Ride
  task_of (request rider_id a b c d) = request_ride_steps rider_id a b c d
  task_of (accept ride_id driver_id) = accept_ride_steps ride_id driver_id
  task_of (start ride_id driver_id) = start_ride_steps ride_id driver_id
  task_of (complete ride_id driver_id) = complete_ride_steps ride_id driver_id
  task_of (cancel ride_id user_id) = cancel_ride_steps ride_id user_id
