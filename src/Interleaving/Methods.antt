-- ===== src/Interleaving/Methods.antt =====
-- The tasks of the five methods, as steps that do not open a ride that is not new.
use uber_clone_python.Base.{
  ℕ, ◌+◌, ◌<◌, String, ◌≡◌, refl, sym, ◌∙◌, ◌≢◌, inl, inr, true, false, some, arith,
}
use uber_clone_python.Exec.{ok, gets}
use uber_clone_python.Models.{
  Float, requested, matched, in_progress, completed, cancelled, is_status, Ride,
}
use uber_clone_python.Env.{Env, World}
use uber_clone_python.Env.Laws.{IsLawful}
use uber_clone_python.Kafka.{
  publish_ride_requested, publish_ride_accepted, publish_ride_completed, publish_ride_cancelled,
}
use uber_clone_python.Repositories.Ride.{active_ride_statuses}
use uber_clone_python.Services.Ride.{new_ride, calculate_fare}
use uber_clone_python.Interleaving.{
  request_ride_steps, accept_found, start_ride_steps, complete_ride_steps, cancel_ride_steps,
}
use uber_clone_python.Interleaving.Calls.{
  Calm, Idle, Idle-call, Calm-expect, Calm-refuse_if, find_driver-Idle, exists-Idle,
  calculate_fare-Idle, get_ride_steps-Calm, mark_steps-Calm, free_driver_steps-Calm,
  save_and_publish-Calm, Calm-save,
}

module _ (env : Env) (L : IsLawful env) (k : String) (n : ℕ) (at : k ≡ env.uuid n) where
  pub publish-Idle :
      (id : String)
      → Idle env k n (publish_ride_requested env id)
        × Idle env k n (publish_ride_accepted env id)
        × Idle env k n (publish_ride_completed env id)
        × Idle env k n (publish_ride_cancelled env id)
  unfolding publish_ride_requested publish_ride_accepted publish_ride_completed
      publish_ride_cancelled
  publish-Idle id = (
    λ w. (refl, omega arith),
    λ w. (refl, omega arith),
    λ w. (refl, omega arith),
    λ w. (refl, omega arith),
  )

  -- A status that is not requested.
  pub moved_on : (r : Ride) → is_status r.status requested ≡ false → r.status ≡ requested → ⊥
  moved_on r h e = absurd (ground arith)

  pub accept_found-Calm :
      (driver_id : String) (ride : Ride) → Calm env k n (accept_found env driver_id ride)
  unfolding accept_found
  accept_found-Calm driver_id ride =
      let taken : Ride = record ride {
        driver_id = some driver_id;
        status = matched;
        version = ride.version + 1;
      } in
      Calm-refuse_if env k n _ _ _ (
        Idle-call env k n _ _ (find_driver-Idle env k n L driver_id) λ _ _ found _.
          Calm-expect env k n found _ _ λ d. Calm-refuse_if env k n _ _ _ (
            mark_steps-Calm env k n L false driver_id _ (
              save_and_publish-Calm env k n L taken (publish_ride_accepted env)
                (λ id. (publish-Idle id).1) (inl (moved_on taken refl)))))

  pub start_ride_steps-Calm :
      (ride_id driver_id : String) → Calm env k n (start_ride_steps env ride_id driver_id)
  unfolding start_ride_steps
  start_ride_steps-Calm ride_id driver_id = get_ride_steps-Calm env k n L ride_id _ λ ride.
      let running : Ride = record ride { status = in_progress; version = ride.version + 1 } in
      Calm-refuse_if env k n _ _ _ (
        Calm-refuse_if env k n _ _ _
          (Calm-save env k n L running _ (inl (moved_on running refl)) λ saved. tt))

  pub complete_ride_steps-Calm :
      (ride_id driver_id : String) → Calm env k n (complete_ride_steps env ride_id driver_id)
  unfolding complete_ride_steps
  complete_ride_steps-Calm ride_id driver_id = get_ride_steps-Calm env k n L ride_id _ λ ride.
      Calm-refuse_if env k n _ _ _ (
        Calm-refuse_if env k n _ _ _ (
          Idle-call env k n (gets (λ w. w.now)) _ (λ w. (refl, omega arith))
            λ _ _ now _.
              let finished : Ride = record ride {
                status = completed;
                fare = ride.estimated_fare;
                completed_at = some now;
                version = ride.version + 1;
              } in
              Calm-save env k n L finished _ (inl (moved_on finished refl)) λ saved.
                mark_steps-Calm env k n L true driver_id _ (
                  Idle-call env k n (publish_ride_completed env saved.id) _
                    (publish-Idle saved.id).2 λ _ _ _ _. tt)))

  pub cancel_ride_steps-Calm :
      (ride_id user_id : String) → Calm env k n (cancel_ride_steps env ride_id user_id)
  unfolding cancel_ride_steps
  cancel_ride_steps-Calm ride_id user_id = get_ride_steps-Calm env k n L ride_id _ λ ride.
      let called_off : Ride = record ride { status = cancelled; version = ride.version + 1 } in
      Calm-refuse_if env k n _ _ _ (
        Calm-refuse_if env k n _ _ _ (
          free_driver_steps-Calm env k n L ride.driver_id _ (
            save_and_publish-Calm env k n L called_off (publish_ride_cancelled env)
              (λ id. (publish-Idle id).3) (inl (moved_on called_off refl)))))

  new_ride-Idle :
      (rider_id : String) (a b c d : Float) → Idle env k n (new_ride env rider_id a b c d)
  unfolding new_ride
  new_ride-Idle rider_id a b c d w = (refl, omega arith)

  -- A ride that is drawn now is another ride than one drawn before.
  new_ride_apart :
      (rider_id : String) (a b c d : Float) (w : World env) (ride : Ride)
      → n < w.drawn
      → (new_ride env rider_id a b c d w).0 ≡ ok ride
      → ride.id ≢ k
  unfolding new_ride
  new_ride_apart rider_id a b c d w ride lt e same =
      let id : ride.id ≡ env.uuid w.drawn = ground arith in
      absurd (omega (arith, L.uuid_injective w.drawn n (sym id ∙ same ∙ at)))

  pub request_ride_steps-Calm :
      (rider_id : String) (a b c d : Float) → Calm env k n (request_ride_steps env rider_id a b c d)
  unfolding request_ride_steps
  request_ride_steps-Calm rider_id a b c d =
      Idle-call env k n _ _ (exists-Idle env k n L rider_id active_ride_statuses) λ _ _ active _.
        Calm-refuse_if env k n _ _ _ (
          Idle-call env k n (new_ride env rider_id a b c d) _ (new_ride-Idle rider_id a b c d)
            λ w lt ride drawn_now.
              Idle-call env k n (calculate_fare env ride) _ (calculate_fare-Idle env k n L ride)
                λ _ _ fare _.
                  save_and_publish-Calm env k n L (record ride { estimated_fare = some fare })
                    (publish_ride_requested env) (λ id. (publish-Idle id).0)
                    (inr (new_ride_apart rider_id a b c d w ride lt drawn_now)))
