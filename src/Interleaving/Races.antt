-- ===== src/Interleaving/Races.antt =====
-- A cancellation in the middle of an acceptance: the check and the write behind it are parted.
use uber_clone_python.Base.{
  ℕ, String, eq_iff, ◌≡◌, refl, ap, ◌∙◌, true, some, List, [], ◌∷◌, arith, eqb, if◌then◌else◌,
}
use uber_clone_python.Base.{false}
use uber_clone_python.Exec.{ok}
use uber_clone_python.Models.{requested, cancelled, Driver, Ride}
use uber_clone_python.Env.{Env, World}
use uber_clone_python.Env.Laws.{IsLawful}
use uber_clone_python.Repositories.Driver as DriverRepository
use uber_clone_python.Repositories.Driver.{read_driver}
use uber_clone_python.Repositories.Ride as RideRepository
use uber_clone_python.Repositories.Ride.{read_ride, ride_to_row, active_ride_statuses}
use uber_clone_python.Repositories.Laws.{read_ride-put, id-read_ride}
use uber_clone_python.Kafka.{publish_ride_accepted}
use uber_clone_python.Services.Ride.{ride_not_found, cancel_ride}
use uber_clone_python.Services.Ride.Acceptance.{accepted, matched_world, admits_match}
use uber_clone_python.Interleaving.{
  Task, after_call, call, refuse_if, expect, releasing, run_alone, save_row, note_availability,
  mark_steps, save_and_publish, get_ride_steps, accept_found, accept_ride_steps, Call, accept,
  cancel, task_of,
}
use uber_clone_python.Interleaving.Alone.{run_alone-releasing, run_alone-task_of}
use uber_clone_python.Interleaving.Schedule.{Office, Tick, go_on, progress, tick, work}
use uber_clone_python.Interleaving.Locking.{
  Balanced-releasing, Unlocked-cancel_ride_steps, Unlocked-accept_found,
}
use uber_clone_python.Interleaving.Completion.{nested, finish_balanced}
use uber_clone_python.Interleaving.OneWinner.{opening}

module _ (env : Env) where
  -- Two calls at the same time, as tasks 0 and 1.
  abbrev pub pair : Call env → Call env → ℕ → Call env
  pair first second i = if eqb i 0 then first else second

  -- Accepting a ride that was read before the world became what it is.
  accept_found_runs :
      (driver_id : String) (ride : Ride) (d : Driver) (w : World env)
      → ride.status ≡ requested
      → read_driver env w.drivers driver_id ≡ some d
      → d.is_available ≡ true
      → admits_match env w driver_id ride d ≡ true
      → run_alone (releasing (accept_found env driver_id ride)) w
        ≡ (ok (accepted env driver_id ride), matched_world env w driver_id ride d)
  unfolding run_alone call refuse_if expect accept_found mark_steps save_and_publish save_row
      note_availability DriverRepository.find_by_id RideRepository.save publish_ride_accepted
  accept_found_runs driver_id ride d w h1 h2 h3 h4 =
      run_alone-releasing env (accept_found env driver_id ride) w ∙ ground arith

  -- Where the two are after some ticks.
  abbrev pub run_pair : Call env → Call env → World env → List (Tick env) → Office env
  run_pair first second w ticks = work ticks (opening env (pair first second) w)

  -- The acceptance has taken the lock and read the ride.
  accept_began :
      (ride_id driver_id : String) (other : Call env) (w : World env) (ride : Ride)
      → read_ride env w.rides ride_id ≡ ok (some ride)
      → let o = run_pair (accept ride_id driver_id) other w (go_on 0 ∷ go_on 0 ∷ []) in
        (o.tasks 0 ≡ releasing (accept_found env driver_id ride))
        × (o.tasks 1 ≡ task_of env other)
        × (o.world ≡ w)
        × (o.locked ≡ true)
  unfolding work tick progress task_of accept_ride_steps get_ride_steps call expect releasing
      RideRepository.find_by_id
  accept_began ride_id driver_id other w ride h = (
    ap
        (λ r.
          releasing
            (after_call (λ found. expect found ride_not_found (accept_found env driver_id)) r))
        h,
    refl,
    refl,
    refl,
  )

  cancels :
      (ride_id user_id : String) (c ride : Ride) (w w' : World env)
      → read_ride env w.rides ride_id ≡ ok (some ride)
      → cancel_ride env ride_id user_id w ≡ (ok c, w')
      → c.status ≡ cancelled
  unfolding cancel_ride
  cancels ride_id user_id c ride w w' found h = ground arith

  -- In a lawful environment: if a ride is requested, a cancellation of it would succeed, and
  -- after that its driver's profile is available and the database admits both rows of a match,
  -- then there is an order of the steps of an acceptance and of that cancellation in which both
  -- end with success, the cancellation reports the ride cancelled, and the ride is stored
  -- matched.
  pub accept_over_cancel :
      (L : IsLawful env) (ride_id driver_id user_id : String) (ride c : Ride) (d : Driver)
      (w w' : World env)
      → read_ride env w.rides ride_id ≡ ok (some ride)
      → ride.status ≡ requested
      → cancel_ride env ride_id user_id w ≡ (ok c, w')
      → read_driver env w'.drivers driver_id ≡ some d
      → d.is_available ≡ true
      → admits_match env w' driver_id ride d ≡ true
      → let after = run_pair (accept ride_id driver_id) (cancel ride_id user_id) w in
        (ticks : List (Tick env)) × ((after ticks).tasks 0
          ≡ Task.done (ok (accepted env driver_id ride)))
        × ((after ticks).tasks 1 ≡ Task.done (ok c))
        × (c.status ≡ cancelled)
        × (read_ride env (after ticks).world.rides ride_id
            ≡ ok (some (accepted env driver_id ride)))
  accept_over_cancel L ride_id driver_id user_id ride c d w w' found was_requested off has free
        admitted =
      let o =
        run_pair (accept ride_id driver_id) (cancel ride_id user_id) w (go_on 0 ∷ go_on 0 ∷ []) in
      let (at0, at1, same, held) =
        accept_began ride_id driver_id (cancel ride_id user_id) w ride found in
      let first = releasing (accept_found env driver_id ride) in
      let second = task_of env (cancel ride_id user_id) in
      let n =
        nested first second o false (ok (accepted env driver_id ride)) (ok c) w'
          (matched_world env w' driver_id ride d) at0 at1
          (unfold task_of in Unlocked-cancel_ride_steps env ride_id user_id)
          (λ p at taken.
            finish_balanced 0 true first p at
              (Balanced-releasing _ (Unlocked-accept_found env driver_id ride)) (taken ∙ held))
          (rw same (run_alone-task_of env (cancel ride_id user_id) w ∙ off))
          (accept_found_runs driver_id ride d w' was_requested has free admitted) in
      let split : run_pair (accept ride_id driver_id) (cancel ride_id user_id) w
            (go_on 0 ∷ go_on 0 ∷ n.ticks)
          ≡ work n.ticks o =
        unfold work in refl in
      (
        go_on 0 ∷ go_on 0 ∷ n.ticks,
        ap (λ (x : Office env). x.tasks 0) split ∙ n.outer,
        ap (λ (x : Office env). x.tasks 1) split ∙ n.inner,
        cancels ride_id user_id c ride w w' found off,
        ap (λ (x : Office env). read_ride env x.world.rides ride_id) split
            ∙ ap (λ (x : World env). read_ride env x.rides ride_id) n.world
            ∙ read_ride-put env L w'.rides (accepted env driver_id ride) ride_id
            ∙ ground (arith, eq_iff ride.id ride_id, id-read_ride env L w.rides ride_id ride found),
      )
