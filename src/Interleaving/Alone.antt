-- ===== src/Interleaving/Alone.antt =====
-- A task that runs alone, beside the method that it stands for.
use mathlib.Core.Path.{subst}
use uber_clone_python.Base.{String, ◌≡◌, refl, sym, arith}
use uber_clone_python.Exec.{Exec, Result}
use uber_clone_python.Models.{Float, Ride}
use uber_clone_python.Env.{Env, World}
use uber_clone_python.Env.Laws.{IsLawful}
use uber_clone_python.Services.Ride.Lifecycle.{Effect}
use uber_clone_python.Services.Ride.Refinement.{
  start_ride-Effect, complete_ride-Effect, accept_ride-Effect, cancel_ride-Effect,
  request_ride-Effect,
}
use uber_clone_python.Services.Ride.{
  request_ride, accept_ride, start_ride, complete_ride, cancel_ride, free_driver,
}
use uber_clone_python.Interleaving.{
  call, refuse_if, expect, Task, run_alone, save_row, note_availability, request_ride_steps,
  accept_found, accept_ride_steps, start_ride_steps, complete_ride_steps, free_driver_steps,
  cancel_ride_steps, Call, request, accept, start, complete, cancel, task_of, releasing,
}

module _ (env : Env) where
  -- The method behind a call.
  abbrev pub method_of : Call env → Exec (World env) Ride
  method_of (request rider_id a b c d) = request_ride env rider_id a b c d
  method_of (accept ride_id driver_id) = accept_ride env ride_id driver_id
  method_of (start ride_id driver_id) = start_ride env ride_id driver_id
  method_of (complete ride_id driver_id) = complete_ride env ride_id driver_id
  method_of (cancel ride_id user_id) = cancel_ride env ride_id user_id

  pub run_alone-releasing :
      (t : Task (World env) Ride) (w : World env) → run_alone (releasing t) w ≡ run_alone t w
  unfolding run_alone call refuse_if expect releasing
  run_alone-releasing (Task.done r) w = refl
  run_alone-releasing (Task.step g k) w = run_alone-releasing (k w) (g w)
  run_alone-releasing (Task.acquire t) w = run_alone-releasing t w
  run_alone-releasing (Task.release t) w = run_alone-releasing t w

  run_start :
      (ride_id driver_id : String) (w : World env)
      → run_alone (start_ride_steps env ride_id driver_id) w ≡ start_ride env ride_id driver_id w
  unfolding run_alone call refuse_if expect start_ride_steps start_ride
  run_start ride_id driver_id w = ground arith

  run_accept :
      (ride_id driver_id : String) (w : World env)
      → run_alone (accept_ride_steps env ride_id driver_id) w ≡ accept_ride env ride_id driver_id w
  unfolding run_alone call refuse_if expect accept_ride_steps accept_found releasing save_row
      note_availability accept_ride
  run_accept ride_id driver_id w = ground arith

  run_complete :
      (ride_id driver_id : String) (w : World env)
      → run_alone (complete_ride_steps env ride_id driver_id) w
        ≡ complete_ride env ride_id driver_id w
  unfolding run_alone call refuse_if expect complete_ride_steps save_row note_availability
      complete_ride
  run_complete ride_id driver_id w = ground arith

  run_request :
      (rider_id : String) (a b c d : Float) (w : World env)
      → run_alone (request_ride_steps env rider_id a b c d) w ≡ request_ride env rider_id a b c d w
  unfolding run_alone call refuse_if expect request_ride_steps request_ride
  run_request rider_id a b c d w = ground arith

  run_cancel :
      (ride_id user_id : String) (w : World env)
      → run_alone (cancel_ride_steps env ride_id user_id) w ≡ cancel_ride env ride_id user_id w
  unfolding run_alone call refuse_if expect cancel_ride_steps save_row note_availability cancel_ride
      free_driver free_driver_steps
  run_cancel ride_id user_id w = ground arith

  -- With no other call in between.
  pub run_alone-task_of :
      (c : Call env) (w : World env) → run_alone (task_of env c) w ≡ method_of c w
  unfolding task_of
  run_alone-task_of (request rider_id a b c d) w = run_request rider_id a b c d w
  run_alone-task_of (accept ride_id driver_id) w = run_accept ride_id driver_id w
  run_alone-task_of (start ride_id driver_id) w = run_start ride_id driver_id w
  run_alone-task_of (complete ride_id driver_id) w = run_complete ride_id driver_id w
  run_alone-task_of (cancel ride_id user_id) w = run_cancel ride_id user_id w

module _ (env : Env) (L : IsLawful env) where
  -- In a lawful environment, a call whose steps are taken with no other call in between gives the
  -- result and the world that its method gives, and refines the lifecycle of a ride: it leaves
  -- the table of rides as it was, or writes one new requested ride under the uuid just drawn for
  -- a rider with no active ride, or writes one step (accept, start, complete, cancel) of a stored
  -- ride.
  pub run_alone-Effect :
      (c : Call env) (w : World env)
      → (run_alone (task_of env c) w ≡ method_of env c w)
        × Effect env w (run_alone (task_of env c) w).1
  run_alone-Effect c w =
      let same = run_alone-task_of env c w in
      (
        same,
        subst (λ (m : Result Ride × World env). Effect env w m.1) (sym same) (method_of-Effect c w),
      )
    where
      method_of-Effect : (c : Call env) (w : World env) → Effect env w (method_of env c w).1
      method_of-Effect (request rider_id a b c d) w = request_ride-Effect env L rider_id a b c d w
      method_of-Effect (accept ride_id driver_id) w = accept_ride-Effect env ride_id driver_id w
      method_of-Effect (start ride_id driver_id) w = start_ride-Effect env ride_id driver_id w
      method_of-Effect (complete ride_id driver_id) w = complete_ride-Effect env ride_id driver_id w
      method_of-Effect (cancel ride_id user_id) w = cancel_ride-Effect env ride_id user_id w
