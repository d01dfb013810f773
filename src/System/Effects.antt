-- ===== src/System/Effects.antt =====
-- Every request has one of the effects of the lifecycle on the rides.
use uber_clone_python.Base.{◌+◌, ◌≤◌, String, ◌≡◌, refl, Option, none, some, arith}
use uber_clone_python.Exec.{lift_keeps, pure, ◌>>◌}
use uber_clone_python.Models.{Float, User, Driver}
use uber_clone_python.Env.{Env, World}
use uber_clone_python.Base.{ℤ}
use uber_clone_python.Env.Laws.{IsLawful}
use uber_clone_python.System.{
  Request, register, online, offline, locate, request, accept, start, complete, cancel, score, wait,
  handle,
}
use uber_clone_python.Services.Driver.{register_driver, go_online, go_offline, update_location}
use uber_clone_python.Services.Ride.Lifecycle.{Effect, unchanged}
use uber_clone_python.Services.Ride.Refinement.{
  request_ride-Effect, accept_ride-Effect, start_ride-Effect, complete_ride-Effect,
  cancel_ride-Effect,
}
use uber_clone_python.Repositories.Driver as DriverRepository
use uber_clone_python.Repositories.User as UserRepository
use uber_clone_python.Services.Rating.{
  round_to_2, incremental_avg, rate, rate_driver, rate_user, update_averages,
}

-- The calls that do not touch the rides.
abbrev Leaves : (env : Env) → World env → World env → Type 0
Leaves env before after = (after.rides ≡ before.rides) × (before.drawn ≤ after.drawn)

module _ (env : Env) (w : World env) where
  register_driver-Leaves : (u v p : String) → Leaves env w (register_driver env u v p w).1
  unfolding register_driver
  register_driver-Leaves u v p = ground arith

  go_online-Leaves : (u : String) (lat lng : Float) → Leaves env w (go_online env u lat lng w).1
  unfolding go_online
  go_online-Leaves u lat lng = ground arith

  go_offline-Leaves : (u : String) → Leaves env w (go_offline env u w).1
  unfolding go_offline
  go_offline-Leaves u = ground arith

  update_location-Leaves :
      (u : String) (lat lng : Float) → Leaves env w (update_location env u lat lng w).1
  unfolding update_location
  update_location-Leaves u lat lng = ground arith

  save_driver-Leaves : (d : Driver) → Leaves env w (DriverRepository.save env d w).1
  unfolding DriverRepository.save
  save_driver-Leaves d = ground arith

  save_user-Leaves : (u : User) → Leaves env w (UserRepository.save env u w).1
  unfolding UserRepository.save
  save_user-Leaves u = ground arith

  rate_driver-Leaves : (n : ℤ) (d : Option Driver) → Leaves env w (rate_driver env n d w).1
  unfolding rate_driver
  rate_driver-Leaves n none = ground arith
  rate_driver-Leaves n (some d) =
      lift_keeps (Leaves env w)
        (round_to_2 env.floats (incremental_avg env.floats d.avg_rating d.rating_count n))
        (λ a.
          DriverRepository.save env
            (record d { avg_rating = some a; rating_count = d.rating_count + 1 })
          >> pure tt)
        w (refl, omega arith)
        (λ a. ground (
          arith,
          save_driver-Leaves (record d { avg_rating = some a; rating_count = d.rating_count + 1 }),
        ))

  rate_user-Leaves : (n : ℤ) (u : Option User) → Leaves env w (rate_user env n u w).1
  unfolding rate_user
  rate_user-Leaves n none = ground arith
  rate_user-Leaves n (some u) =
      lift_keeps (Leaves env w)
        (round_to_2 env.floats (incremental_avg env.floats u.avg_rating u.rating_count n))
        (λ a.
          UserRepository.save env
            (record u { avg_rating = some a; rating_count = u.rating_count + 1 })
          >> pure tt)
        w (refl, omega arith)
        (λ a. ground (
          arith,
          save_user-Leaves (record u { avg_rating = some a; rating_count = u.rating_count + 1 }),
        ))

update_averages-Leaves :
    (env : Env) (w : World env) (u : String) (n : ℤ) → Leaves env w (update_averages env u n w).1
unfolding update_averages
update_averages-Leaves env w u n = grind (arith, rate_driver-Leaves, rate_user-Leaves)

rate-Leaves :
    (env : Env) (w : World env) (ride_id u : String) (n : ℤ) (c : Option String)
    → Leaves env w (rate env ride_id u n c w).1
unfolding rate
rate-Leaves env w ride_id u n c = grind (arith, update_averages-Leaves)

module _ (env : Env) (L : IsLawful env) where
  as-Effect : {before after : World env} → Leaves env before after → Effect env before after
  as-Effect h = unchanged h.0 h.1

  -- In a lawful environment every request, answered or refused, refines the lifecycle of a ride:
  -- it leaves the table of rides as it was, or writes one new requested ride under the uuid just
  -- drawn for a rider with no active ride, or writes one step (accept, start, complete, cancel)
  -- of a stored ride.
  pub handle-Effect : (r : Request) (w : World env) → Effect env w (handle env r w)
  unfolding handle
  handle-Effect (register u v p) w = as-Effect (register_driver-Leaves env w u v p)
  handle-Effect (online u lat lng) w = as-Effect (go_online-Leaves env w u lat lng)
  handle-Effect (offline u) w = as-Effect (go_offline-Leaves env w u)
  handle-Effect (locate u lat lng) w = as-Effect (update_location-Leaves env w u lat lng)
  handle-Effect (request rider_id a b c d) w = request_ride-Effect env L rider_id a b c d w
  handle-Effect (accept ride_id driver_id) w = accept_ride-Effect env ride_id driver_id w
  handle-Effect (start ride_id driver_id) w = start_ride-Effect env ride_id driver_id w
  handle-Effect (complete ride_id driver_id) w = complete_ride-Effect env ride_id driver_id w
  handle-Effect (cancel ride_id user_id) w = cancel_ride-Effect env ride_id user_id w
  handle-Effect (score ride_id user_id n comment) w =
      as-Effect (rate-Leaves env w ride_id user_id n comment)
  handle-Effect (wait n) w = unchanged refl (omega arith)
