-- ===== src/System/Availability.antt =====
-- The dual write of a driver's availability: the Postgres column and the Redis set agree.
use uber_clone_python.Base.{
  ◌+◌, String, ◌≡◌, inl, inr, Bool, true, false, Option, none, some, List, [], ◌∷◌, arith,
  if◌then◌else◌, Option-cases,
}
use uber_clone_python.Exec.{lift_keeps, Result-cases, pure, ◌>>◌}
use uber_clone_python.Models.{Float, User, Driver}
use uber_clone_python.Env.{Env, World}
use uber_clone_python.Base.{ℤ}
use uber_clone_python.Env.Laws.{IsLawful}
use uber_clone_python.Repositories.Driver as DriverRepository
use uber_clone_python.Repositories.User as UserRepository
use uber_clone_python.Repositories.Driver.{read_driver, driver_to_row, driver_available_set}
use uber_clone_python.Repositories.Ride.{read_ride}
use uber_clone_python.Repositories.Laws.{read_driver-put}
use uber_clone_python.Services.Driver.{register_driver, go_online, go_offline, update_location}
use uber_clone_python.Services.Ride.{
  request_ride, accept_ride, start_ride, complete_ride, cancel_ride, free_driver,
}
use uber_clone_python.Services.Ride.Refinement.{calculate_fare_world}
use uber_clone_python.Services.Rating.{
  round_to_2, incremental_avg, rate, update_averages, rate_driver, rate_user,
}
use uber_clone_python.System.{
  Request, register, online, offline, locate, request, accept, start, complete, cancel, score, wait,
  handle, serve,
}

abbrev pub available : Option Driver → Bool
available none = false
available (some d) = d.is_available

-- The availability set holds exactly the drivers whose column says so.
abbrev pub Agrees : (env : Env) → World env → String → Type 0
Agrees env w k =
    env.sets.sismember w.sets driver_available_set k ≡ available (read_driver env w.drivers k)

module _ (env : Env) (L : IsLawful env) where
  -- The two writes of a save, on the two stores.
  agree-save :
      (s : env.drivers.State) (c : env.sets.State) (d : Driver) (k : String)
      → env.sets.sismember c driver_available_set k ≡ available (read_driver env s k)
      → env.sets.sismember
          (if d.is_available
            then env.sets.sadd c driver_available_set d.user_id
            else env.sets.srem c driver_available_set d.user_id)
          driver_available_set
          k
        ≡ available (read_driver env (env.drivers.put s (driver_to_row d)) k)
  agree-save s c d k h = ground (
    arith,
    read_driver-put env L s d k,
    L.sets.sismember-sadd c driver_available_set d.user_id driver_available_set k,
    L.sets.sismember-srem c driver_available_set d.user_id driver_available_set k,
  )

  module _ (w : World env) (k : String) (h : Agrees env w k) where
    save-Agrees : (d : Driver) → Agrees env (DriverRepository.save env d w).1 k
    unfolding DriverRepository.save
    save-Agrees d = ground (arith, agree-save w.drivers w.sets d k h)

    accept_ride-Agrees :
        (ride_id driver_id : String) → Agrees env (accept_ride env ride_id driver_id w).1 k
    unfolding accept_ride
    accept_ride-Agrees ride_id driver_id =
        elim (Option-cases (read_driver env w.drivers driver_id)) [
          | inl missing ↦ ground arith
          | inr (d, found) ↦
              ground (arith, agree-save w.drivers w.sets (record d { is_available = false }) k h)
        ]

    start_ride-Agrees :
        (ride_id driver_id : String) → Agrees env (start_ride env ride_id driver_id w).1 k
    unfolding start_ride
    start_ride-Agrees ride_id driver_id = ground arith

    complete_ride-Agrees :
        (ride_id driver_id : String) → Agrees env (complete_ride env ride_id driver_id w).1 k
    unfolding complete_ride
    complete_ride-Agrees ride_id driver_id =
        elim (Option-cases (read_driver env w.drivers driver_id)) [
          | inl missing ↦ ground arith
          | inr (d, found) ↦
              ground (arith, agree-save w.drivers w.sets (record d { is_available = true }) k h)
        ]

    go_online-Agrees : (u : String) (lat lng : Float) → Agrees env (go_online env u lat lng w).1 k
    unfolding go_online
    go_online-Agrees u lat lng = elim (Option-cases (read_driver env w.drivers u)) [
      | inl missing ↦ ground arith
      | inr (d, found) ↦
          ground (arith, agree-save w.drivers w.sets (record d { is_available = true }) k h)
    ]

    go_offline-Agrees : (u : String) → Agrees env (go_offline env u w).1 k
    unfolding go_offline
    go_offline-Agrees u = elim (Option-cases (read_driver env w.drivers u)) [
      | inl missing ↦ ground arith
      | inr (d, found) ↦
          ground (arith, agree-save w.drivers w.sets (record d { is_available = false }) k h)
    ]

    update_location-Agrees :
        (u : String) (lat lng : Float) → Agrees env (update_location env u lat lng w).1 k
    unfolding update_location
    update_location-Agrees u lat lng = ground arith

    register_driver-Agrees : (u v p : String) → Agrees env (register_driver env u v p w).1 k
    unfolding register_driver
    register_driver-Agrees u v p = ground (
      arith,
      agree-save w.drivers w.sets
          (record {
            user_id = u;
            vehicle_type = v;
            license_plate = p;
            is_available = false;
            avg_rating = none;
            rating_count = 0;
          })
          k h,
    )

    request_ride-Agrees :
        (rider_id : String) (a b c d : Float) → Agrees env (request_ride env rider_id a b c d w).1 k
    unfolding request_ride
    request_ride-Agrees rider_id a b c d = grind (arith, calculate_fare_world)

    free_driver-Agrees : (o : Option String) → Agrees env (free_driver env o w).1 k
    unfolding free_driver
    free_driver-Agrees none = h
    free_driver-Agrees (some driver_id) =
        elim (Option-cases (read_driver env w.drivers driver_id)) [
          | inl missing ↦ ground arith
          | inr (d, has) ↦
              ground (arith, agree-save w.drivers w.sets (record d { is_available = true }) k h)
        ]

    cancel_ride-Agrees :
        (ride_id user_id : String) → Agrees env (cancel_ride env ride_id user_id w).1 k
    unfolding cancel_ride
    cancel_ride-Agrees ride_id user_id = elim (Result-cases (read_ride env w.rides ride_id)) [
      | inl (e, missing) ↦ ground arith
      | inr (inl missing) ↦ ground arith
      | inr (inr (ride, found)) ↦ ground (arith, free_driver-Agrees ride.driver_id)
    ]

    rate_driver-Agrees : (n : ℤ) (d : Option Driver) → Agrees env (rate_driver env n d w).1 k
    unfolding rate_driver
    rate_driver-Agrees n none = h
    rate_driver-Agrees n (some d) =
        lift_keeps (λ v. Agrees env v k)
          (round_to_2 env.floats (incremental_avg env.floats d.avg_rating d.rating_count n))
          (λ a.
            DriverRepository.save env
              (record d { avg_rating = some a; rating_count = d.rating_count + 1 })
            >> pure tt)
          w h
          (λ a. ground (
            arith,
            save-Agrees (record d { avg_rating = some a; rating_count = d.rating_count + 1 }),
          ))

    save_user-Agrees : (u : User) → Agrees env (UserRepository.save env u w).1 k
    unfolding UserRepository.save
    save_user-Agrees u = ground arith

    rate_user-Agrees : (n : ℤ) (u : Option User) → Agrees env (rate_user env n u w).1 k
    unfolding rate_user
    rate_user-Agrees n none = h
    rate_user-Agrees n (some u) =
        lift_keeps (λ v. Agrees env v k)
          (round_to_2 env.floats (incremental_avg env.floats u.avg_rating u.rating_count n))
          (λ a.
            UserRepository.save env
              (record u { avg_rating = some a; rating_count = u.rating_count + 1 })
            >> pure tt)
          w h
          (λ a. ground (
            arith,
            save_user-Agrees (record u { avg_rating = some a; rating_count = u.rating_count + 1 }),
          ))

  update_averages-Agrees :
      (w : World env) (k u : String) (n : ℤ)
      → Agrees env w k
      → Agrees env (update_averages env u n w).1 k
  unfolding update_averages
  update_averages-Agrees w k u n h = grind (arith, rate_driver-Agrees, rate_user-Agrees)

  rate-Agrees :
      (w : World env) (k ride_id u : String) (n : ℤ) (c : Option String)
      → Agrees env w k
      → Agrees env (rate env ride_id u n c w).1 k
  unfolding rate
  rate-Agrees w k ride_id u n c h = grind (arith, update_averages-Agrees)

  -- One request keeps the agreement about every driver.
  pub handle-Agrees :
      (r : Request) (w : World env) (k : String) → Agrees env w k → Agrees env (handle env r w) k
  unfolding handle
  handle-Agrees (register u v p) w k h = register_driver-Agrees w k h u v p
  handle-Agrees (online u lat lng) w k h = go_online-Agrees w k h u lat lng
  handle-Agrees (offline u) w k h = go_offline-Agrees w k h u
  handle-Agrees (locate u lat lng) w k h = update_location-Agrees w k h u lat lng
  handle-Agrees (request rider_id a b c d) w k h = request_ride-Agrees w k h rider_id a b c d
  handle-Agrees (accept ride_id driver_id) w k h = accept_ride-Agrees w k h ride_id driver_id
  handle-Agrees (start ride_id driver_id) w k h = start_ride-Agrees w k h ride_id driver_id
  handle-Agrees (complete ride_id driver_id) w k h = complete_ride-Agrees w k h ride_id driver_id
  handle-Agrees (cancel ride_id user_id) w k h = cancel_ride-Agrees w k h ride_id user_id
  handle-Agrees (score ride_id user_id n comment) w k h =
      rate-Agrees w k ride_id user_id n comment h
  handle-Agrees (wait n) w k h = h

  -- In a lawful environment, if the availability set in Redis and the availability column in
  -- Postgres agree on every driver, they agree on every driver after any sequence of requests,
  -- refused and failed ones included.
  pub serve-Agrees :
      (rs : List Request) (w : World env)
      → ((k : String) → Agrees env w k)
      → (k : String) → Agrees env (serve env rs w) k
  unfolding serve
  serve-Agrees [] w h k = h k
  serve-Agrees (r ∷ rs) w h k = serve-Agrees rs (handle env r w) (λ j. handle-Agrees r w j (h j)) k
