-- ===== src/Interleaving/Calls.antt =====
-- The parts of the five methods, as steps that do not open a ride that is not new.
use uber_clone_python.Base.{
  ℕ, ◌≤◌, ◌<◌, ⊤, String, ◌≡◌, refl, sym, ◌≢◌, ◌⊎◌, inl, inr, Bool, true, false, Option, none, some,
  List, arith, Bool-cases,
}
use uber_clone_python.Exec.{Error, Result, ok, err, Exec}
use uber_clone_python.Models.{RideStatus, requested, Driver, Ride}
use uber_clone_python.Env.{Env, World}
use uber_clone_python.Env.Laws.{IsLawful}
use uber_clone_python.Repositories.Driver as DriverRepository
use uber_clone_python.Repositories.Ride as RideRepository
use uber_clone_python.Repositories.Ride.{read_ride, ride_to_row, active_ride_statuses}
use uber_clone_python.Repositories.Laws.{read_ride-put_cases}
use uber_clone_python.Services.Ride.{calculate_fare}
use uber_clone_python.Services.Ride.Refinement.{calculate_fare_world}
use uber_clone_python.Interleaving.{
  Task, after_call, call, refuse_if, expect, releasing, save_row, note_availability, mark_steps,
  save_and_publish, get_ride_steps, free_driver_steps,
}
use uber_clone_python.Interleaving.Modes.{aside, aside_in, Open, Quiet, InMode}

module _ (env : Env) (k : String) (n : ℕ) where
  -- A task without the lock, whose steps do not open the ride.
  abbrev pub Calm : Task (World env) Ride → Type 0
  Calm (Task.done r) = ⊤
  Calm (Task.step g h) =
      (w : World env)
      → n < w.drawn
      → (n < (g w).drawn) × (Open env k n (g w) → Open env k n w) × Calm (h w)
  Calm (Task.acquire t) = ⊥
  Calm (Task.release t) = ⊥

  pub Calm-Quiet : (t : Task (World env) Ride) → Calm t → Quiet env k n t
  Calm-Quiet (Task.done r) c = tt
  Calm-Quiet (Task.step g h) c =
      λ w d. let (more, opens, rest) = c w d in (more, opens, Calm-Quiet (h w) rest)
  Calm-Quiet (Task.acquire t) c = absurd c
  Calm-Quiet (Task.release t) c = absurd c

  pub Calm-aside : (t : Task (World env) Ride) → Calm t → InMode env k n aside t
  Calm-aside (Task.done r) c = tt
  Calm-aside (Task.step g h) c = λ w d. Calm-aside (h w) (c w d).2
  Calm-aside (Task.acquire t) c = absurd c
  Calm-aside (Task.release t) c = absurd c

  -- The same with the lock around it.
  pub Quiet-releasing : (t : Task (World env) Ride) → Calm t → Quiet env k n (releasing t)
  unfolding releasing
  Quiet-releasing (Task.done r) c = tt
  Quiet-releasing (Task.step g h) c =
      λ w d. let (more, opens, rest) = c w d in (more, opens, Quiet-releasing (h w) rest)
  Quiet-releasing (Task.acquire t) c = absurd c
  Quiet-releasing (Task.release t) c = absurd c

  pub aside_in-releasing :
      (t : Task (World env) Ride) → Calm t → InMode env k n aside_in (releasing t)
  unfolding releasing
  aside_in-releasing (Task.done r) c = tt
  aside_in-releasing (Task.step g h) c = λ w d. aside_in-releasing (h w) (c w d).2
  aside_in-releasing (Task.acquire t) c = absurd c
  aside_in-releasing (Task.release t) c = absurd c

  -- An action that leaves the rides alone.
  abbrev pub Idle : {A : Type 0} → Exec (World env) A → Type 0
  Idle m = (w : World env) → ((m w).1.rides ≡ w.rides) × (w.drawn ≤ (m w).1.drawn)

  pub Calm-after_call :
      {A : Type 0} (h : A → Task (World env) Ride) (r : Result A)
      → ((a : A) → r ≡ ok a → Calm (h a))
      → Calm (after_call h r)
  Calm-after_call h (ok a) c = c a refl
  Calm-after_call h (err e) c = tt

  pub Idle-call :
      {A : Type 0} (m : Exec (World env) A) (h : A → Task (World env) Ride)
      → Idle m
      → ((w : World env) → n < w.drawn → (a : A) → (m w).0 ≡ ok a → Calm (h a))
      → Calm (call m h)
  unfolding call
  Idle-call m h idle rest = λ w d. (
    omega (arith, (idle w).1),
    (λ (r, shows, status). (r, (rw (idle w).0 at shows), status)),
    Calm-after_call h (m w).0 (rest w d),
  )

  pub Calm-expect :
      {A : Type 0} (o : Option A) (e : Error) (h : A → Task (World env) Ride)
      → ((a : A) → Calm (h a))
      → Calm (expect o e h)
  unfolding expect
  Calm-expect none e h c = tt
  Calm-expect (some a) e h c = c a

  pub Calm-refuse_if :
      (b : Bool) (e : Error) (t : Task (World env) Ride) → Calm t → Calm (refuse_if b e t)
  unfolding refuse_if
  Calm-refuse_if true e t c = tt
  Calm-refuse_if false e t c = c

  module _ (L : IsLawful env) where
    -- Writing a ride that is not requested, or another ride.
    save_opens :
        (x : Ride) (w : World env)
        → ((x.status ≡ requested → ⊥) ⊎ (x.id ≢ k))
        → Open env k n (RideRepository.save env x w).1
        → Open env k n w
    unfolding RideRepository.save
    save_opens x w harmless (r, shows, status) =
        elim (Bool-cases (env.admits_ride w.rides (ride_to_row x))) [
          | inr refused ↦ (r, ground arith, status)
          | inl written ↦ elim (read_ride-put_cases env L w.rides x k r (ground arith)) [
            | inl (at, same) ↦ elim harmless [
              | inl not_requested ↦ absurd (not_requested (rw same at status))
              | inr apart ↦ absurd (apart (sym at))
            ]
            | inr (old, _) ↦ (r, old, status)
          ]
        ]

    save_drawn : (x : Ride) (w : World env) → (RideRepository.save env x w).1.drawn ≡ w.drawn
    unfolding RideRepository.save
    save_drawn x w = ground arith

    pub Calm-save :
        (x : Ride) (h : Ride → Task (World env) Ride)
        → ((x.status ≡ requested → ⊥) ⊎ (x.id ≢ k))
        → ((saved : Ride) → Calm (h saved))
        → Calm (call (RideRepository.save env x) h)
    unfolding call
    Calm-save x h harmless rest = λ w d. (
      omega (arith, save_drawn x w),
      save_opens x w harmless,
      Calm-after_call h (RideRepository.save env x w).0 (λ saved _. rest saved),
    )

    pub read-Idle : (ride_id : String) → Idle (RideRepository.find_by_id env ride_id)
    unfolding RideRepository.find_by_id
    read-Idle ride_id w = (refl, omega arith)

    pub find_driver-Idle : (user_id : String) → Idle (DriverRepository.find_by_id env user_id)
    unfolding DriverRepository.find_by_id
    find_driver-Idle user_id w = (refl, omega arith)

    pub exists-Idle :
        (rider_id : String) (sts : List RideStatus)
        → Idle (RideRepository.exists_by_rider_id_and_status_in env rider_id sts)
    unfolding RideRepository.exists_by_rider_id_and_status_in
    exists-Idle rider_id sts w = (refl, omega arith)

    pub save_row-Idle : (d : Driver) → Idle (save_row env d)
    unfolding save_row
    save_row-Idle d w = ground arith

    pub note_availability-Idle : (d : Driver) → Idle (note_availability env d)
    unfolding note_availability
    note_availability-Idle d w = (refl, omega arith)

    pub calculate_fare-Idle : (ride : Ride) → Idle (calculate_fare env ride)
    calculate_fare-Idle ride w = ground (arith, calculate_fare_world env ride w)

    -- The parts of the methods.
    pub get_ride_steps-Calm :
        (ride_id : String) (rest : Ride → Task (World env) Ride)
        → ((ride : Ride) → Calm (rest ride))
        → Calm (get_ride_steps env ride_id rest)
    unfolding get_ride_steps
    get_ride_steps-Calm ride_id rest c =
        Idle-call (RideRepository.find_by_id env ride_id) _ (read-Idle ride_id)
          λ w d found e. Calm-expect found _ rest c

    pub mark_steps-Calm :
        (b : Bool) (user_id : String) (rest : Task (World env) Ride)
        → Calm rest
        → Calm (mark_steps env b user_id rest)
    unfolding mark_steps
    mark_steps-Calm b user_id rest c =
        Idle-call (DriverRepository.find_by_id env user_id) _ (find_driver-Idle user_id)
          λ _ _ found _. Calm-expect found _ _ λ d.
            Idle-call (save_row env (record d { is_available = b })) _
              (save_row-Idle (record d { is_available = b }))
              λ _ _ saved _.
                Idle-call (note_availability env (record d { is_available = b })) _
                  (note_availability-Idle (record d { is_available = b })) λ _ _ _ _. c

    pub free_driver_steps-Calm :
        (o : Option String) (rest : Task (World env) Ride)
        → Calm rest
        → Calm (free_driver_steps env o rest)
    unfolding free_driver_steps
    free_driver_steps-Calm none rest c = c
    free_driver_steps-Calm (some driver_id) rest c = mark_steps-Calm true driver_id rest c

    pub save_and_publish-Calm :
        (x : Ride) (publish : String → Exec (World env) ⊤)
        → ((id : String) → Idle (publish id))
        → ((x.status ≡ requested → ⊥) ⊎ (x.id ≢ k))
        → Calm (save_and_publish env x publish)
    unfolding save_and_publish
    save_and_publish-Calm x publish idle harmless =
        Calm-save x _ harmless λ saved. Idle-call (publish saved.id) _ (idle saved.id) λ _ _ _ _. tt
