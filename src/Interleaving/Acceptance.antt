-- ===== src/Interleaving/Acceptance.antt =====
-- How an acceptance of one ride claims it, with the lock in hand.
use uber_clone_python.Base.{
  ℕ, ◌+◌, String, eq_iff, ◌≡◌, refl, ◌⊎◌, inl, inr, Bool, true, false, Option, none, some, arith,
  Bool-cases,
}
use uber_clone_python.Exec.{Error, Result, ok, err, Exec}
use uber_clone_python.Models.{requested, matched, is_status, Ride}
use uber_clone_python.Env.{Env, World}
use uber_clone_python.Env.Laws.{IsLawful}
use uber_clone_python.Kafka.{publish_ride_accepted}
use uber_clone_python.Repositories.Ride as RideRepository
use uber_clone_python.Repositories.Ride.{read_ride, ride_to_row, active_ride_statuses}
use uber_clone_python.Repositories.Laws.{read_ride-put, id-read_ride}
use uber_clone_python.Interleaving.{
  Task, after_call, call, refuse_if, expect, releasing, mark_steps, save_and_publish,
  get_ride_steps, accept_found, accept_ride_steps,
}
use uber_clone_python.Interleaving.Modes.{out, inside, claimed, winning, Open, InMode}
use uber_clone_python.Services.Ride.{ride_not_found}

module _ (env : Env) (L : IsLawful env) (k : String) (n : ℕ) where
  claimed-after_call :
      {A : Type 0} (h : A → Task (World env) Ride) (r : Result A)
      → ((a : A) → InMode env k n claimed (releasing (h a)))
      → InMode env k n claimed (releasing (after_call h r))
  unfolding releasing
  claimed-after_call h (ok a) rest = rest a
  claimed-after_call h (err e) rest = tt

  claimed-call :
      {A : Type 0} (m : Exec (World env) A) (h : A → Task (World env) Ride)
      → ((a : A) → InMode env k n claimed (releasing (h a)))
      → InMode env k n claimed (releasing (call m h))
  unfolding call releasing
  claimed-call m h rest = λ w _. inl (claimed-after_call h (m w).0 rest)

  claimed-expect :
      {A : Type 0} (o : Option A) (e : Error) (h : A → Task (World env) Ride)
      → ((a : A) → InMode env k n claimed (releasing (h a)))
      → InMode env k n claimed (releasing (expect o e h))
  unfolding expect releasing
  claimed-expect none e h rest = tt
  claimed-expect (some a) e h rest = rest a

  claimed-refuse_if :
      (b : Bool) (e : Error) (t : Task (World env) Ride)
      → InMode env k n claimed (releasing t)
      → InMode env k n claimed (releasing (refuse_if b e t))
  unfolding refuse_if releasing
  claimed-refuse_if true e t c = tt
  claimed-refuse_if false e t c = c

  -- The write that closes the ride.
  save_closes :
      (x : Ride) (w : World env) (saved : Ride)
      → x.id ≡ k
      → (x.status ≡ requested → ⊥)
      → (RideRepository.save env x w).0 ≡ ok saved
      → Open env k n (RideRepository.save env x w).1
      → ⊥
  unfolding RideRepository.save
  save_closes x w saved id closes e (r, shows, status) =
      elim (Bool-cases (env.admits_ride w.rides (ride_to_row x))) [
        | inr refused ↦ absurd (ground arith)
        | inl written ↦
            let same : r ≡ x = ground (arith, read_ride-put env L w.rides x k, eq_iff x.id k) in
            closes (rw same at status)
      ]

  won_or_claimed :
      (h : Ride → Task (World env) Ride) (r : Result Ride) (w' : World env)
      → ((saved : Ride) → r ≡ ok saved → Open env k n w' → ⊥)
      → ((saved : Ride) → InMode env k n winning (releasing (h saved)))
      → InMode env k n claimed (releasing (after_call h r))
        ⊎ ((Open env k n w' → ⊥) × InMode env k n winning (releasing (after_call h r)))
  unfolding releasing
  won_or_claimed h (ok saved) w' closed wins = inr (closed saved refl, wins saved)
  won_or_claimed h (err e) w' closed wins = inl tt

  published_wins :
      (saved : Ride)
      → InMode env k n winning
          (releasing (call (publish_ride_accepted env saved.id) (λ _. Task.done (ok saved))))
  unfolding call releasing publish_ride_accepted
  published_wins saved = λ _ _. tt

  claimed_save :
      (x : Ride)
      → x.id ≡ k
      → (x.status ≡ requested → ⊥)
      → InMode env k n claimed (releasing (save_and_publish env x (publish_ride_accepted env)))
  unfolding save_and_publish call releasing
  claimed_save x id closes = λ w _.
      won_or_claimed
        (λ saved. call (publish_ride_accepted env saved.id) (λ _. Task.done (ok saved)))
        (RideRepository.save env x w).0 (RideRepository.save env x w).1
        (λ saved e. save_closes x w saved id closes e) published_wins

  claimed_mark :
      (b : Bool) (user_id : String) (rest : Task (World env) Ride)
      → InMode env k n claimed (releasing rest)
      → InMode env k n claimed (releasing (mark_steps env b user_id rest))
  unfolding mark_steps
  claimed_mark b user_id rest c =
      claimed-call _ _
        λ found. claimed-expect found _ _ λ d. claimed-call _ _ λ saved. claimed-call _ _ λ _. c

  claimed_found :
      (driver_id : String) (ride : Ride)
      → ride.id ≡ k
      → InMode env k n claimed (releasing (accept_found env driver_id ride))
  unfolding accept_found
  claimed_found driver_id ride id =
      let taken : Ride = record ride {
        driver_id = some driver_id;
        status = matched;
        version = ride.version + 1;
      } in
      claimed-refuse_if _ _ _ (
        claimed-call _ _ λ found. claimed-expect found _ _ λ d.
          claimed-refuse_if _ _ _
            (claimed_mark false driver_id _ (claimed_save taken id (λ e. absurd (ground arith)))))

  refused_found :
      (driver_id : String) (ride : Ride)
      → is_status ride.status requested ≡ false
      → InMode env k n inside (releasing (accept_found env driver_id ride))
  unfolding accept_found refuse_if releasing
  refused_found driver_id ride h = rw h tt

  -- The read decides: a ride that is requested is claimed, and any other answer ends the task.
  read_decides :
      (driver_id : String) (w : World env) (r : Result (Option Ride))
      → read_ride env w.rides k ≡ r
      → let rest =
          releasing
            (after_call (λ found. expect found ride_not_found (accept_found env driver_id)) r) in
        InMode env k n inside rest ⊎ (Open env k n w × InMode env k n claimed rest)
  unfolding releasing expect
  read_decides driver_id w (err e) h = inl tt
  read_decides driver_id w (ok none) h = inl tt
  read_decides driver_id w (ok (some ride)) h =
      elim (Bool-cases (is_status ride.status requested)) [
        | inl yes' ↦ inr (
          (ride, h, ground arith),
          claimed_found driver_id ride (id-read_ride env L w.rides k ride h),
        )
        | inr no' ↦ inl (refused_found driver_id ride no')
      ]

  pub accept_out : (driver_id : String) → InMode env k n out (accept_ride_steps env k driver_id)
  unfolding accept_ride_steps get_ride_steps call releasing RideRepository.find_by_id
  accept_out driver_id = λ w _. read_decides driver_id w (read_ride env w.rides k) refl
