-- ===== src/Interleaving/Locking.antt =====
-- Which parts of the methods use the lock, and that each gives back what it takes.
use uber_clone_python.Base.{⊤, String, ◌≡◌, refl, Bool, true, false, Option, none, some}
use uber_clone_python.Exec.{Error, Result, ok, err, Exec}
use uber_clone_python.Models.{Float, Ride}
use uber_clone_python.Env.{Env, World}
use uber_clone_python.Kafka.{publish_ride_requested, publish_ride_accepted, publish_ride_cancelled}
use uber_clone_python.Services.Ride.{ride_not_found}
use uber_clone_python.Interleaving.{
  Task, after_call, call, refuse_if, expect, releasing, note_availability, mark_steps,
  save_and_publish, get_ride_steps, request_ride_steps, accept_found, accept_ride_steps,
  start_ride_steps, complete_ride_steps, free_driver_steps, cancel_ride_steps, Call, request,
  accept, start, complete, cancel, task_of,
}

module _ {env : Env} where
  -- A task that leaves the lock alone.
  abbrev pub Unlocked : Task (World env) Ride → Type 0
  Unlocked (Task.done r) = ⊤
  Unlocked (Task.step g k) = (w : World env) → Unlocked (k w)
  Unlocked (Task.acquire t) = ⊥
  Unlocked (Task.release t) = ⊥

  -- A task that is outside or inside, takes the lock only outside, gives it back only inside, and
  -- ends outside.
  abbrev pub Balanced : Bool → Task (World env) Ride → Type 0
  Balanced b (Task.done r) = b ≡ false
  Balanced b (Task.step g k) = (w : World env) → Balanced b (k w)
  Balanced b (Task.acquire t) = (b ≡ false) × Balanced true t
  Balanced b (Task.release t) = (b ≡ true) × Balanced false t

  Unlocked-Balanced : (t : Task (World env) Ride) → Unlocked t → Balanced false t
  Unlocked-Balanced (Task.done r) u = refl
  Unlocked-Balanced (Task.step g k) u = λ w. Unlocked-Balanced (k w) (u w)
  Unlocked-Balanced (Task.acquire t) u = absurd u
  Unlocked-Balanced (Task.release t) u = absurd u

  pub Balanced-releasing : (t : Task (World env) Ride) → Unlocked t → Balanced true (releasing t)
  unfolding releasing
  Balanced-releasing (Task.done r) u = (refl, refl)
  Balanced-releasing (Task.step g k) u = λ w. Balanced-releasing (k w) (u w)
  Balanced-releasing (Task.acquire t) u = absurd u
  Balanced-releasing (Task.release t) u = absurd u

  Unlocked-after_call :
      {A : Type 0} (k : A → Task (World env) Ride) (r : Result A)
      → ((a : A) → Unlocked (k a))
      → Unlocked (after_call k r)
  Unlocked-after_call k (ok a) u = u a
  Unlocked-after_call k (err e) u = tt

  pub Unlocked-call :
      {A : Type 0} (m : Exec (World env) A) (k : A → Task (World env) Ride)
      → ((a : A) → Unlocked (k a))
      → Unlocked (call m k)
  unfolding call
  Unlocked-call m k u = λ w. Unlocked-after_call k (m w).0 u

  Unlocked-refuse_if :
      (b : Bool) (e : Error) (t : Task (World env) Ride) → Unlocked t → Unlocked (refuse_if b e t)
  unfolding refuse_if
  Unlocked-refuse_if true e t u = tt
  Unlocked-refuse_if false e t u = u

  Unlocked-expect :
      {A : Type 0} (o : Option A) (e : Error) (k : A → Task (World env) Ride)
      → ((a : A) → Unlocked (k a))
      → Unlocked (expect o e k)
  unfolding expect
  Unlocked-expect none e k u = tt
  Unlocked-expect (some a) e k u = u a

module _ (env : Env) where
  Unlocked-get_ride_steps :
      (ride_id : String) (rest : Ride → Task (World env) Ride)
      → ((ride : Ride) → Unlocked (rest ride))
      → Unlocked (get_ride_steps env ride_id rest)
  unfolding get_ride_steps
  Unlocked-get_ride_steps ride_id rest u =
      Unlocked-call _ _ λ found. Unlocked-expect found ride_not_found rest u

  Unlocked-mark_steps :
      (b : Bool) (user_id : String) (rest : Task (World env) Ride)
      → Unlocked rest
      → Unlocked (mark_steps env b user_id rest)
  unfolding mark_steps
  Unlocked-mark_steps b user_id rest u = Unlocked-call _ _ λ found.
      Unlocked-expect found _ _
        λ d. Unlocked-call _ _ λ saved. Unlocked-call (note_availability env _) _ λ done. u

  pub Unlocked-save_and_publish :
      (ride : Ride) (publish : String → Exec (World env) ⊤)
      → Unlocked (save_and_publish env ride publish)
  unfolding save_and_publish
  Unlocked-save_and_publish ride publish = Unlocked-call _ _ λ saved. Unlocked-call _ _ λ sent. tt

  pub Unlocked-accept_found :
      (driver_id : String) (ride : Ride) → Unlocked (accept_found env driver_id ride)
  unfolding accept_found
  Unlocked-accept_found driver_id ride = Unlocked-refuse_if _ _ _ (
      Unlocked-call _ _ λ found. Unlocked-expect found _ _ λ d. Unlocked-refuse_if _ _ _ (
        Unlocked-mark_steps false driver_id _
          (Unlocked-save_and_publish _ (publish_ride_accepted env))))

  pub Unlocked-request_ride_steps :
      (rider_id : String) (a b c d : Float) → Unlocked (request_ride_steps env rider_id a b c d)
  unfolding request_ride_steps
  Unlocked-request_ride_steps rider_id a b c d = Unlocked-call _ _ λ active.
      Unlocked-refuse_if _ _ _ (
        Unlocked-call _ _ λ ride.
          Unlocked-call _ _ λ fare. Unlocked-save_and_publish _ (publish_ride_requested env))

  Unlocked-start_ride_steps :
      (ride_id driver_id : String) → Unlocked (start_ride_steps env ride_id driver_id)
  unfolding start_ride_steps
  Unlocked-start_ride_steps ride_id driver_id =
      Unlocked-get_ride_steps ride_id _
        λ ride. Unlocked-refuse_if _ _ _ (Unlocked-refuse_if _ _ _ (Unlocked-call _ _ λ saved. tt))

  Unlocked-complete_ride_steps :
      (ride_id driver_id : String) → Unlocked (complete_ride_steps env ride_id driver_id)
  unfolding complete_ride_steps
  Unlocked-complete_ride_steps ride_id driver_id = Unlocked-get_ride_steps ride_id _ λ ride.
      Unlocked-refuse_if _ _ _ (
        Unlocked-refuse_if _ _ _ (
          Unlocked-call _ _ λ now.
            Unlocked-call _ _
              λ saved. Unlocked-mark_steps true driver_id _ (Unlocked-call _ _ λ sent. tt)))

  Unlocked-free_driver_steps :
      (driver_id : Option String) (rest : Task (World env) Ride)
      → Unlocked rest
      → Unlocked (free_driver_steps env driver_id rest)
  unfolding free_driver_steps
  Unlocked-free_driver_steps none rest u = u
  Unlocked-free_driver_steps (some driver_id) rest u = Unlocked-mark_steps true driver_id rest u

  pub Unlocked-cancel_ride_steps :
      (ride_id user_id : String) → Unlocked (cancel_ride_steps env ride_id user_id)
  unfolding cancel_ride_steps
  Unlocked-cancel_ride_steps ride_id user_id = Unlocked-get_ride_steps ride_id _ λ ride.
      Unlocked-refuse_if _ _ _ (
        Unlocked-refuse_if _ _ _ (
          Unlocked-free_driver_steps ride.driver_id _
            (Unlocked-save_and_publish _ (publish_ride_cancelled env))))

  pub Balanced-task_of : (c : Call env) → Balanced false (task_of env c)
  unfolding task_of accept_ride_steps
  Balanced-task_of (request rider_id a b c d) =
      Unlocked-Balanced _ (Unlocked-request_ride_steps rider_id a b c d)
  Balanced-task_of (accept ride_id driver_id) = (
    refl,
    Balanced-releasing _ (
        Unlocked-get_ride_steps ride_id (accept_found env driver_id)
          (Unlocked-accept_found driver_id)),
  )
  Balanced-task_of (start ride_id driver_id) =
      Unlocked-Balanced _ (Unlocked-start_ride_steps ride_id driver_id)
  Balanced-task_of (complete ride_id driver_id) =
      Unlocked-Balanced _ (Unlocked-complete_ride_steps ride_id driver_id)
  Balanced-task_of (cancel ride_id user_id) =
      Unlocked-Balanced _ (Unlocked-cancel_ride_steps ride_id user_id)
