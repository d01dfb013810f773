-- ===== src/Interleaving/OneWinner.antt =====
-- Calls of the methods at the same time, and the acceptance of one ride among them.
use uber_clone_python.Base.{
  ℕ, ◌<◌, String, ◌==◌, eq_iff, eq_refl, ◌≡◌, refl, sym, ◌≢◌, inl, inr, Bool, false, List, arith,
  if◌then◌else◌, Bool-cases,
}
use uber_clone_python.Exec.{ok}
use uber_clone_python.Models.{Ride}
use uber_clone_python.Env.{Env, World}
use uber_clone_python.Env.Laws.{IsLawful}
use uber_clone_python.Interleaving.{
  Task, get_ride_steps, accept_found, accept_ride_steps, Call, request, accept, start, complete,
  cancel, task_of,
}
use uber_clone_python.Interleaving.Schedule.{Office, Tick, work}
use uber_clone_python.Interleaving.Modes.{Mode, holds, claims, settled, out, aside, Quiet, InMode}
use uber_clone_python.Interleaving.Calls.{
  Calm, Calm-Quiet, Calm-aside, Quiet-releasing, aside_in-releasing, get_ride_steps-Calm,
}
use uber_clone_python.Interleaving.Winner.{IsFair, work-IsFair, one_winner}
use uber_clone_python.Interleaving.Methods.{
  accept_found-Calm, start_ride_steps-Calm, complete_ride_steps-Calm, cancel_ride_steps-Calm,
  request_ride_steps-Calm,
}
use uber_clone_python.Interleaving.Acceptance.{accept_out}
use mathlib.Core.Path.{subst}

-- The calls start together, and the lock is free.
abbrev pub opening : (env : Env) → (ℕ → Call env) → World env → Office env
opening env calls w = record { tasks = λ i. task_of env (calls i); world = w; locked = false }

module _ (env : Env) (L : IsLawful env) (k : String) (n : ℕ) (at : k ≡ env.uuid n) where
  accept_body-Calm :
      (ride_id driver_id : String)
      → Calm env k n (get_ride_steps env ride_id (accept_found env driver_id))
  accept_body-Calm ride_id driver_id =
      get_ride_steps-Calm env k n L ride_id _ (accept_found-Calm env L k n at driver_id)

  call-Quiet : (c : Call env) → Quiet env k n (task_of env c)
  unfolding task_of accept_ride_steps
  call-Quiet (request rider_id a b c d) =
      Calm-Quiet env k n _ (request_ride_steps-Calm env L k n at rider_id a b c d)
  call-Quiet (accept ride_id driver_id) =
      Quiet-releasing env k n _ (accept_body-Calm ride_id driver_id)
  call-Quiet (start ride_id driver_id) =
      Calm-Quiet env k n _ (start_ride_steps-Calm env L k n at ride_id driver_id)
  call-Quiet (complete ride_id driver_id) =
      Calm-Quiet env k n _ (complete_ride_steps-Calm env L k n at ride_id driver_id)
  call-Quiet (cancel ride_id user_id) =
      Calm-Quiet env k n _ (cancel_ride_steps-Calm env L k n at ride_id user_id)

  -- Of a call, whether it accepts the ride, and how its task starts.
  abbrev accepts : Call env → Bool
  accepts (accept ride_id driver_id) = ride_id == k
  accepts _ = false

  abbrev start_mode : Call env → Mode
  start_mode c = if accepts c then out else aside

  call_mode : (c : Call env) → InMode env k n (start_mode c) (task_of env c)
  unfolding task_of accept_ride_steps
  call_mode (request rider_id a b c d) =
      Calm-aside env k n _ (request_ride_steps-Calm env L k n at rider_id a b c d)
  call_mode (accept ride_id driver_id) = elim (Bool-cases (ride_id == k)) [
    | inl same ↦ rw same (
        subst (λ id. InMode env k n out (accept_ride_steps env id driver_id))
          (sym ((eq_iff ride_id k).0 same)) (accept_out env L k n driver_id))
    | inr other ↦ rw other (aside_in-releasing env k n _ (accept_body-Calm ride_id driver_id))
  ]
  call_mode (start ride_id driver_id) =
      Calm-aside env k n _ (start_ride_steps-Calm env L k n at ride_id driver_id)
  call_mode (complete ride_id driver_id) =
      Calm-aside env k n _ (complete_ride_steps-Calm env L k n at ride_id driver_id)
  call_mode (cancel ride_id user_id) =
      Calm-aside env k n _ (cancel_ride_steps-Calm env L k n at ride_id user_id)

  starts_free :
      (c : Call env)
      → (holds (start_mode c) ≡ false)
        × (claims (start_mode c) ≡ false)
        × (settled (start_mode c) ≡ false)
  starts_free c = elim (Bool-cases (accepts c)) [
    | inl h ↦ rw h (refl, refl, refl)
    | inr h ↦ rw h (refl, refl, refl)
  ]

  opening-IsFair :
      (calls : ℕ → Call env) (w : World env)
      → n < w.drawn
      → IsFair env k n (λ i. accepts (calls i)) (opening env calls w)
  opening-IsFair calls w d = record {
    drawn = d;
    quiet = λ i. call-Quiet (calls i);
    mode = λ i. start_mode (calls i);
    in_mode = λ i. call_mode (calls i);
    side = λ i h. rw h refl;
    locked = λ i h. absurd (ground (arith, starts_free (calls i)));
    holder = λ i j h _. absurd (ground (arith, starts_free (calls i)));
    claimer = λ i j h _. absurd (ground (arith, starts_free (calls i)));
    closed = λ i h. absurd (ground (arith, starts_free (calls i)));
  }

  -- In a lawful environment, whatever calls run at the same time and in whatever order their
  -- steps are taken: if two of them accept the same ride, whose id was drawn before they began,
  -- and one has ended with success, the other has not.
  pub work-accept_once :
      (calls : ℕ → Call env) (w : World env)
      → n < w.drawn
      → (ticks : List (Tick env)) → (i j : ℕ) (d e : String) → i ≢ j
      → calls i ≡ accept k d
      → calls j ≡ accept k e
      → (r : Ride) → (work ticks (opening env calls w)).tasks i ≡ Task.done (ok r)
      → (s : Ride) → (work ticks (opening env calls w)).tasks j ≢ Task.done (ok s)
  work-accept_once calls w lt ticks i j d e apart ci cj r ti s tj =
      let ours : ℕ → Bool = λ m. accepts (calls m) in
      let fair = work-IsFair env k n ours ticks (opening env calls w) (opening-IsFair calls w lt) in
      apart (
        one_winner env k n ours (work ticks (opening env calls w)) fair i j r s (rw ci (eq_refl k))
          (rw cj (eq_refl k)) ti tj)
