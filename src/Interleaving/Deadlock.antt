-- ===== src/Interleaving/Deadlock.antt =====
-- Whether tasks that share the lock can go on.
use uber_clone_python.Base.{
  ℕ, ◌≡◌, refl, sym, ap, ◌∙◌, ◌≢◌, inl, inr, Bool, true, false, List, [], ◌∷◌, ◌++◌, arith, eqb,
  Bool-cases,
}
use uber_clone_python.Exec.{Result}
use uber_clone_python.Models.{Ride}
use uber_clone_python.Env.{Env, World}
use uber_clone_python.Interleaving.{Task, Call}
use uber_clone_python.Interleaving.Schedule.{
  Office, Tick, go_on, elsewhere, update, progress, tick, work,
}
use mathlib.Core.Path.{subst}
use uber_clone_python.Interleaving.Locking.{Balanced, Balanced-task_of}
use uber_clone_python.Interleaving.OneWinner.{opening}
use uber_clone_python.Interleaving.Completion.{
  finish_balanced, work-append, update_same, update_other,
}

module _ {env : Env} where
  -- The lock is free and every task outside, or one task is inside and has the lock.
  pub data Orderly (o : Office env) : Type 0 where
    all_outside : o.locked ≡ false → ((i : ℕ) → Balanced false (o.tasks i)) → Orderly o
    one_inside :
        (j : ℕ)
        → o.locked ≡ true
        → Balanced true (o.tasks j)
        → ((i : ℕ) → j ≢ i → Balanced false (o.tasks i))
        → Orderly o

  progress_free :
      (t : Task (World env) Ride) (w : World env)
      → Balanced false t
      → let next = progress t w false in Balanced next.1.1 next.0
  unfolding progress
  progress_free (Task.done r) w h = h
  progress_free (Task.step g k) w h = h w
  progress_free (Task.acquire t) w h = h.1
  progress_free (Task.release t) w h = absurd (ground arith)

  progress_inside :
      (t : Task (World env) Ride) (w : World env)
      → Balanced true t
      → let next = progress t w true in Balanced next.1.1 next.0
  unfolding progress
  progress_inside (Task.done r) w h = h
  progress_inside (Task.step g k) w h = h w
  progress_inside (Task.acquire t) w h = absurd (ground arith)
  progress_inside (Task.release t) w h = h.1

  progress_beside :
      (t : Task (World env) Ride) (w : World env)
      → Balanced false t
      → let next = progress t w true in (next.1.1 ≡ true) × Balanced false next.0
  unfolding progress
  progress_beside (Task.done r) w h = (refl, h)
  progress_beside (Task.step g k) w h = (refl, h w)
  progress_beside (Task.acquire t) w h = (refl, h)
  progress_beside (Task.release t) w h = absurd (ground arith)

  -- The lock after the step of the one task that may be inside.
  settled_by :
      (i : ℕ) (b : Bool) (o : Office env)
      → o.locked ≡ b
      → Balanced b (o.tasks i)
      → ((j : ℕ) → i ≢ j → Balanced false (o.tasks j))
      → Orderly o
  settled_by i true o l h others = one_inside i l h others
  settled_by i false o l h others = all_outside l λ j. elim (Bool-cases (eqb i j)) [
    | inl here ↦ subst (λ m. Balanced false (o.tasks m)) (ground arith) h
    | inr there ↦ others j (ground arith)
  ]

  -- The office after a step of task `i`, when the others stay outside.
  abbrev moved : ℕ → Office env → Task (World env) Ride × (World env × Bool) → Office env
  moved i o next = record { tasks = update o.tasks i next.0; world = next.1.0; locked = next.1.1 }

  moved-Orderly :
      (i : ℕ) (o : Office env) (next : Task (World env) Ride × (World env × Bool))
      → Balanced next.1.1 next.0
      → ((j : ℕ) → i ≢ j → Balanced false (o.tasks j))
      → Orderly (moved i o next)
  moved-Orderly i o next h others =
      settled_by i next.1.1 (moved i o next) refl
        (subst (Balanced next.1.1) (sym (update_same o.tasks i next.0)) h)
        (λ j ne. subst (Balanced false) (sym (update_other o.tasks i j next.0 ne)) (others j ne))

  -- A task beside the one inside moves.
  beside-Orderly :
      (i j : ℕ) (o : Office env) (next : Task (World env) Ride × (World env × Bool))
      → i ≢ j
      → (next.1.1 ≡ true) × Balanced false next.0
      → Balanced true (o.tasks j)
      → ((m : ℕ) → j ≢ m → Balanced false (o.tasks m))
      → Orderly (moved i o next)
  beside-Orderly i j o next ne (l, u) h others =
      one_inside j l (subst (Balanced true) (sym (update_other o.tasks i j next.0 ne)) h) λ m apart.
        elim (Bool-cases (eqb i m)) [ inl here ↦ rw here u | inr there ↦ rw there (others m apart) ]

  tick-Orderly : (t : Tick env) (o : Office env) → Orderly o → Orderly (tick t o)
  unfolding tick
  tick-Orderly (elsewhere f keeps more) o (all_outside l h) = all_outside l h
  tick-Orderly (elsewhere f keeps more) o (one_inside j l h others) = one_inside j l h others
  tick-Orderly (go_on i) o (all_outside l h) = rw l (
      moved-Orderly i o (progress (o.tasks i) o.world false)
        (progress_free (o.tasks i) o.world (h i)) (λ j ne. h j))
  tick-Orderly (go_on i) o (one_inside j l h others) = elim (Bool-cases (eqb i j)) [
    | inl here ↦
        let same : j ≡ i = ground arith in
        rw l (
          moved-Orderly i o (progress (o.tasks i) o.world true)
            (progress_inside (o.tasks i) o.world (subst (λ m. Balanced true (o.tasks m)) same h))
            (λ m ne. others m (λ e. ne (sym same ∙ e))))
    | inr there ↦
        let ne : i ≢ j = ground arith in
        rw l (
          beside-Orderly i j o (progress (o.tasks i) o.world true) ne
            (progress_beside (o.tasks i) o.world (others i (λ e. ne (sym e)))) h others)
  ]

  work-Orderly : (ts : List (Tick env)) (o : Office env) → Orderly o → Orderly (work ts o)
  unfolding work
  work-Orderly [] o h = h
  work-Orderly (t ∷ ts) o h = work-Orderly ts (tick t o) (tick-Orderly t o h)

  opening-Orderly : (calls : ℕ → Call env) (w : World env) → Orderly (opening env calls w)
  opening-Orderly calls w = all_outside refl (λ i. Balanced-task_of env (calls i))

  -- From an orderly office any task can be brought to its end.
  Orderly-ends :
      (o : Office env) (i : ℕ)
      → Orderly o
      → (more : List (Tick env)) × (r : Result Ride) × ((work more o).tasks i ≡ Task.done r)
  Orderly-ends o i (all_outside l h) =
      let f = finish_balanced i false (o.tasks i) o refl (h i) l in (f.ticks, _, f.ends)
  Orderly-ends o i (one_inside j l h others) =
      let f = finish_balanced j true (o.tasks j) o refl h l in
      elim (Bool-cases (eqb j i)) [
        | inl here ↦
            let same : i ≡ j = ground arith in (f.ticks, _, ap (work f.ticks o).tasks same ∙ f.ends)
        | inr there ↦
            let ne : j ≢ i = ground arith in
            let kept = f.others i ne in
            let g =
              finish_balanced i false (o.tasks i) (work f.ticks o) kept (others i ne) f.locked in
            (
              f.ticks ++ g.ticks,
              _,
              ap (λ (x : Office env). x.tasks i) (work-append f.ticks g.ticks o) ∙ g.ends,
            )
      ]

  -- Whatever calls run at the same time, and whatever steps they have taken so far, for each call
  -- there are further steps after which it has ended: the lock around acceptance blocks no call
  -- for good.
  pub work_ends :
      (calls : ℕ → Call env) (w : World env) (ticks : List (Tick env)) (i : ℕ)
      → (more : List (Tick env)) × (r : Result Ride) × ((work
              (ticks ++ more)
              (opening env calls w)).tasks
            i
          ≡ Task.done r)
  work_ends calls w ticks i =
      let start = opening env calls w in
      let (more, r, ends) =
        Orderly-ends (work ticks start) i (work-Orderly ticks start (opening-Orderly calls w)) in
      (more, r, ap (λ (x : Office env). x.tasks i) (work-append ticks more start) ∙ ends)
