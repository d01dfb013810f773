-- ===== src/Interleaving/Winner.antt =====
-- What is known of all tasks together, step by step.
use uber_clone_python.Base.{
  ℕ, ◌<◌, String, ◌≡◌, refl, sym, ◌∙◌, ◌≢◌, ◌⊎◌, inl, inr, Bool, true, false, List, [], ◌∷◌, arith,
  eqb, Bool-cases,
}
use uber_clone_python.Exec.{ok}
use uber_clone_python.Models.{Ride}
use uber_clone_python.Env.{Env}
use uber_clone_python.Interleaving.{Task}
use uber_clone_python.Interleaving.Schedule.{
  Office, Tick, go_on, elsewhere, update, progress, tick, work,
}
use uber_clone_python.Interleaving.Modes.{
  Mode, out, inside, claimed, winning, won, aside, aside_in, holds, claims, settled, is_aside, Open,
  Quiet, InMode,
}
use mathlib.Core.Path.{subst}
use uber_clone_python.Interleaving.Exclusion.{claims_cases, Progress, progresses}

-- Of two families changed at one place, what holds there and what held elsewhere.
pick :
    {S T : Type 0} (P : S → T → Type 0) (f : ℕ → S) (g : ℕ → T) (i j : ℕ) (s : S) (t : T)
    → P s t
    → P (f j) (g j)
    → P (update f i s j) (update g i t j)
pick P f g i j s t new old = elim (Bool-cases (eqb i j)) [
  | inl here ↦ rw here new
  | inr there ↦ rw there old
]

update_cases :
    (f : ℕ → Mode) (i j : ℕ) (m : Mode)
    → ((i ≡ j) × (update f i m j ≡ m)) ⊎ ((i ≢ j) × (update f i m j ≡ f j))
update_cases f i j m = elim (Bool-cases (eqb i j)) [
  | inl here ↦ inl (ground arith, ground arith)
  | inr there ↦ inr (ground arith, ground arith)
]

module _ (env : Env) (k : String) (n : ℕ) where
  -- What is known of all tasks; `ours i` says that task `i` accepts this ride.
  pub record IsFair (ours : ℕ → Bool) (o : Office env) : Type 0 where
    pub drawn : n < o.world.drawn
    pub quiet : (i : ℕ) → Quiet env k n (o.tasks i)
    pub mode : ℕ → Mode
    pub in_mode : (i : ℕ) → InMode env k n (mode i) (o.tasks i)
    pub side : (i : ℕ) → ours i ≡ true → is_aside (mode i) ≡ false
    pub locked : (i : ℕ) → holds (mode i) ≡ true → o.locked ≡ true
    pub holder : (i j : ℕ) → holds (mode i) ≡ true → holds (mode j) ≡ true → i ≡ j
    pub claimer : (i j : ℕ) → claims (mode i) ≡ true → claims (mode j) ≡ true → i ≡ j
    pub closed : (i : ℕ) → settled (mode i) ≡ true → Open env k n o.world → ⊥

  module _ (ours : ℕ → Bool) (o : Office env) (f : IsFair ours o) (i : ℕ) where
    abbrev p : Progress env k n (f.mode i) (o.tasks i) o.world o.locked
    p = progresses env k n (f.mode i) (o.tasks i) o.world o.locked f.drawn (f.in_mode i) (f.quiet i)

    abbrev after : Office env
    after = tick (go_on i) o

    abbrev modes : ℕ → Mode
    modes = update f.mode i p.mode

    after_side : (j : ℕ) → ours j ≡ true → is_aside (modes j) ≡ false
    after_side j h = elim (update_cases f.mode i j p.mode) [
      | inl (here, e) ↦ rw (e, p.change.same_side) (f.side i (rw here h))
      | inr (_, e) ↦ rw e (f.side j h)
    ]

    -- While another task has the lock, it stays taken.
    still_locked : (j : ℕ) → i ≢ j → holds (f.mode j) ≡ true → after.locked ≡ true
    unfolding tick
    still_locked j apart h = elim (Bool-cases (progress (o.tasks i) o.world o.locked).1.1) [
      | inl taken ↦ taken
      | inr free ↦ elim (p.change.unlock free) [
        | inl was_free ↦ absurd (ground (arith, f.locked j h))
        | inr held ↦ absurd (apart (f.holder i j held h))
      ]
    ]

    after_locked : (j : ℕ) → holds (modes j) ≡ true → after.locked ≡ true
    unfolding tick
    after_locked j h = elim (update_cases f.mode i j p.mode) [
      | inl (here, e) ↦ elim (p.change.hold (rw e at h)) [
        | inl (held, same) ↦ same ∙ f.locked i held
        | inr (_, taken) ↦ taken
      ]
      | inr (apart, e) ↦ still_locked j apart (rw e at h)
    ]

    -- No task but the one that moved can hold or claim beside it.
    only_holder : (j : ℕ) → holds p.mode ≡ true → holds (f.mode j) ≡ true → i ≡ j
    only_holder j h hj = elim (p.change.hold h) [
      | inl (held, _) ↦ f.holder i j held hj
      | inr (was_free, _) ↦ absurd (ground (arith, f.locked j hj))
    ]

    only_claimer : (j : ℕ) → claims p.mode ≡ true → claims (f.mode j) ≡ true → i ≡ j
    only_claimer j h hj = elim (p.change.claim h) [
      | inl claimed_before ↦ f.claimer i j claimed_before hj
      | inr (held, requested_now) ↦ elim (claims_cases (f.mode j) hj) [
        | inl holds_it ↦ f.holder i j held holds_it
        | inr settled_it ↦ absurd (f.closed j settled_it requested_now)
      ]
    ]

    module _ (P : Mode → Bool) (old : (a b : ℕ) → P (f.mode a) ≡ true → P (f.mode b) ≡ true → a ≡ b)
        (only : (j : ℕ) → P p.mode ≡ true → P (f.mode j) ≡ true → i ≡ j) where
      at_most_one : (a b : ℕ) → P (modes a) ≡ true → P (modes b) ≡ true → a ≡ b
      at_most_one a b ha hb = elim (update_cases f.mode i a p.mode) [
        | inl (a_moved, ea) ↦ elim (update_cases f.mode i b p.mode) [
          | inl (b_moved, _) ↦ sym a_moved ∙ b_moved
          | inr (_, eb) ↦ sym a_moved ∙ only b (rw ea at ha) (rw eb at hb)
        ]
        | inr (_, ea) ↦ elim (update_cases f.mode i b p.mode) [
          | inl (b_moved, eb) ↦ sym (only a (rw eb at hb) (rw ea at ha)) ∙ b_moved
          | inr (_, eb) ↦ old a b (rw ea at ha) (rw eb at hb)
        ]
      ]

    after_closed : (j : ℕ) → settled (modes j) ≡ true → Open env k n after.world → ⊥
    unfolding tick
    after_closed j h open_now = elim (update_cases f.mode i j p.mode) [
      | inl (here, e) ↦ elim (p.change.settle (rw e at h)) [
        | inl before ↦ f.closed i before (p.change.calm open_now)
        | inr closed_now ↦ closed_now open_now
      ]
      | inr (_, e) ↦ f.closed j (rw e at h) (p.change.calm open_now)
    ]

    go_on-IsFair : IsFair ours after
    unfolding tick
    go_on-IsFair = record {
      drawn = p.change.drawn;
      quiet = λ j.
          pick (λ (m : Mode) t. Quiet env k n t) f.mode o.tasks i j p.mode
            (progress (o.tasks i) o.world o.locked).0 p.quiet (f.quiet j);
      mode = modes;
      in_mode = λ j.
          pick (λ m t. InMode env k n m t) f.mode o.tasks i j p.mode
            (progress (o.tasks i) o.world o.locked).0 p.in_mode (f.in_mode j);
      side = after_side;
      locked = after_locked;
      holder = at_most_one holds f.holder only_holder;
      claimer = at_most_one claims f.claimer only_claimer;
      closed = after_closed;
    }

  tick-IsFair :
      (ours : ℕ → Bool) (o : Office env) (t : Tick env) → IsFair ours o → IsFair ours (tick t o)
  unfolding tick
  tick-IsFair ours o (go_on i) f = go_on-IsFair ours o f i
  tick-IsFair ours o (elsewhere g same more) f = record {
    drawn = omega (arith, f.drawn, more o.world);
    quiet = f.quiet;
    mode = f.mode;
    in_mode = f.in_mode;
    side = f.side;
    locked = f.locked;
    holder = f.holder;
    claimer = f.claimer;
    closed = λ i h (r, shows, status). f.closed i h (r, (rw (same o.world) at shows), status);
  }

  pub work-IsFair :
      (ours : ℕ → Bool) (ts : List (Tick env)) (o : Office env)
      → IsFair ours o
      → IsFair ours (work ts o)
  unfolding work
  work-IsFair ours [] o f = f
  work-IsFair ours (t ∷ ts) o f = work-IsFair ours ts (tick t o) (tick-IsFair ours o t f)

  ended_well :
      (m : Mode) (r : Ride)
      → InMode env k n m (Task.done (ok r))
      → is_aside m ≡ false
      → claims m ≡ true
  ended_well won r h a = refl
  ended_well out r h a = absurd h
  ended_well inside r h a = absurd h
  ended_well claimed r h a = absurd h
  ended_well winning r h a = absurd h
  ended_well aside r h a = cc
  ended_well aside_in r h a = cc

  -- Of our tasks, at most one has ended well.
  pub one_winner :
      (ours : ℕ → Bool) (o : Office env)
      → IsFair ours o
      → (i j : ℕ) (r s : Ride) → ours i ≡ true
      → ours j ≡ true
      → o.tasks i ≡ Task.done (ok r)
      → o.tasks j ≡ Task.done (ok s)
      → i ≡ j
  one_winner ours o f i j r s oi oj ti tj =
      f.claimer i j
        (ended_well (f.mode i) r (subst (InMode env k n (f.mode i)) ti (f.in_mode i)) (f.side i oi))
        (ended_well (f.mode j) s (subst (InMode env k n (f.mode j)) tj (f.in_mode j)) (f.side j oj))
