-- ===== src/Interleaving/Schedule.antt =====
-- Tasks that share the world and the lock, in any order of their steps.
use uber_clone_python.Base.{ℕ, ◌≤◌, ◌≡◌, Bool, true, false, List, [], ◌∷◌, eqb, if◌then◌else◌}
use uber_clone_python.Models.{Ride}
use uber_clone_python.Env.{Env, World}
use uber_clone_python.Interleaving.{Task}

-- The tasks by number, the world that they share, and whether the lock is taken.
pub record Office (env : Env) : Type 0 where
  pub tasks : ℕ → Task (World env) Ride
  pub world : World env
  pub locked : Bool

-- One event: task `i` goes on, or something else happens that leaves the rides as they are.
pub data Tick (env : Env) : Type 0 where
  go_on : ℕ → Tick env
  elsewhere :
      (f : World env → World env)
      → ((w : World env) → (f w).rides ≡ w.rides)
      → ((w : World env) → w.drawn ≤ (f w).drawn)
      → Tick env

abbrev pub update : {T : Type 0} → (ℕ → T) → ℕ → T → ℕ → T
update f i t j = if eqb i j then t else f j

module _ {env : Env} where
  -- The next step of a task. One that waits for the lock stays where it is.
  unfoldable pub progress :
      Task (World env) Ride → World env → Bool → Task (World env) Ride × (World env × Bool)
  progress (Task.done r) w locked = (Task.done r, (w, locked))
  progress (Task.step g k) w locked = (k w, (g w, locked))
  progress (Task.acquire t) w true = (Task.acquire t, (w, true))
  progress (Task.acquire t) w false = (t, (w, true))
  progress (Task.release t) w locked = (t, (w, false))

  unfoldable pub tick : Tick env → Office env → Office env
  tick (go_on i) o =
      let next = progress (o.tasks i) o.world o.locked in
      record { tasks = update o.tasks i next.0; world = next.1.0; locked = next.1.1 }
  tick (elsewhere f _ _) o = record o { world = f o.world }

  unfoldable pub work : List (Tick env) → Office env → Office env
  work [] o = o
  work (t ∷ ts) o = work ts (tick t o)
