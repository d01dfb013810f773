-- ===== src/Interleaving/Modes.antt =====
-- What is known of a task about one ride, from the code that is left of it.
use uber_clone_python.Base.{ℕ, ◌<◌, ⊤, String, ◌≡◌, ◌⊎◌, Bool, true, false, some}
use uber_clone_python.Exec.{ok, err}
use uber_clone_python.Models.{requested, Ride}
use uber_clone_python.Env.{Env, World}
use uber_clone_python.Repositories.Ride.{read_ride}
use uber_clone_python.Interleaving.{Task}

-- Where a task is: before and after the lock (`out`), with the lock (`inside`), with the lock and
-- the ride read as requested (`claimed`), with the ride written (`winning`), and after that (`won`);
-- `aside` and `aside_in` are tasks that do not accept this ride, without and with the lock.
pub data Mode : Type 0 where
  out inside claimed winning won aside aside_in : Mode

abbrev pub holds : Mode → Bool
holds inside = true
holds claimed = true
holds winning = true
holds aside_in = true
holds _ = false

abbrev pub claims : Mode → Bool
claims claimed = true
claims winning = true
claims won = true
claims _ = false

abbrev pub settled : Mode → Bool
settled winning = true
settled won = true
settled _ = false

abbrev pub is_aside : Mode → Bool
is_aside aside = true
is_aside aside_in = true
is_aside _ = false

module _ (env : Env) (k : String) (n : ℕ) where
  -- The ride shows, and is requested.
  abbrev pub Open : World env → Type 0
  Open w = (r : Ride) × (read_ride env w.rides k ≡ ok (some r)) × (r.status ≡ requested)

  -- No step that is left of the task opens the ride, and each keeps more than `n` uuids drawn.
  abbrev pub Quiet : Task (World env) Ride → Type 0
  Quiet (Task.done r) = ⊤
  Quiet (Task.step g h) =
      (w : World env) → n < w.drawn → (n < (g w).drawn) × (Open (g w) → Open w) × Quiet (h w)
  Quiet (Task.acquire t) = Quiet t
  Quiet (Task.release t) = Quiet t

  abbrev pub InMode : Mode → Task (World env) Ride → Type 0
  InMode out (Task.done (ok _)) = ⊥
  InMode out (Task.done (err _)) = ⊤
  InMode out (Task.acquire t) = InMode inside t
  InMode out _ = ⊥
  InMode inside (Task.step g h) =
      (w : World env) → n < w.drawn → InMode inside (h w) ⊎ (Open w × InMode claimed (h w))
  InMode inside (Task.release t) = InMode out t
  InMode inside _ = ⊥
  InMode claimed (Task.step g h) =
      (w : World env)
      → n < w.drawn
      → InMode claimed (h w) ⊎ ((Open (g w) → ⊥) × InMode winning (h w))
  InMode claimed (Task.release t) = InMode out t
  InMode claimed _ = ⊥
  InMode winning (Task.step g h) = (w : World env) → n < w.drawn → InMode winning (h w)
  InMode winning (Task.release t) = InMode won t
  InMode winning _ = ⊥
  InMode won (Task.done _) = ⊤
  InMode won _ = ⊥
  InMode aside (Task.done _) = ⊤
  InMode aside (Task.step g h) = (w : World env) → n < w.drawn → InMode aside (h w)
  InMode aside (Task.acquire t) = InMode aside_in t
  InMode aside (Task.release _) = ⊥
  InMode aside_in (Task.step g h) = (w : World env) → n < w.drawn → InMode aside_in (h w)
  InMode aside_in (Task.release t) = InMode aside t
  InMode aside_in _ = ⊥
