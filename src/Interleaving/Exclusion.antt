-- ===== src/Interleaving/Exclusion.antt =====
-- One step of one task: its mode, the world and the lock before and after.
use uber_clone_python.Base.{ℕ, ◌<◌, String, ◌≡◌, refl, ◌⊎◌, inl, inr, Bool, true, false, arith}
use uber_clone_python.Exec.{Result}
use uber_clone_python.Models.{Ride}
use uber_clone_python.Env.{Env, World}
use uber_clone_python.Interleaving.{Task}
use uber_clone_python.Interleaving.Schedule.{progress}
use uber_clone_python.Interleaving.Modes.{
  Mode, out, inside, claimed, winning, won, aside, aside_in, holds, claims, settled, is_aside, Open,
  Quiet, InMode,
}

-- Who claims the ride has the lock or has written the ride.
pub claims_cases : (m : Mode) → claims m ≡ true → (holds m ≡ true) ⊎ (settled m ≡ true)
claims_cases claimed h = inl refl
claims_cases winning h = inl refl
claims_cases won h = inr refl
claims_cases out h = cc
claims_cases inside h = cc
claims_cases aside h = cc
claims_cases aside_in h = cc

module _ (env : Env) (k : String) (n : ℕ) where
  -- What the step of one task in mode `m` does to its mode, the world and the lock.
  pub record Change (m m' : Mode) (w w' : World env) (l l' : Bool) : Type 0 where
    pub hold : holds m' ≡ true → ((holds m ≡ true) × (l' ≡ l)) ⊎ ((l ≡ false) × (l' ≡ true))
    pub unlock : l' ≡ false → (l ≡ false) ⊎ (holds m ≡ true)
    pub claim : claims m' ≡ true → (claims m ≡ true) ⊎ ((holds m ≡ true) × Open env k n w)
    pub settle : settled m' ≡ true → (settled m ≡ true) ⊎ (Open env k n w' → ⊥)
    pub calm : Open env k n w' → Open env k n w
    pub same_side : is_aside m' ≡ is_aside m
    pub drawn : n < w'.drawn

  -- The task after a step, and its mode.
  pub record Progress (m : Mode) (t : Task (World env) Ride) (w : World env) (l : Bool)
      : Type 0 where
    pub mode : Mode
    pub in_mode : InMode env k n mode (progress t w l).0
    pub quiet : Quiet env k n (progress t w l).0
    pub change : Change m mode w (progress t w l).1.0 l (progress t w l).1.1

  module _ (w : World env) (l : Bool) (d : n < w.drawn) where
    -- A step that keeps mode and lock.
    keeps :
        (m : Mode) (w' : World env)
        → n < w'.drawn
        → (Open env k n w' → Open env k n w)
        → Change m m w w' l l
    keeps m w' d' calm = record {
      hold = λ h. inl (h, refl);
      unlock = λ e. inl e;
      claim = λ h. inl h;
      settle = λ h. inl h;
      calm = calm;
      same_side = refl;
      drawn = d';
    }

    progress-done :
        (m : Mode) (r : Result Ride) → InMode env k n m (Task.done r) → Progress m (Task.done r) w l
    unfolding progress
    progress-done m r h = record {
      mode = m;
      in_mode = h;
      quiet = tt;
      change = keeps m w d (λ o. o);
    }

    -- A step that gives the lock back, and one that takes it.
    gives_back :
        (m m' : Mode)
        → holds m ≡ true
        → holds m' ≡ false
        → claims m' ≡ claims m
        → settled m' ≡ settled m
        → is_aside m' ≡ is_aside m
        → Change m m' w w l false
    gives_back m m' h h' c e a = record {
      hold = λ x. absurd (ground arith);
      unlock = λ _. inr h;
      claim = λ x. inl (ground arith);
      settle = λ x. inl (ground arith);
      calm = λ o. o;
      same_side = a;
      drawn = d;
    }

    gives_up :
        (m m' : Mode)
        → holds m ≡ true
        → holds m' ≡ false
        → claims m' ≡ false
        → settled m' ≡ false
        → is_aside m' ≡ is_aside m
        → Change m m' w w l false
    gives_up m m' h h' c e a = record {
      hold = λ x. absurd (ground arith);
      unlock = λ _. inr h;
      claim = λ x. absurd (ground arith);
      settle = λ x. absurd (ground arith);
      calm = λ o. o;
      same_side = a;
      drawn = d;
    }

    progress-release :
        (m : Mode) (t : Task (World env) Ride)
        → InMode env k n m (Task.release t)
        → Quiet env k n t
        → Progress m (Task.release t) w l
    unfolding progress
    progress-release inside t h q = record {
      mode = out;
      in_mode = h;
      quiet = q;
      change = gives_up inside out refl refl refl refl refl;
    }
    progress-release claimed t h q = record {
      mode = out;
      in_mode = h;
      quiet = q;
      change = gives_up claimed out refl refl refl refl refl;
    }
    progress-release winning t h q = record {
      mode = won;
      in_mode = h;
      quiet = q;
      change = gives_back winning won refl refl refl refl refl;
    }
    progress-release aside_in t h q = record {
      mode = aside;
      in_mode = h;
      quiet = q;
      change = gives_up aside_in aside refl refl refl refl refl;
    }
    progress-release out t h q = absurd h
    progress-release won t h q = absurd h
    progress-release aside t h q = absurd h

    module _ (g : World env → World env) (h : World env → Task (World env) Ride)
        (q : Quiet env k n (Task.step g h)) where
      same_mode : (m : Mode) → InMode env k n m (h w) → Progress m (Task.step g h) w l
      unfolding progress
      same_mode m i = record {
        mode = m;
        in_mode = i;
        quiet = (q w d).2;
        change = keeps m (g w) (q w d).0 (q w d).1;
      }

      progress-step : (m : Mode) → InMode env k n m (Task.step g h) → Progress m (Task.step g h) w l
      unfolding progress
      progress-step inside i = elim (i w d) [
        | inl stays ↦ same_mode inside stays
        | inr (requested_now, claims_it) ↦ record {
          mode = claimed;
          in_mode = claims_it;
          quiet = (q w d).2;
          change = record {
            hold = λ _. inl (refl, refl);
            unlock = λ e. inl e;
            claim = λ _. inr (refl, requested_now);
            settle = λ x. absurd (ground arith);
            calm = (q w d).1;
            same_side = refl;
            drawn = (q w d).0;
          };
        }
      ]
      progress-step claimed i = elim (i w d) [
        | inl stays ↦ same_mode claimed stays
        | inr (closed_now, wins) ↦ record {
          mode = winning;
          in_mode = wins;
          quiet = (q w d).2;
          change = record {
            hold = λ _. inl (refl, refl);
            unlock = λ e. inl e;
            claim = λ _. inl refl;
            settle = λ _. inr closed_now;
            calm = (q w d).1;
            same_side = refl;
            drawn = (q w d).0;
          };
        }
      ]
      progress-step winning i = same_mode winning (i w d)
      progress-step aside i = same_mode aside (i w d)
      progress-step aside_in i = same_mode aside_in (i w d)
      progress-step out i = absurd i
      progress-step won i = absurd i

  takes :
      (m m' : Mode) (w : World env)
      → n < w.drawn
      → holds m' ≡ true
      → claims m' ≡ false
      → settled m' ≡ false
      → is_aside m' ≡ is_aside m
      → Change m m' w w false true
  takes m m' w d h c e a = record {
    hold = λ _. inr (refl, refl);
    unlock = λ x. inl refl;
    claim = λ x. absurd (ground arith);
    settle = λ x. absurd (ground arith);
    calm = λ o. o;
    same_side = a;
    drawn = d;
  }

  progress-acquire :
      (m : Mode) (t : Task (World env) Ride) (w : World env) (l : Bool)
      → n < w.drawn
      → InMode env k n m (Task.acquire t)
      → Quiet env k n t
      → Progress m (Task.acquire t) w l
  unfolding progress
  progress-acquire m t w true d h q = record {
    mode = m;
    in_mode = h;
    quiet = q;
    change = keeps w true d m w d (λ o. o);
  }
  progress-acquire out t w false d h q = record {
    mode = inside;
    in_mode = h;
    quiet = q;
    change = takes out inside w d refl refl refl refl;
  }
  progress-acquire aside t w false d h q = record {
    mode = aside_in;
    in_mode = h;
    quiet = q;
    change = takes aside aside_in w d refl refl refl refl;
  }
  progress-acquire inside t w false d h q = absurd h
  progress-acquire claimed t w false d h q = absurd h
  progress-acquire winning t w false d h q = absurd h
  progress-acquire won t w false d h q = absurd h
  progress-acquire aside_in t w false d h q = absurd h

  -- Any task, in any mode.
  pub progresses :
      (m : Mode) (t : Task (World env) Ride) (w : World env) (l : Bool)
      → n < w.drawn
      → InMode env k n m t
      → Quiet env k n t
      → Progress m t w l
  progresses m (Task.done r) w l d i q = progress-done w l d m r i
  progresses m (Task.step g h) w l d i q = progress-step w l d g h q m i
  progresses m (Task.acquire t) w l d i q = progress-acquire m t w l d i q
  progresses m (Task.release t) w l d i q = progress-release w l d m t i q
