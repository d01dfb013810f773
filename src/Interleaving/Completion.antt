-- ===== src/Interleaving/Completion.antt =====
-- Ticks that bring one task to its end while the others wait.
use uber_clone_python.Base.{
  ℕ, ◌≡◌, refl, sym, ap, ◌∙◌, ◌≢◌, Bool, true, false, List, [], ◌∷◌, ◌++◌, arith,
}
use uber_clone_python.Exec.{Result}
use uber_clone_python.Models.{Ride}
use uber_clone_python.Env.{Env, World}
use uber_clone_python.Interleaving.{Task, run_alone}
use uber_clone_python.Interleaving.Schedule.{Office, Tick, go_on, update, progress, tick, work}
use uber_clone_python.Interleaving.Locking.{Unlocked, Balanced}

pub update_other : {T : Type 0} (f : ℕ → T) (i j : ℕ) (t : T) → i ≢ j → update f i t j ≡ f j
update_other f i j t ne = ground arith

pub update_same : {T : Type 0} (f : ℕ → T) (i : ℕ) (t : T) → update f i t i ≡ t
update_same f i t = ground arith

module _ {env : Env} where
  -- Ticks after which task `i` has ended with what it makes alone, no other task has moved, and
  -- the lock is taken or not.
  pub record Finish (b : Bool) (i : ℕ) (t : Task (World env) Ride) (o : Office env) : Type 0 where
    pub ticks : List (Tick env)
    pub ends : (work ticks o).tasks i ≡ Task.done (run_alone t o.world).0
    pub world : (work ticks o).world ≡ (run_alone t o.world).1
    pub locked : (work ticks o).locked ≡ b
    pub others : (j : ℕ) → i ≢ j → (work ticks o).tasks j ≡ o.tasks j

  pub work-append :
      (ts us : List (Tick env)) (o : Office env) → work (ts ++ us) o ≡ work us (work ts o)
  unfolding work
  work-append [] us o = refl
  work-append (t ∷ ts) us o = work-append ts us (tick t o)

  -- One tick of a task, and the rest of its way.
  finish_next :
      (i : ℕ) (t u : Task (World env) Ride) (w : World env) (b : Bool) (o : Office env) (c : Bool)
      → o.tasks i ≡ t
      → progress t o.world o.locked ≡ (u, (w, b))
      → run_alone t o.world ≡ run_alone u w
      → Finish c i u (record { tasks = update o.tasks i u; world = w; locked = b })
      → Finish c i t o
  unfolding work tick
  finish_next i t u w b o c at next same f =
      let moved : tick (go_on i) o ≡ record { tasks = update o.tasks i u; world = w; locked = b } =
        unfold tick in rw at (rw next refl) in
      let run : work (go_on i ∷ f.ticks) o
          ≡ work f.ticks (record { tasks = update o.tasks i u; world = w; locked = b }) =
        ap (work f.ticks) moved in
      record {
        ticks = go_on i ∷ f.ticks;
        ends = ap (λ (x : Office env). x.tasks i) run ∙ f.ends ∙ ap (λ r. Task.done r.0) (sym same);
        world = ap (λ (x : Office env). x.world) run ∙ f.world ∙ ap (λ r. r.1) (sym same);
        locked = ap (λ (x : Office env). x.locked) run ∙ f.locked;
        others = λ j ne.
            ap (λ (x : Office env). x.tasks j) run ∙ f.others j ne ∙ update_other o.tasks i j u ne;
      }

  -- A task that leaves the lock alone ends, whoever holds the lock.
  pub finish_unlocked :
      (i : ℕ) (t : Task (World env) Ride) (o : Office env)
      → o.tasks i ≡ t
      → Unlocked t
      → Finish o.locked i t o
  unfolding run_alone progress work
  finish_unlocked i (Task.done r) o at u = record {
    ticks = [];
    ends = at;
    world = refl;
    locked = refl;
    others = λ j ne. refl;
  }
  finish_unlocked i (Task.step g k) o at u =
      let next : Office env = record {
        tasks = update o.tasks i (k o.world);
        world = g o.world;
        locked = o.locked;
      } in
      finish_next i (Task.step g k) (k o.world) (g o.world) o.locked o o.locked at refl refl
        (finish_unlocked i (k o.world) next (update_same o.tasks i (k o.world)) (u o.world))
  finish_unlocked i (Task.acquire t) o at u = absurd u
  finish_unlocked i (Task.release t) o at u = absurd u

  -- A task ends when the lock is its own, or is free and the task is outside; then the lock is free.
  pub finish_balanced :
      (i : ℕ) (b : Bool) (t : Task (World env) Ride) (o : Office env)
      → o.tasks i ≡ t
      → Balanced b t
      → o.locked ≡ b
      → Finish false i t o
  unfolding run_alone progress work
  finish_balanced i b (Task.done r) o at h l = record {
    ticks = [];
    ends = at;
    world = refl;
    locked = l ∙ h;
    others = λ j ne. refl;
  }
  finish_balanced i b (Task.step g k) o at h l =
      let next : Office env = record {
        tasks = update o.tasks i (k o.world);
        world = g o.world;
        locked = o.locked;
      } in
      finish_next i (Task.step g k) (k o.world) (g o.world) o.locked o false at refl refl
        (finish_balanced i b (k o.world) next (update_same o.tasks i (k o.world)) (h o.world) l)
  finish_balanced i b (Task.acquire t) o at (outside, h) l =
      let next : Office env = record {
        tasks = update o.tasks i t;
        world = o.world;
        locked = true;
      } in
      finish_next i (Task.acquire t) t o.world true o false at (rw (l ∙ outside) refl) refl
        (finish_balanced i true t next (update_same o.tasks i t) h refl)
  finish_balanced i b (Task.release t) o at (inside, h) l =
      let next : Office env = record {
        tasks = update o.tasks i t;
        world = o.world;
        locked = false;
      } in
      finish_next i (Task.release t) t o.world false o false at refl refl
        (finish_balanced i false t next (update_same o.tasks i t) h refl)

  -- Ticks after which tasks 0 and 1 have ended with two results and left a world.
  pub record Nested (o : Office env) (x y : Result Ride) (w : World env) : Type 0 where
    pub ticks : List (Tick env)
    pub outer : (work ticks o).tasks 0 ≡ Task.done x
    pub inner : (work ticks o).tasks 1 ≡ Task.done y
    pub world : (work ticks o).world ≡ w

  -- Task 1 ends before task 0 goes on.
  pub nested :
      (first second : Task (World env) Ride) (o : Office env) (c : Bool) (x y : Result Ride)
      (w w' : World env)
      → o.tasks 0 ≡ first
      → o.tasks 1 ≡ second
      → Unlocked second
      → ((p : Office env) → p.tasks 0 ≡ first → p.locked ≡ o.locked → Finish c 0 first p)
      → run_alone second o.world ≡ (y, w)
      → run_alone first w ≡ (x, w')
      → Nested o x y w'
  nested first second o c x y w w' at0 at1 free rest second_runs first_runs =
      let f = finish_unlocked 1 second o at1 free in
      let p = work f.ticks o in
      let g = rest p (f.others 0 (λ e. absurd (omega (arith, e))) ∙ at0) f.locked in
      let split = work-append f.ticks g.ticks o in
      let there : p.world ≡ w = f.world ∙ ap (λ r. r.1) second_runs in
      let runs : run_alone first p.world ≡ (x, w') = rw there first_runs in
      record {
        ticks = f.ticks ++ g.ticks;
        outer = ap (λ (q : Office env). q.tasks 0) split ∙ g.ends ∙ ap (λ r. Task.done r.0) runs;
        inner =
            ap (λ (q : Office env). q.tasks 1) split
            ∙ g.others 1 (λ e. absurd (omega (arith, e)))
            ∙ f.ends
            ∙ ap (λ r. Task.done r.0) second_runs;
        world = ap (λ (q : Office env). q.world) split ∙ g.world ∙ ap (λ r. r.1) runs;
      }
