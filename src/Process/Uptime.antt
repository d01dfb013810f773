-- ===== src/Process/Uptime.antt =====
-- The whole of `lifespan` in src/ride_service/main.py, with what happens while it waits.
use uber_clone_python.Base.{
  ⊤, ℕ, ◌≡◌, refl, sym, ap, ◌∙◌, ◌≢◌, inl, inr, Option, some, List, [], ◌∷◌, arith,
}
use uber_clone_python.Exec.{Result, Error, ok, err}
use mathlib.Core.Path.{subst}
use uber_clone_python.Config.{Settings}
use uber_clone_python.Objects.{object, alter, object-alter_cases}
use uber_clone_python.Process.{Client, TaskState, running, ended, stopped, Process, Libraries}
use uber_clone_python.Process.Clients.{get_client, dispose}
use uber_clone_python.Process.Effects.{dispose-DropEffect}
use uber_clone_python.Process.Opening.{get_client-GetEffect}
use uber_clone_python.Process.Bound.{at_loop}
use uber_clone_python.Process.Owned.{Named-same, IsOwned, acquired-IsOwned, dropped-IsOwned}
use uber_clone_python.Process.Lifespan.{startup, shutdown, lifespan}
use uber_clone_python.Process.Shutdown.{IsReleased, Nameless, shutdown-IsReleased}
use uber_clone_python.Process.Background.{use_session}
use uber_clone_python.Process.Pools.{use_session-IsOwned}
use uber_clone_python.Process.Starting.{startup-IsServing}
use uber_clone_python.Process.Serving.{IsServing, acquired-Frame, dropped-Frame, followed}

-- What may happen while the application serves: a client is got or disposed of on a loop, a
-- session is used, and a background task returns.
pub data Event : Type 0 where
  got : ℕ → Client → Event
  queried : Event
  disposed : ℕ → Client → Event
  returned : ℕ → Event

abbrev finish : TaskState → TaskState
finish running = ended (ok tt)
finish s = s

finish-running : (s : TaskState) → finish s ≢ running
finish-running running h = absurd (ground arith)
finish-running (ended r) h = absurd (ground arith)
finish-running stopped h = absurd (ground arith)

finish_failed : (s : TaskState) (e : Error) → finish s ≡ ended (err e) → s ≡ ended (err e)
finish_failed running e h = absurd (ground arith)
finish_failed (ended r) e h = h
finish_failed stopped e h = absurd (ground arith)

relooped-IsOwned : (o : Option ℕ) (p : Process) → IsOwned p → IsOwned (at_loop o p)
relooped-IsOwned o p owned = record {
  tasks = owned.tasks;
  pools = owned.pools;
  factory = owned.factory;
  connections = λ n k h is_open.
      Named-same p (at_loop o p) n k.kind k.loop (λ d. refl) refl refl
        (owned.connections n k h is_open);
}

finished-IsServing :
    (l n : ℕ) (p : Process)
    → IsServing l p
    → IsServing l (record p { tasks = alter n finish p.tasks })
finished-IsServing l n p s = record {
  loop = s.loop;
  owned = record {
    tasks = λ m h. elim (object-alter_cases n m finish p.tasks running h) [
      | inl (_, old) ↦ s.owned.tasks m old
      | inr (was, _, _, is) ↦ absurd (finish-running was (sym is))
    ];
    pools = s.owned.pools;
    factory = s.owned.factory;
    connections = λ m k h is_open.
        Named-same p (record p { tasks = alter n finish p.tasks }) m k.kind k.loop (λ d. refl) refl
          refl (s.owned.connections m k h is_open);
  };
  well = λ m e h. elim (object-alter_cases n m finish p.tasks (ended (err e)) h) [
    | inl (_, old) ↦ s.well m e old
    | inr (was, same, there, is) ↦ s.well n e (there ∙ ap some (finish_failed was e (sym is)))
  ];
}

module _ (settings : Settings) (lib : Libraries) where
  -- On the loop of the event and back.
  abbrev pub happen : Event → Process → Process
  happen (got j c) p = at_loop p.loop (get_client settings lib c (at_loop (some j) p)).1
  happen (disposed j c) p = at_loop p.loop (dispose settings lib c (at_loop (some j) p))
  happen queried p = (use_session settings lib p).1
  happen (returned n) p = record p { tasks = alter n finish p.tasks }

  abbrev pub happen_all : List Event → Process → Process
  happen_all [] p = p
  happen_all (e ∷ es) p = happen_all es (happen e p)

  happen-IsServing : (l : ℕ) (e : Event) (p : Process) → IsServing l p → IsServing l (happen e p)
  happen-IsServing l (returned n) p s = finished-IsServing l n p s
  happen-IsServing l queried p s =
      let (es, name, same, owned) = use_session-IsOwned settings lib p s.owned in
      subst (λ (m : Result ⊤ × Process). IsServing l m.1) (sym same)
        (record { loop = s.loop; owned = owned; well = s.well })
  happen-IsServing l (got j c) p s =
      let p1 = at_loop (some j) p in
      let m = get_client settings lib c p1 in
      let effect = get_client-GetEffect settings lib c j p1 refl in
      let (_, tasks, _, _) = acquired-Frame c j p1 m.0 m.1 effect in
      record {
        loop = s.loop;
        owned = relooped-IsOwned p.loop m.1 (
            acquired-IsOwned settings lib c j p1 m.0 m.1 (relooped-IsOwned (some j) p s.owned)
              effect);
        well = λ n e h. s.well n e (ap (object n) (sym tasks) ∙ h);
      }
  happen-IsServing l (disposed j c) p s =
      let p1 = at_loop (some j) p in
      let q = dispose settings lib c p1 in
      let effect = dispose-DropEffect settings lib c p1 in
      let (_, tasks, _, _) = dropped-Frame c p1 q effect in
      record {
        loop = s.loop;
        owned =
            relooped-IsOwned p.loop q
              (dropped-IsOwned settings lib c p1 q (relooped-IsOwned (some j) p s.owned) effect);
        well = λ n e h. s.well n e (ap (object n) (sym tasks) ∙ h);
      }

  happen_all-IsServing :
      (l : ℕ) (es : List Event) (p : Process) → IsServing l p → IsServing l (happen_all es p)
  happen_all-IsServing l [] p s = s
  happen_all-IsServing l (e ∷ es) p s =
      happen_all-IsServing l es (happen e p) (happen-IsServing l e p s)

  lifespan-followed :
      (served : Process → Process) (p : Process)
      → lifespan settings lib served p
        ≡ followed settings lib (λ _ q. shutdown settings lib (served q)) (startup settings lib p)
  unfolding lifespan
  lifespan-followed served p = refl

  -- For a process on an event loop with an owner for all that runs, is open or is pooled, no
  -- failed task and no consumer, subscription or background task yet: if the start of the
  -- application succeeds, and while it serves clients are got and disposed of on any loops,
  -- sessions of the database are used, and background tasks return, then the whole of the
  -- lifespan ends without an exception, and after it no task runs, no engine's pool holds a
  -- connection, and a client, consumer or subscription that is still open is a limiter's storage
  -- or a client of another loop.
  pub lifespan-IsReleased :
      (l : ℕ) (es : List Event) (p : Process)
      → IsServing l p
      → Nameless p
      → (startup settings lib p).0 ≡ ok tt
      → ((lifespan settings lib (happen_all es) p).0 ≡ ok tt)
        × IsReleased l (lifespan settings lib (happen_all es) p).1
  lifespan-IsReleased l es p s nameless started =
      let q = (startup settings lib p).1 in
      let served = happen_all-IsServing l es q (startup-IsServing settings lib l p s nameless) in
      let r = happen_all es q in
      let whole : lifespan settings lib (happen_all es) p ≡ shutdown settings lib r =
        lifespan-followed (happen_all es) p
        ∙ ap (λ x. followed settings lib (λ _ q. shutdown settings lib (happen_all es q)) (x, q))
            started in
      subst (λ x. (x.0 ≡ ok tt) × IsReleased l x.1) (sym whole)
        (shutdown-IsReleased settings lib l r served.owned served.loop (λ n e _. served.well n e)
          (λ n e _. served.well n e) (λ n e _. served.well n e))
