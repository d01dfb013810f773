-- ===== src/Process/Stops.antt =====
-- The `stop` functions of src/ride_service/kafka_consumer.py, stale_ride_retry.py and
-- ride_offer_listener.py as changes of the process.
use uber_clone_python.Base.{
  ℕ, ⊤, ◌≡◌, refl, sym, ap, ◌∙◌, ◌≢◌, inl, inr, true, Option, none, some, List, arith, Option-cases,
}
use uber_clone_python.Exec.{Error, Result, ok, err}
use uber_clone_python.Config.{Settings}
use uber_clone_python.Objects.{object, alter, object-alter_cases}
use uber_clone_python.Process.{
  Connection, TaskState, running, ended, stopped, Process, Libraries, shut,
}
use uber_clone_python.Process.Background.{
  cancel, awaited, uncancelled, cancelled_in, closed_in, stop_task, stop_listener, stop_retry,
  stop_consumer,
}

-- A task has not ended with an exception.
abbrev pub Healthy : Option ℕ → Process → Type 0
Healthy t p = (n : ℕ) (e : Error) → t ≡ some n → object n p.tasks ≢ some (ended (err e))

cancel-running : (s : TaskState) → cancel s ≢ running
cancel-running running h = absurd (ground arith)
cancel-running (ended r) h = absurd (ground arith)
cancel-running stopped h = absurd (ground arith)

cancel_ended : (s : TaskState) (r : Result ⊤) → cancel s ≡ ended r → s ≡ ended r
cancel_ended running r h = absurd (ground arith)
cancel_ended (ended q) r h = h
cancel_ended stopped r h = absurd (ground arith)

-- A task that runs after a cancellation ran before, and is another one.
pub running-cancelled_in :
    (t : Option ℕ) (n : ℕ) (ts : List TaskState)
    → object n (cancelled_in t ts) ≡ some running
    → (t ≢ some n) × (object n ts ≡ some running)
running-cancelled_in none n ts h = (λ same. absurd (ground arith), h)
running-cancelled_in (some m) n ts h = elim (object-alter_cases m n cancel ts running h) [
  | inl (apart, old) ↦ (λ same. apart (ground arith), old)
  | inr (s, _, _, is) ↦ absurd (cancel-running s (sym is))
]

pub ended-cancelled_in :
    (t : Option ℕ) (n : ℕ) (ts : List TaskState) (r : Result ⊤)
    → object n (cancelled_in t ts) ≡ some (ended r)
    → object n ts ≡ some (ended r)
ended-cancelled_in none n ts r h = h
ended-cancelled_in (some m) n ts r h = elim (object-alter_cases m n cancel ts (ended r) h) [
  | inl (apart, old) ↦ old
  | inr (s, same, was, is) ↦
      ap (λ k. object k ts) (sym same) ∙ was ∙ ap some (cancel_ended s r (sym is))
]

pub open-closed_in :
    (o : Option ℕ) (n : ℕ) (cs : List Connection) (k : Connection)
    → object n (closed_in o cs) ≡ some k
    → k.is_open ≡ true
    → (o ≢ some n) × (object n cs ≡ some k)
open-closed_in none n cs k h is_open = (λ same. absurd (ground arith), h)
open-closed_in (some m) n cs k h is_open = elim (object-alter_cases m n shut cs k h) [
  | inl (apart, old) ↦ (λ same. apart (ground arith), old)
  | inr (c, _, _, is) ↦ absurd (ground (arith, ap (λ (x : Connection). x.is_open) is))
]

pub cancelled-Healthy :
    (t u : Option ℕ) (p : Process)
    → Healthy t p
    → Healthy t (record p { tasks = cancelled_in u p.tasks })
cancelled-Healthy t u p well n e same h = well n e same (ended-cancelled_in u n p.tasks (err e) h)

-- The wait for a task that was cancelled.
wait_over :
    (s : TaskState)
    → ((e : Error) → s ≢ ended (err e))
    → uncancelled (awaited (some (cancel s))) ≡ ok tt
wait_over running h = refl
wait_over (ended (ok x)) h = refl
wait_over (ended (err e)) h = absurd (h e refl)
wait_over stopped h = refl

pub stop_task_well :
    (t : Option ℕ) (p : Process)
    → Healthy t p
    → stop_task t p ≡ (ok tt, record p { tasks = cancelled_in t p.tasks })
unfolding stop_task
stop_task_well none p well = refl
stop_task_well (some n) p well =
    ap (λ r. (r, record p { tasks = cancelled_in (some n) p.tasks }))
      (elim (Option-cases (object n (alter n cancel p.tasks))) [
        | inl gone ↦ ap (λ o. uncancelled (awaited o)) gone
        | inr (s, there) ↦
            ap (λ o. uncancelled (awaited o)) there
            ∙ elim (object-alter_cases n n cancel p.tasks s there) [
              | inl (apart, _) ↦ absurd (apart refl)
              | inr (was, _, old, is) ↦
                  ap (λ x. uncancelled (awaited (some x))) is
                  ∙ wait_over was (λ e same. well n e refl (old ∙ ap some same))
            ]
      ])

-- What the three `stop` functions leave.
abbrev pub without_listener : Process → Process
without_listener p = record p {
  tasks = cancelled_in p.offer_task p.tasks;
  offer_task = none;
  connections = closed_in p.pubsub p.connections;
  pubsub = none;
}

abbrev pub without_retry : Process → Process
without_retry p = record p { tasks = cancelled_in p.retry_task p.tasks; retry_task = none }

abbrev pub without_consumer : Process → Process
without_consumer p = record p {
  tasks = cancelled_in p.consumer_task p.tasks;
  consumer_task = none;
  connections = closed_in p.consumer p.connections;
  consumer = none;
}

-- What follows the wait, which an exception skips.
abbrev pub and_then : (Process → Process) → Result ⊤ × Process → Result ⊤ × Process
and_then f m = elim m.0 [ ok _ ↦ (ok tt, f m.1) | err e ↦ (err e, m.1) ]

abbrev pub forget_listener : Process → Process
forget_listener p = record p {
  offer_task = none;
  connections = closed_in p.pubsub p.connections;
  pubsub = none;
}

abbrev pub forget_consumer : Process → Process
forget_consumer p = record p {
  consumer_task = none;
  connections = closed_in p.consumer p.connections;
  consumer = none;
}

module _ (settings : Settings) (lib : Libraries) where
  pub stop_listener-and_then :
      (p : Process)
      → stop_listener settings lib p ≡ and_then forget_listener (stop_task p.offer_task p)
  unfolding stop_listener
  stop_listener-and_then p = refl

  pub stop_retry-and_then :
      (p : Process)
      → stop_retry settings lib p
        ≡ and_then (λ q. record q { retry_task = none }) (stop_task p.retry_task p)
  unfolding stop_retry
  stop_retry-and_then p = refl

  pub stop_consumer-and_then :
      (p : Process)
      → stop_consumer settings lib p ≡ and_then forget_consumer (stop_task p.consumer_task p)
  unfolding stop_consumer
  stop_consumer-and_then p = refl

  pub stop_listener_well :
      (p : Process)
      → Healthy p.offer_task p
      → stop_listener settings lib p ≡ (ok tt, without_listener p)
  stop_listener_well p well =
      stop_listener-and_then p ∙ ap (and_then forget_listener) (stop_task_well p.offer_task p well)

  pub stop_retry_well :
      (p : Process) → Healthy p.retry_task p → stop_retry settings lib p ≡ (ok tt, without_retry p)
  stop_retry_well p well =
      stop_retry-and_then p
      ∙ ap (and_then (λ q. record q { retry_task = none })) (stop_task_well p.retry_task p well)

  pub stop_consumer_well :
      (p : Process)
      → Healthy p.consumer_task p
      → stop_consumer settings lib p ≡ (ok tt, without_consumer p)
  stop_consumer_well p well =
      stop_consumer-and_then p
      ∙ ap (and_then forget_consumer) (stop_task_well p.consumer_task p well)
