-- ===== src/Process/Dead.antt =====
-- The end of `lifespan` in src/ride_service/main.py when a background task has failed.
use uber_clone_python.Base.{ℕ, ⊤, ◌≡◌, refl, ap, ◌∙◌, ◌≢◌, Option, none, some}
use uber_clone_python.Exec.{
  Error, http, integrity_error, value_error, decimal_error, redis_error, key_error, runtime_error,
  kafka_error, unicode_error, cancelled_error, assertion_error, multiple_results_found, Result, ok,
  err,
}
use uber_clone_python.Config.{Settings}
use uber_clone_python.Objects.{object, alter_same, object-alter_ne}
use uber_clone_python.Process.{ended, Process, Libraries}
use uber_clone_python.Process.Background.{
  cancel, awaited, uncancelled, cancelled_in, stop_task, stop_retry, stop_consumer,
}
use uber_clone_python.Process.Stops.{
  Healthy, and_then, without_listener, stop_listener_well, stop_retry-and_then,
}
use uber_clone_python.Process.Lifespan.{shutdown}
use uber_clone_python.Process.Shutdown.{put_away, next, shutdown-next}

module _ (settings : Settings) (lib : Libraries) where
  uncancelled_other : (e : Error) → e ≢ cancelled_error → uncancelled (err e) ≡ err e
  uncancelled_other (http n s) other = refl
  uncancelled_other integrity_error other = refl
  uncancelled_other value_error other = refl
  uncancelled_other decimal_error other = refl
  uncancelled_other redis_error other = refl
  uncancelled_other key_error other = refl
  uncancelled_other runtime_error other = refl
  uncancelled_other kafka_error other = refl
  uncancelled_other unicode_error other = refl
  uncancelled_other cancelled_error other = absurd (other refl)
  uncancelled_other assertion_error other = refl
  uncancelled_other multiple_results_found other = refl

  stop_task_ended :
      (t : ℕ) (e : Error) (p : Process)
      → object t p.tasks ≡ some (ended (err e))
      → e ≢ cancelled_error
      → stop_task (some t) p ≡ (err e, p)
  unfolding stop_task
  stop_task_ended t e p was other =
      ap (λ ts. (uncancelled (awaited (object t ts)), record p { tasks = ts }))
        (alter_same t cancel p.tasks _ was refl)
      ∙ ap (λ r. (r, p)) (ap (λ o. uncancelled (awaited o)) was ∙ uncancelled_other e other)

  -- If the retry task has ended with an exception other than a cancellation, and the task of the
  -- listener has not failed, then the shutdown stops the listener, raises that exception, and
  -- does nothing more: the consumer, the clients and the engine's pool stay as they are.
  pub shutdown_cut :
      (t : ℕ) (e : Error) (p : Process)
      → p.retry_task ≡ some t
      → object t p.tasks ≡ some (ended (err e))
      → e ≢ cancelled_error
      → Healthy p.offer_task p
      → shutdown settings lib p ≡ (err e, without_listener p)
  shutdown_cut t e p named was other offer =
      let p1 = without_listener p in
      let last =
        λ (m : Result ⊤ × Process). next settings lib (λ s. (ok tt, put_away settings lib s)) m in
      let k = next settings lib (λ r. last (stop_consumer settings lib r)) in
      let was1 : object t p1.tasks ≡ some (ended (err e)) = untouched p.offer_task offer was in
      shutdown-next settings lib p
      ∙ ap (next settings lib (λ q. k (stop_retry settings lib q)))
          (stop_listener_well settings lib p offer)
      ∙ ap k (stop_retry-and_then settings lib p1)
      ∙ ap (λ o. k (and_then (λ q. record q { retry_task = none }) (stop_task o p1))) named
      ∙ ap (λ m. k (and_then (λ q. record q { retry_task = none }) m))
          (stop_task_ended t e p1 was1 other)
    where
      untouched :
          (o : Option ℕ)
          → Healthy o p
          → object t p.tasks ≡ some (ended (err e))
          → object t (cancelled_in o p.tasks) ≡ some (ended (err e))
      untouched none well was = was
      untouched (some n) well was =
          object-alter_ne n t cancel p.tasks
            (λ same. well n e refl (ap (λ k. object k p.tasks) same ∙ was))
          ∙ was
