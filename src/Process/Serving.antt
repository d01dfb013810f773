-- ===== src/Process/Serving.antt =====
-- The process between the two halves of `lifespan` in src/ride_service/main.py.
use uber_clone_python.Base.{ℕ, ◌+◌, ⊤, String, ◌≡◌, refl, sym, ap, ◌∙◌, true, false, some, length}
use uber_clone_python.Exec.{
  redis_error, runtime_error, kafka_error, Result, ok, err, Exec, or_raise,
}
use uber_clone_python.Base.{◌<>◌}
use uber_clone_python.Config.{Settings}
use uber_clone_python.Dispatch.{ride_offer_channel_prefix}
use uber_clone_python.Objects.{object, alter-append_new}
use uber_clone_python.Process.{
  Client, redis_client, kafka_consumer, pub_sub, Process, Libraries, running_loop, connection,
}
use uber_clone_python.Process.Clients.{get_client}
use uber_clone_python.Process.Effects.{GetEffect, kept, made, DropEffect, idle, dropped}
use uber_clone_python.Process.Opening.{get_client-GetEffect}
use uber_clone_python.Process.Background.{
  servers_of, reach_kafka, subscribe, start_consumer, start_retry, start_listener,
}
use uber_clone_python.Process.Owned.{IsOwned, acquired-IsOwned}
use uber_clone_python.Process.Lifespan.{startup}
use uber_clone_python.Process.Startup.{
  Unfailed, with_consumer, with_consumer_task, with_retry_task, with_pubsub, with_offer_task,
}

-- On its loop, with an owner for all that is open, and no task has failed.
pub record IsServing (l : ℕ) (p : Process) : Type 0 where
  pub loop : p.loop ≡ some l
  pub owned : IsOwned p
  pub well : Unfailed p

-- The fields that a call of `get_client` or `dispose` leaves alone.
abbrev pub Frame : Process → Process → Type 0
Frame p q =
    (q.loop ≡ p.loop) × (q.tasks ≡ p.tasks) × (q.pubsub ≡ p.pubsub) × (q.offer_task ≡ p.offer_task)

pub acquired-Frame :
    (c : Client) (l : ℕ) (p : Process) (r : Result ℕ) (q : Process)
    → GetEffect c l p r q
    → Frame p q
acquired-Frame c l p r q (kept _ _ _ same _ _ _) = rw same (refl, refl, refl, refl)
acquired-Frame c l p r q (made _ _ _ same _ _ _) = rw same (refl, refl, refl, refl)

pub dropped-Frame : (c : Client) (p q : Process) → DropEffect c p q → Frame p q
dropped-Frame c p q (idle _ same _ _) = rw same (refl, refl, refl, refl)
dropped-Frame c p q (dropped _ _ _ _ _ same _) = rw same (refl, refl, refl, refl)

module _ (settings : Settings) (lib : Libraries) where
  pub acquired-IsServing :
      (c : Client) (l : ℕ) (p : Process)
      → IsServing l p
      → IsServing l (get_client settings lib c p).1
  acquired-IsServing c l p s =
      let q = (get_client settings lib c p).1 in
      let effect = get_client-GetEffect settings lib c l p s.loop in
      let (loop, tasks, _, _) = acquired-Frame c l p _ q effect in
      record {
        loop = loop ∙ s.loop;
        owned = acquired-IsOwned settings lib c l p _ q s.owned effect;
        well = λ n e h. s.well n e (ap (object n) (sym tasks) ∙ h);
      }

  -- The rest of a block, unless an exception skips it.
  abbrev pub followed :
      {A : Type 0} → (A → Exec Process ⊤) → Result A × Process → Result ⊤ × Process
  followed k m = elim m.0 [ ok a ↦ k a m.1 | err e ↦ (err e, m.1) ]

  pub on_loop : (l : ℕ) (p : Process) → p.loop ≡ some l → running_loop p ≡ (ok l, p)
  on_loop l p at = ap (λ o. or_raise o runtime_error p) at

  -- What starting the consumer does on a loop.
  abbrev pub consume_on : ℕ → Exec Process ⊤
  consume_on l p =
      let servers = servers_of settings lib p.consumer_servers in
      followed (λ _ q. (ok tt, with_consumer_task q))
        (reach_kafka settings lib (length p.connections) servers
          (with_consumer (connection kafka_consumer servers l false) p.attempts p))

  pub start_consumer_on :
      (l : ℕ) (p : Process) → p.loop ≡ some l → start_consumer settings lib p ≡ consume_on l p
  unfolding start_consumer
  start_consumer_on l p at = followed_loop p ∙ ap (followed consume_on) (on_loop l p at)
    where
      followed_loop :
          (p : Process) → start_consumer settings lib p ≡ followed consume_on (running_loop p)
      followed_loop p = refl

  pub consume_on_up :
      (l : ℕ) (p : Process) (servers : String)
      → servers_of settings lib p.consumer_servers ≡ servers
      → lib.kafka_answers p.attempts servers ≡ true
      → consume_on l p ≡ (
        ok tt,
        with_consumer_task
            (with_consumer (connection kafka_consumer servers l true) (p.attempts + 1) p),
      )
  unfolding reach_kafka
  consume_on_up l p servers these up = rw these (rw up (rw alter-append_new refl))

  pub consume_on_down :
      (l : ℕ) (p : Process) (servers : String)
      → servers_of settings lib p.consumer_servers ≡ servers
      → lib.kafka_answers p.attempts servers ≡ false
      → consume_on l p ≡ (
        err kafka_error,
        with_consumer (connection kafka_consumer servers l false) (p.attempts + 1) p,
      )
  unfolding reach_kafka
  consume_on_down l p servers these down = rw these (rw down refl)

  -- The listener's pattern.
  abbrev pub pattern_of : String
  pattern_of = ride_offer_channel_prefix <> "*"

  -- What `start` of the listener does on a loop when it has a client.
  abbrev pub listen_on : ℕ → Exec Process ⊤
  listen_on l p =
      followed (λ _ q. (ok tt, with_offer_task q))
        (subscribe settings lib (length p.connections) pattern_of
          (with_pubsub (connection pub_sub pattern_of l false) p.attempts p))

  pub listen_on_up :
      (l : ℕ) (p : Process)
      → lib.redis_answers p.attempts pattern_of ≡ true
      → listen_on l p ≡ (
        ok tt,
        with_offer_task (with_pubsub (connection pub_sub pattern_of l true) (p.attempts + 1) p),
      )
  unfolding subscribe
  listen_on_up l p up = rw up (rw alter-append_new refl)

  pub listen_on_down :
      (l : ℕ) (p : Process)
      → lib.redis_answers p.attempts pattern_of ≡ false
      → listen_on l p
        ≡ (err redis_error, with_pubsub (connection pub_sub pattern_of l false) (p.attempts + 1) p)
  unfolding subscribe
  listen_on_down l p down = rw down refl

  pub start_listener-followed :
      (p : Process)
      → start_listener settings lib p
        ≡ followed
            (λ _ q. followed listen_on (running_loop q))
            (get_client settings lib redis_client p)
  unfolding start_listener
  start_listener-followed p = refl

  pub startup-followed :
      (p : Process)
      → startup settings lib p
        ≡ followed
            (λ _ q. start_listener settings lib (with_retry_task q))
            (start_consumer settings lib p)
  unfolding startup start_retry
  startup-followed p = refl
