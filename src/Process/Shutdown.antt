-- ===== src/Process/Shutdown.antt =====
-- What `lifespan` of src/ride_service/main.py leaves when the application stops.
use uber_clone_python.Base.{
  ℕ, ⊤, ◌≡◌, refl, sym, ap, ◌∙◌, ◌≢◌, ◌⊎◌, inl, inr, true, none, some, arith,
}
use uber_clone_python.Exec.{Result, ok, err, Exec}
use mathlib.Core.Path.{subst}
use uber_clone_python.Config.{Settings}
use uber_clone_python.Objects.{object, get}
use uber_clone_python.Process.{
  Client, redis_client, limit_strategy, kafka_producer, Kind, client, kafka_consumer, pub_sub,
  Connection, running, Process, Libraries,
}
use uber_clone_python.Process.Clients.{dispose}
use uber_clone_python.Process.Effects.{
  clients_of, DropEffect, idle, dropped, dispose-DropEffect, same_client_refl,
}
use uber_clone_python.Process.Background.{stop_listener, stop_retry, stop_consumer, dispose_engine}
use uber_clone_python.Process.Owned.{Named, IsOwned, dropped-IsOwned}
use uber_clone_python.Process.Stops.{
  Healthy, without_listener, without_retry, without_consumer, stop_listener_well, stop_retry_well,
  stop_consumer_well, cancelled-Healthy,
}
use uber_clone_python.Process.Disowned.{without_consumer-IsOwned}
use uber_clone_python.Process.Disowned.{without_retry-IsOwned}
use uber_clone_python.Process.Disowned.{without_listener-IsOwned}
use uber_clone_python.Process.Pools.{AllEmpty, engines-IsOwned, dispose_engine-AllEmpty}
use uber_clone_python.Process.Lifespan.{shutdown}

-- Nothing runs, nothing is open but limiter storages and the clients of other loops, and no pool
-- holds a connection.
pub record IsReleased (l : ℕ) (p : Process) : Type 0 where
  pub tasks : (n : ℕ) → object n p.tasks ≢ some running
  pub connections :
      (n : ℕ) (k : Connection)
      → object n p.connections ≡ some k
      → k.is_open ≡ true
      → (k.kind ≡ client limit_strategy) ⊎ ((c : Client) × (k.kind ≡ client c) × (k.loop ≢ l))
  pub pools : AllEmpty p.engines

-- No task, consumer or subscription has a name.
abbrev pub Nameless : Process → Type 0
Nameless p =
    (p.consumer_task ≡ none)
    × (p.retry_task ≡ none)
    × (p.offer_task ≡ none)
    × (p.consumer ≡ none)
    × (p.pubsub ≡ none)

owned-IsReleased :
    (l : ℕ) (p : Process)
    → IsOwned p
    → Nameless p
    → get l (clients_of p redis_client) ≡ none
    → get l (clients_of p kafka_producer) ≡ none
    → AllEmpty p.engines
    → IsReleased l p
owned-IsReleased l p o (one, two, three, four, five) no_redis no_kafka empty = record {
  pools = empty;
  tasks = λ n h. elim (o.tasks n h) [
    | inl a ↦ absurd (ground arith)
    | inr (inl b) ↦ absurd (ground arith)
    | inr (inr c) ↦ absurd (ground arith)
  ];
  connections = λ n k h is_open.
      by_kind p l n k.kind k.loop four five no_redis no_kafka (o.connections n k h is_open);
}
  where
    by_kind :
        (p : Process) (l n : ℕ) (k : Kind) (j : ℕ)
        → p.consumer ≡ none
        → p.pubsub ≡ none
        → get l (clients_of p redis_client) ≡ none
        → get l (clients_of p kafka_producer) ≡ none
        → Named p n k j
        → (k ≡ client limit_strategy) ⊎ ((c : Client) × (k ≡ client c) × (j ≢ l))
    by_kind p l n (client limit_strategy) j four five no_redis no_kafka h = inl refl
    by_kind p l n (client redis_client) j four five no_redis no_kafka h = inr (
      redis_client,
      refl,
      λ same. absurd (ground (arith, ap (λ x. get x (clients_of p redis_client)) same)),
    )
    by_kind p l n (client kafka_producer) j four five no_redis no_kafka h = inr (
      kafka_producer,
      refl,
      λ same. absurd (ground (arith, ap (λ x. get x (clients_of p kafka_producer)) same)),
    )
    by_kind p l n kafka_consumer j four five no_redis no_kafka h = absurd (ground arith)
    by_kind p l n pub_sub j four five no_redis no_kafka h = absurd (ground arith)

-- After a module's `dispose` the loop has no client of it, and no client comes back.
gone :
    (c : Client) (l : ℕ) (p q : Process)
    → p.loop ≡ some l
    → DropEffect c p q
    → get l (clients_of q c) ≡ none
gone c l p q at (idle seams same clients absent) = rw same (clients c l ∙ absent l at)
gone c l p q at (dropped j m seams here found same clients) =
    rw same (clients c l ∙ ground (arith, same_client_refl c))

still_gone :
    (c d : Client) (l : ℕ) (p q : Process)
    → get l (clients_of p d) ≡ none
    → DropEffect c p q
    → get l (clients_of q d) ≡ none
still_gone c d l p q h (idle seams same clients _) = rw same (clients d l ∙ h)
still_gone c d l p q h (dropped j m seams here found same clients) =
    rw same (clients d l ∙ ground (arith, h))

dropped-Nameless : (c : Client) (p q : Process) → Nameless p → DropEffect c p q → Nameless q
dropped-Nameless c p q h (idle seams same _ _) = rw same h
dropped-Nameless c p q h (dropped _ _ seams _ _ same _) = rw same h

dropped_engines : (c : Client) (p q : Process) → DropEffect c p q → q.engines ≡ p.engines
dropped_engines c p q (idle seams same _ _) = rw same refl
dropped_engines c p q (dropped _ _ seams _ _ same _) = rw same refl

dropped_loop : (c : Client) (p q : Process) → DropEffect c p q → q.loop ≡ p.loop
dropped_loop c p q (idle seams same _ _) = rw same refl
dropped_loop c p q (dropped _ _ seams _ _ same _) = rw same refl

module _ (settings : Settings) (lib : Libraries) where
  -- What the last three calls leave.
  abbrev pub put_away : Process → Process
  put_away p =
      dispose settings lib redis_client
        (dispose_engine settings lib (dispose settings lib kafka_producer p))

  put_away-IsReleased :
      (l : ℕ) (p : Process) → IsOwned p → Nameless p → p.loop ≡ some l → IsReleased l (put_away p)
  put_away-IsReleased l p o nameless at =
      let first = dispose-DropEffect settings lib kafka_producer p in
      let p1 = dispose settings lib kafka_producer p in
      let o1 = dropped-IsOwned settings lib kafka_producer p p1 o first in
      let (es, same, empty) = dispose_engine-AllEmpty settings lib p1 o1 in
      let p2 : Process = record p1 { engines = es } in
      let second = dispose-DropEffect settings lib redis_client p2 in
      let p3 = dispose settings lib redis_client p2 in
      subst (λ x. IsReleased l (dispose settings lib redis_client x)) (sym same)
        (owned-IsReleased l p3
          (dropped-IsOwned settings lib redis_client p2 p3 (engines-IsOwned p1 es empty o1) second)
          (dropped-Nameless redis_client p2 p3 (dropped-Nameless kafka_producer p p1 nameless first)
            second)
          (gone redis_client l p2 p3 (dropped_loop kafka_producer p p1 first ∙ at) second)
          (still_gone redis_client kafka_producer l p2 p3 (gone kafka_producer l p p1 at first)
            second)
          (λ n e h.
            empty n e (ap (object n) (sym (dropped_engines redis_client p2 p3 second)) ∙ h)))

  -- What follows a step, unless it raises.
  abbrev pub next : Exec Process ⊤ → Result ⊤ × Process → Result ⊤ × Process
  next k m = elim m.0 [ ok _ ↦ k m.1 | err e ↦ (err e, m.1) ]

  pub shutdown-next :
      (p : Process)
      → shutdown settings lib p
        ≡ next
            (λ q.
              next
                (λ r. next (λ s. (ok tt, put_away s)) (stop_consumer settings lib r))
                (stop_retry settings lib q))
            (stop_listener settings lib p)
  unfolding shutdown
  shutdown-next p = refl

  -- A process whose tasks have not failed.
  pub shutdown-IsReleased :
      (l : ℕ) (p : Process)
      → IsOwned p
      → p.loop ≡ some l
      → Healthy p.offer_task p
      → Healthy p.retry_task p
      → Healthy p.consumer_task p
      → ((shutdown settings lib p).0 ≡ ok tt) × IsReleased l (shutdown settings lib p).1
  shutdown-IsReleased l p o at offer retry consumer =
      let p1 = without_listener p in
      let p2 = without_retry p1 in
      let p3 = without_consumer p2 in
      let o3 =
        without_consumer-IsOwned p2 (without_retry-IsOwned p1 (without_listener-IsOwned p o)) in
      let retry1 : Healthy p1.retry_task p1 = cancelled-Healthy p.retry_task p.offer_task p retry in
      let consumer1 : Healthy p1.consumer_task p1 =
        cancelled-Healthy p.consumer_task p.offer_task p consumer in
      let consumer2 : Healthy p2.consumer_task p2 =
        cancelled-Healthy p1.consumer_task p1.retry_task p1 consumer1 in
      let last = λ (m : Result ⊤ × Process). next (λ s. (ok tt, put_away s)) m in
      let all : shutdown settings lib p ≡ (ok tt, put_away p3) =
        shutdown-next p
        ∙ ap
            (next
              (λ q. next (λ r. last (stop_consumer settings lib r)) (stop_retry settings lib q)))
            (stop_listener_well settings lib p offer)
        ∙ ap (next (λ r. last (stop_consumer settings lib r)))
            (stop_retry_well settings lib p1 retry1)
        ∙ ap last (stop_consumer_well settings lib p2 consumer2) in
      subst (λ m. (m.0 ≡ ok tt) × IsReleased l m.1) (sym all)
        (refl, put_away-IsReleased l p3 o3 (refl, refl, refl, refl, refl) at)
