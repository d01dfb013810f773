-- ===== src/Process/Starting.antt =====
-- The first half of `lifespan` in src/ride_service/main.py, up to its `yield`.
use uber_clone_python.Base.{
  ℕ, ◌+◌, ⊤, ◌≡◌, refl, sym, ap, ◌∙◌, inl, inr, true, false, none, Bool-cases,
}
use uber_clone_python.Exec.{Result, ok, err, Exec}
use mathlib.Core.Path.{subst}
use uber_clone_python.Config.{Settings}
use uber_clone_python.Process.{
  redis_client, kafka_consumer, pub_sub, Process, Libraries, running_loop, connection,
}
use uber_clone_python.Process.Clients.{get_client}
use uber_clone_python.Process.Opening.{get_client-GetEffect}
use uber_clone_python.Process.Background.{servers_of, start_listener}
use uber_clone_python.Process.Lifespan.{startup}
use uber_clone_python.Process.Shutdown.{Nameless}
use uber_clone_python.Process.Startup.{
  with_consumer, with_consumer_task, with_retry_task, with_pubsub, with_offer_task,
  with_consumer-IsOwned, with_pubsub-IsOwned, with_consumer_task-IsOwned, with_retry_task-IsOwned,
  with_offer_task-IsOwned, running-Unfailed,
}
use uber_clone_python.Process.Serving.{
  IsServing, acquired-Frame, acquired-IsServing, followed, on_loop, consume_on, start_consumer_on,
  consume_on_up, consume_on_down, pattern_of, listen_on, listen_on_up, listen_on_down,
  start_listener-followed, startup-followed,
}

module _ (settings : Settings) (lib : Libraries) where
  -- A property of the state after both parts of a block.
  followed_all :
      {A : Type 0}
      → (P : Process → Type 0) (k : A → Exec Process ⊤) (m : Result A × Process) → P m.1
      → ((a : A) → P (k a m.1).1)
      → P (followed settings lib k m).1
  followed_all P k (ok a, p) first second = second a
  followed_all P k (err e, p) first second = first

  -- The fields that the rest of the start needs to be empty.
  abbrev Ready : ℕ → Process → Type 0
  Ready l p = IsServing l p × (p.retry_task ≡ none) × (p.offer_task ≡ none) × (p.pubsub ≡ none)

  consume_on-Ready :
      (l : ℕ) (p : Process) → IsServing l p → Nameless p → Ready l (consume_on settings lib l p).1
  consume_on-Ready l p s (one, two, three, four, five) =
      let servers = servers_of settings lib p.consumer_servers in
      elim (Bool-cases (lib.kafka_answers p.attempts servers)) [
        | inl up ↦
            let q = with_consumer (connection kafka_consumer servers l true) (p.attempts + 1) p in
            subst (λ m. Ready l m.1) (sym (consume_on_up settings lib l p servers refl up))
              (
                record {
                  loop = s.loop;
                  owned =
                      with_consumer_task-IsOwned q one
                        (with_consumer-IsOwned servers l true (p.attempts + 1) p four s.owned);
                  well = running-Unfailed q (with_consumer_task q) s.well refl;
                },
                two,
                three,
                five,
              )
        | inr down ↦
            subst (λ m. Ready l m.1) (sym (consume_on_down settings lib l p servers refl down))
              (
                record {
                  loop = s.loop;
                  owned = with_consumer-IsOwned servers l false (p.attempts + 1) p four s.owned;
                  well = s.well;
                },
                two,
                three,
                five,
              )
      ]

  listen_on-IsServing :
      (l : ℕ) (p : Process)
      → IsServing l p
      → p.offer_task ≡ none
      → p.pubsub ≡ none
      → IsServing l (listen_on settings lib l p).1
  listen_on-IsServing l p s offer pubsub =
      let pattern_text = pattern_of settings lib in
      elim (Bool-cases (lib.redis_answers p.attempts pattern_text)) [
        | inl up ↦
            let q = with_pubsub (connection pub_sub pattern_text l true) (p.attempts + 1) p in
            subst (λ m. IsServing l m.1) (sym (listen_on_up settings lib l p up))
              (record {
                loop = s.loop;
                owned =
                    with_offer_task-IsOwned q offer
                      (with_pubsub-IsOwned pattern_text l true (p.attempts + 1) p pubsub s.owned);
                well = running-Unfailed q (with_offer_task q) s.well refl;
              })
        | inr down ↦
            subst (λ m. IsServing l m.1) (sym (listen_on_down settings lib l p down))
              (record {
                loop = s.loop;
                owned = with_pubsub-IsOwned pattern_text l false (p.attempts + 1) p pubsub s.owned;
                well = s.well;
              })
      ]

  start_listener-IsServing :
      (l : ℕ) (p : Process)
      → IsServing l p
      → p.offer_task ≡ none
      → p.pubsub ≡ none
      → IsServing l (start_listener settings lib p).1
  start_listener-IsServing l p s offer pubsub =
      let m = get_client settings lib redis_client p in
      let served = acquired-IsServing settings lib redis_client l p s in
      let (_, _, same_pubsub, same_offer) =
        acquired-Frame redis_client l p m.0 m.1
          (get_client-GetEffect settings lib redis_client l p s.loop) in
      let listened = listen_on-IsServing l m.1 served (same_offer ∙ offer) (same_pubsub ∙ pubsub) in
      subst (λ x. IsServing l x.1) (sym (start_listener-followed settings lib p))
        (followed_all (IsServing l)
          (λ _ q. followed settings lib (listen_on settings lib) (running_loop q)) m served
          (λ _.
            subst (λ x. IsServing l (followed settings lib (listen_on settings lib) x).1)
              (sym (on_loop settings lib l m.1 served.loop)) listened))

  -- Whether the start succeeds or stops at an error.
  pub startup-IsServing :
      (l : ℕ) (p : Process) → IsServing l p → Nameless p → IsServing l (startup settings lib p).1
  startup-IsServing l p s nameless =
      let m = consume_on settings lib l p in
      let (served, retry, offer, pubsub) = consume_on-Ready l p s nameless in
      let q = with_retry_task m.1 in
      let retried : IsServing l q = record {
        loop = served.loop;
        owned = with_retry_task-IsOwned m.1 retry served.owned;
        well = running-Unfailed m.1 q served.well refl;
      } in
      let next = λ (_ : ⊤) (q : Process). start_listener settings lib (with_retry_task q) in
      subst (λ x. IsServing l x.1)
        (sym (
          startup-followed settings lib p
          ∙ ap (followed settings lib next) (start_consumer_on settings lib l p s.loop)))
        (followed_all (IsServing l) next m served
          (λ _. start_listener-IsServing l q retried offer pubsub))
