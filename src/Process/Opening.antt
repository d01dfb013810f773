-- ===== src/Process/Opening.antt =====
-- What opening a client for a loop does, and so `get_client`: the clients of
-- src/ride_service/redis_client.py, rate_limit.py and kafka_producer.py.
use uber_clone_python.Base.{
  ℕ, ◌+◌, ⊤, String, ◌≡◌, refl, sym, ap, ◌∙◌, inl, inr, true, false, Option, none, some, List, [],
  ◌∷◌, ◌++◌, All, length, arith, if◌then◌else◌, Bool-cases, Option-cases,
}
use uber_clone_python.Exec.{Error, value_error, kafka_error, Result, ok, err}
use mathlib.Core.List.{append-nil}
use mathlib.Core.Path.{subst}
use uber_clone_python.Config.{Settings}
use uber_clone_python.Objects.{alter, get, pop, alter-append_new}
use uber_clone_python.Process.{
  Client, redis_client, limit_strategy, kafka_producer, client, Connection, Process, Libraries,
  connection, same_client,
}
use uber_clone_python.Process.Clients.{
  address_of, ensure_address, async_url_of, start_producer, open_client, remember, found_or_new,
  get_client,
}
use uber_clone_python.Process.Effects.{
  kept, made, ensured, remembered, get_client-found_or_new, clients_of, with_connections, GetEffect,
}

module _ (settings : Settings) (lib : Libraries) where
  -- A new client is open on its loop, or nothing that was added is open.
  data OpenEffect (c : Client) (l : ℕ) (p : Process) : Result ℕ × Process → Type 0 where
    failed :
        (e : Error) (added : List Connection) (attempts : ℕ)
        → All (λ k. k.is_open ≡ false) added
        → OpenEffect c l p (err e, with_connections p (p.connections ++ added) p.seams attempts)
    opened :
        (address : String) (attempts : ℕ)
        → OpenEffect c l p (
          ok (length p.connections),
          with_connections p
              (p.connections ++ connection (client c) address l true ∷ [])
              p.seams
              attempts,
        )

  pub start_producer_up :
      (n : ℕ) (servers : String) (p : Process)
      → lib.kafka_answers p.attempts servers ≡ true
      → start_producer settings lib n servers p ≡ (
        ok tt,
        with_connections p
            (alter n (λ c. record c { is_open = true }) p.connections)
            p.seams
            (p.attempts + 1),
      )
  unfolding start_producer
  start_producer_up n servers p h = rw h refl

  start_producer_down :
      (n : ℕ) (servers : String) (p : Process)
      → lib.kafka_answers p.attempts servers ≡ false
      → start_producer settings lib n servers p
        ≡ (err kafka_error, with_connections p p.connections p.seams (p.attempts + 1))
  unfolding start_producer
  start_producer_down n servers p h = rw h refl

  -- A producer object that has not started.
  abbrev fresh : String → ℕ → Process → Process
  fresh address l p = record p {
    connections = p.connections ++ connection (client kafka_producer) address l false ∷ [];
  }

  -- The rest of a block that gives `a` back.
  abbrev giving : {A : Type 0} → A → Result ⊤ × Process → Result A × Process
  giving a m = elim m.0 [ ok _ ↦ (ok a, m.1) | err e ↦ (err e, m.1) ]

  open_client-OpenEffect :
      (c : Client) (address : String) (l : ℕ) (p : Process)
      → OpenEffect c l p (open_client settings lib c address l p)
  unfolding open_client start_producer
  open_client-OpenEffect redis_client address l p = elim (Bool-cases (lib.accepts_redis address)) [
    | inl good ↦ rw good (opened address p.attempts)
    | inr bad ↦ rw bad (
        subst
          (λ cs.
            OpenEffect redis_client l p (err value_error, with_connections p cs p.seams p.attempts))
          (append-nil p.connections) (failed value_error [] p.attempts tt))
  ]
  open_client-OpenEffect limit_strategy address l p =
      elim (Bool-cases (lib.accepts_storage (async_url_of settings lib address))) [
        | inl good ↦ rw good (opened (async_url_of settings lib address) p.attempts)
        | inr bad ↦ rw bad (
            subst
              (λ cs.
                OpenEffect limit_strategy l p
                  (err value_error, with_connections p cs p.seams p.attempts))
              (append-nil p.connections) (failed value_error [] p.attempts tt))
      ]
  open_client-OpenEffect kafka_producer address l p =
      elim (Bool-cases (lib.kafka_answers p.attempts address)) [
        | inl up ↦
            subst (OpenEffect kafka_producer l p)
              (sym (
                ap (giving (length p.connections))
                  (start_producer_up (length p.connections) address (fresh address l p) up)))
              (rw alter-append_new (opened address (p.attempts + 1)))
        | inr down ↦
            subst (OpenEffect kafka_producer l p)
              (sym (
                ap (giving (length p.connections))
                  (start_producer_down (length p.connections) address (fresh address l p) down)))
              (failed kafka_error (connection (client kafka_producer) address l false ∷ [])
                (p.attempts + 1) (refl, tt))
      ]

  abbrev stored : Client → ℕ → Result ℕ × Process → Result ℕ × Process
  stored c l m = elim m.0 [ ok n ↦ (ok n, remember settings lib c l n m.1) | err e ↦ (err e, m.1) ]

  stored-GetEffect :
      (c : Client) (l : ℕ) (p : Process)
      → get l (clients_of p c) ≡ none
      → (m : Result ℕ × Process) → OpenEffect c l (ensure_address settings lib c p) m
      → GetEffect c l p (stored c l m).0 (stored c l m).1
  stored-GetEffect c l p missing m (failed e added attempts shut_all) =
      kept added (ensure_address settings lib c p).seams attempts refl
        (λ d. ensured settings lib c d p) shut_all (λ n h. absurd (ground arith))
  stored-GetEffect c l p missing m (opened a attempts) =
      let e = ensure_address settings lib c p in
      made a (remember settings lib c l (length p.connections) e).seams attempts refl refl missing
        (λ d.
          remembered settings lib c d l (length p.connections) e
          ∙ ap
              (λ x. if same_client c d then (l, length p.connections) ∷ pop l x else clients_of e d)
              (ensured settings lib c c p)
          ∙ ap
              (λ x.
                if same_client c d then (l, length p.connections) ∷ pop l (clients_of p c) else x)
              (ensured settings lib c d p))

  found_or_new-none :
      (c : Client) (address : String) (l : ℕ) (p : Process)
      → found_or_new settings lib c address l none p
        ≡ stored c l (open_client settings lib c address l p)
  unfolding found_or_new
  found_or_new-none c address l p = refl

  pub get_client-GetEffect :
      (c : Client) (l : ℕ) (p : Process)
      → p.loop ≡ some l
      → GetEffect c l p (get_client settings lib c p).0 (get_client settings lib c p).1
  unfolding found_or_new
  get_client-GetEffect c l p h =
      let e = ensure_address settings lib c p in
      let start = get_client-found_or_new settings lib c l p h in
      let from =
        λ (o : Option ℕ). found_or_new settings lib c (address_of settings lib c p) l o e in
      elim (Option-cases (get l (clients_of p c))) [
        | inl missing ↦
            subst (λ m. GetEffect c l p m.0 m.1)
              (sym
                (start ∙ ap from missing ∙ found_or_new-none c (address_of settings lib c p) l e))
              (stored-GetEffect c l p missing _
                (open_client-OpenEffect c (address_of settings lib c p) l e))
        | inr (n, found) ↦
            subst (λ m. GetEffect c l p m.0 m.1) (sym (start ∙ ap from found))
              (kept [] e.seams p.attempts
                (ap (λ cs. with_connections p cs e.seams p.attempts)
                  (sym (append-nil p.connections)))
                (λ d. ensured settings lib c d p) tt (λ m same. ground arith))
      ]
