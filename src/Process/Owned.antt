-- ===== src/Process/Owned.antt =====
-- Who answers for what is open or running: each task and each connection has a name in the globals.
use uber_clone_python.Base.{
  ℕ, ◌≡◌, refl, sym, ap, ◌∙◌, ◌≢◌, ◌⊎◌, inl, inr, true, false, ◌&&◌, none, some, [], ◌∷◌, ◌++◌,
  length, arith, eqb, if◌then◌else◌, Bool-cases,
}
use uber_clone_python.Exec.{Result}
use mathlib.Core.Path.{subst}
use uber_clone_python.Config.{Settings}
use uber_clone_python.Objects.{
  object, alter, get, pop, get-put, object-append-All, object-append_cases, object-alter_cases,
}
use uber_clone_python.Process.{
  Engine, Client, Kind, client, kafka_consumer, pub_sub, Connection, running, Process, Libraries,
  connection, shut, same_client,
}
use uber_clone_python.Process.Effects.{
  clients_of, with_connections, same_client_eq, same_client_refl, GetEffect, kept, made, DropEffect,
  idle, dropped,
}
use uber_clone_python.Process.Stable.{put_spares}

-- The name of a connection.
abbrev pub Named : Process → ℕ → Kind → ℕ → Type 0
Named p n (client c) l = get l (clients_of p c) ≡ some n
Named p n kafka_consumer l = p.consumer ≡ some n
Named p n pub_sub l = p.pubsub ≡ some n

pub record IsOwned (p : Process) : Type 0 where
  pub tasks :
      (n : ℕ)
      → object n p.tasks ≡ some running
      → (p.consumer_task ≡ some n) ⊎ (p.retry_task ≡ some n) ⊎ (p.offer_task ≡ some n)
  pub connections :
      (n : ℕ) (k : Connection)
      → object n p.connections ≡ some k
      → k.is_open ≡ true
      → Named p n k.kind k.loop
  pub pools :
      (n : ℕ) (e : Engine) → object n p.engines ≡ some e → (e.pooled ≡ 0) ⊎ (p.engine ≡ some n)
  pub factory : p.sessionmaker ≡ p.engine

-- The globals agree, where a connection has its name.
pub Named-same :
    (p q : Process) (n : ℕ) (k : Kind) (l : ℕ)
    → ((d : Client) → get l (clients_of q d) ≡ get l (clients_of p d))
    → q.consumer ≡ p.consumer
    → q.pubsub ≡ p.pubsub
    → Named p n k l
    → Named q n k l
Named-same p q n (client c) l clients consumer pubsub h = clients c ∙ h
Named-same p q n kafka_consumer l clients consumer pubsub h = consumer ∙ h
Named-same p q n pub_sub l clients consumer pubsub h = pubsub ∙ h

module _ (settings : Settings) (lib : Libraries) where
  pub acquired-IsOwned :
      (c : Client) (l : ℕ) (p : Process) (r : Result ℕ) (q : Process)
      → IsOwned p
      → GetEffect c l p r q
      → IsOwned q
  acquired-IsOwned c l p r q o (kept added seams attempts same clients closed _) =
      let q' = with_connections p (p.connections ++ added) seams attempts in
      subst IsOwned (sym same) (record {
        tasks = o.tasks;
        pools = o.pools;
        factory = o.factory;
        connections = λ n k h is_open.
            elim (object-append-All (λ k. k.is_open ≡ false) n p.connections added k closed h) [
              | inl old ↦
                  Named-same p q' n k.kind k.loop (λ d. ap (get k.loop) (clients d)) refl refl
                    (o.connections n k old is_open)
              | inr shut_one ↦ absurd (ground arith)
            ];
      })
  acquired-IsOwned c l p r q o (made address seams attempts same is missing clients) =
      let new = connection (client c) address l true in
      let q' = with_connections p (p.connections ++ new ∷ []) seams attempts in
      subst IsOwned (sym same) (record {
        tasks = o.tasks;
        pools = o.pools;
        factory = o.factory;
        connections = λ n k h is_open. elim (object-append_cases n p.connections new k h) [
          | inl old ↦
              still-Named c l p q' n k.kind k.loop refl refl missing clients
                (o.connections n k old is_open)
          | inr (last, this) ↦
              subst (λ k. Named q' n k.kind k.loop) this
                (ap (get l) (clients c)
                  ∙ ground (
                    arith,
                    same_client_refl c,
                    get-put l l (length p.connections) (clients_of p c),
                    last,
                  ))
        ];
      })
    where
      still-Named :
          (c : Client) (l : ℕ) (p q : Process) (n : ℕ) (k : Kind) (j : ℕ)
          → q.consumer ≡ p.consumer
          → q.pubsub ≡ p.pubsub
          → get l (clients_of p c) ≡ none
          → ((d : Client)
              → clients_of q d ≡ (
                  if same_client c d
                  then (l, length p.connections) ∷ pop l (clients_of p c)
                  else clients_of p d))
          → Named p n k j
          → Named q n k j
      still-Named c l p q n (client d) j consumer pubsub missing clients h =
          ap (get j) (clients d)
          ∙ put_spares settings lib d c j l n (length p.connections) p h missing
      still-Named c l p q n kafka_consumer j consumer pubsub missing clients h = consumer ∙ h
      still-Named c l p q n pub_sub j consumer pubsub missing clients h = pubsub ∙ h

  -- The names of a connection that is not closed.
  still_there :
      (c d : Client) (l j m n : ℕ) (p : Process)
      → get l (clients_of p c) ≡ some m
      → get j (clients_of p d) ≡ some n
      → m ≢ n
      → (if same_client c d && eqb l j then none else get j (clients_of p d)) ≡ some n
  still_there c d l j m n p found h apart = elim (Bool-cases (same_client c d)) [
    | inr other ↦ ground arith
    | inl this ↦
        let one = same_client_eq c d this in
        let there : get l (clients_of p d) ≡ some m =
          subst (λ k. get l (clients_of p k) ≡ some m) one found in
        elim (Bool-cases (eqb l j)) [
          | inl here ↦
              let same : get j (clients_of p d) ≡ some m =
                subst (λ k. get k (clients_of p d) ≡ some m) (ground arith) there in
              absurd (apart (ground arith))
          | inr away ↦ ground arith
        ]
  ]

  pub dropped-IsOwned : (c : Client) (p q : Process) → IsOwned p → DropEffect c p q → IsOwned q
  dropped-IsOwned c p q o (idle seams same clients _) =
      let q' = with_connections p p.connections seams p.attempts in
      subst IsOwned (sym same) (record {
        tasks = o.tasks;
        pools = o.pools;
        factory = o.factory;
        connections = λ n k h is_open.
            Named-same p q' n k.kind k.loop (λ d. clients d k.loop) refl refl
              (o.connections n k h is_open);
      })
  dropped-IsOwned c p q o (dropped l m seams at found same clients) =
      let q' = with_connections p (alter m shut p.connections) seams p.attempts in
      subst IsOwned (sym same) (record {
        tasks = o.tasks;
        pools = o.pools;
        factory = o.factory;
        connections = λ n k h is_open. elim (object-alter_cases m n shut p.connections k h) [
          | inl (apart, old) ↦
              other-Named c l m p q' n k.kind k.loop refl refl found clients apart
                (o.connections n k old is_open)
          | inr (was, _, _, now) ↦ absurd (ground arith)
        ];
      })
    where
      other-Named :
          (c : Client) (l m : ℕ) (p q : Process) (n : ℕ) (k : Kind) (j : ℕ)
          → q.consumer ≡ p.consumer
          → q.pubsub ≡ p.pubsub
          → get l (clients_of p c) ≡ some m
          → ((d : Client) (j : ℕ)
              → get j (clients_of q d)
                ≡ (if same_client c d && eqb l j then none else get j (clients_of p d)))
          → m ≢ n
          → Named p n k j
          → Named q n k j
      other-Named c l m p q n (client d) j consumer pubsub found clients apart h =
          clients d j ∙ still_there c d l j m n p found h apart
      other-Named c l m p q n kafka_consumer j consumer pubsub found clients apart h = consumer ∙ h
      other-Named c l m p q n pub_sub j consumer pubsub found clients apart h = pubsub ∙ h
