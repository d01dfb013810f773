-- ===== src/Process/Startup.antt =====
-- What `lifespan` of src/ride_service/main.py leaves when the application has started.
use uber_clone_python.Base.{
  ℕ, String, ◌≡◌, refl, sym, ap, ◌∙◌, ◌≢◌, inl, inr, Bool, none, some, [], ◌∷◌, ◌++◌, length, arith,
}
use uber_clone_python.Exec.{Error, err}
use mathlib.Core.Path.{subst}
use uber_clone_python.Objects.{object, get, object-append_cases}
use uber_clone_python.Process.{
  Kind, client, kafka_consumer, pub_sub, Connection, running, ended, Process, connection,
}
use uber_clone_python.Process.Owned.{Named, IsOwned}

-- No task has ended with an exception.
abbrev pub Unfailed : Process → Type 0
Unfailed p = (n : ℕ) (e : Error) → object n p.tasks ≢ some (ended (err e))

-- A consumer or a subscription, open or not, and a task are added under their names.
abbrev pub with_consumer : Connection → ℕ → Process → Process
with_consumer k attempts p = record p {
  attempts = attempts;
  connections = p.connections ++ k ∷ [];
  consumer = some (length p.connections);
}

abbrev pub with_consumer_task : Process → Process
with_consumer_task p = record p {
  tasks = p.tasks ++ running ∷ [];
  consumer_task = some (length p.tasks);
}

abbrev pub with_retry_task : Process → Process
with_retry_task p = record p { tasks = p.tasks ++ running ∷ []; retry_task = some (length p.tasks) }

abbrev pub with_pubsub : Connection → ℕ → Process → Process
with_pubsub k attempts p = record p {
  attempts = attempts;
  connections = p.connections ++ k ∷ [];
  pubsub = some (length p.connections);
}

abbrev pub with_offer_task : Process → Process
with_offer_task p = record p { tasks = p.tasks ++ running ∷ []; offer_task = some (length p.tasks) }

pub with_consumer-IsOwned :
    (address : String) (l : ℕ) (up : Bool) (attempts : ℕ) (p : Process)
    → p.consumer ≡ none
    → IsOwned p
    → IsOwned (with_consumer (connection kafka_consumer address l up) attempts p)
with_consumer-IsOwned address l up attempts p missing o =
    let new = connection kafka_consumer address l up in
    let q = with_consumer new attempts p in
    record {
      tasks = o.tasks;
      pools = o.pools;
      factory = o.factory;
      connections = λ n k h is_open. elim (object-append_cases n p.connections new k h) [
        | inl old ↦ still q p n k.kind k.loop missing refl refl (o.connections n k old is_open)
        | inr (last, this) ↦ subst (λ k. Named q n k.kind k.loop) this (ap some (sym last))
      ];
    }
  where
    still :
        (q p : Process) (n : ℕ) (k : Kind) (j : ℕ)
        → p.consumer ≡ none
        → q.seams ≡ p.seams
        → q.pubsub ≡ p.pubsub
        → Named p n k j
        → Named q n k j
    still q p n (client c) j missing seams pubsub h = ap (λ s. get j (s c).clients) seams ∙ h
    still q p n kafka_consumer j missing seams pubsub h = absurd (ground arith)
    still q p n pub_sub j missing seams pubsub h = pubsub ∙ h

pub with_pubsub-IsOwned :
    (address : String) (l : ℕ) (up : Bool) (attempts : ℕ) (p : Process)
    → p.pubsub ≡ none
    → IsOwned p
    → IsOwned (with_pubsub (connection pub_sub address l up) attempts p)
with_pubsub-IsOwned address l up attempts p missing o =
    let new = connection pub_sub address l up in
    let q = with_pubsub new attempts p in
    record {
      tasks = o.tasks;
      pools = o.pools;
      factory = o.factory;
      connections = λ n k h is_open. elim (object-append_cases n p.connections new k h) [
        | inl old ↦ still q p n k.kind k.loop missing refl refl (o.connections n k old is_open)
        | inr (last, this) ↦ subst (λ k. Named q n k.kind k.loop) this (ap some (sym last))
      ];
    }
  where
    still :
        (q p : Process) (n : ℕ) (k : Kind) (j : ℕ)
        → p.pubsub ≡ none
        → q.seams ≡ p.seams
        → q.consumer ≡ p.consumer
        → Named p n k j
        → Named q n k j
    still q p n (client c) j missing seams consumer h = ap (λ s. get j (s c).clients) seams ∙ h
    still q p n kafka_consumer j missing seams consumer h = consumer ∙ h
    still q p n pub_sub j missing seams consumer h = absurd (ground arith)

-- The names of connections do not depend on the tasks.
tasks-Named :
    (p q : Process) (n : ℕ) (k : Kind) (j : ℕ)
    → q.seams ≡ p.seams
    → q.consumer ≡ p.consumer
    → q.pubsub ≡ p.pubsub
    → Named p n k j
    → Named q n k j
tasks-Named p q n (client c) j seams consumer pubsub h = ap (λ s. get j (s c).clients) seams ∙ h
tasks-Named p q n kafka_consumer j seams consumer pubsub h = consumer ∙ h
tasks-Named p q n pub_sub j seams consumer pubsub h = pubsub ∙ h

pub with_consumer_task-IsOwned :
    (p : Process) → p.consumer_task ≡ none → IsOwned p → IsOwned (with_consumer_task p)
with_consumer_task-IsOwned p missing o = record {
  tasks = λ n h. elim (object-append_cases n p.tasks running running h) [
    | inl old ↦ elim (o.tasks n old) [ inl one ↦ absurd (ground arith) | inr rest ↦ inr rest ]
    | inr (last, _) ↦ inl (ap some (sym last))
  ];
  pools = o.pools;
  factory = o.factory;
  connections = λ n k h is_open.
      tasks-Named p (with_consumer_task p) n k.kind k.loop refl refl refl
        (o.connections n k h is_open);
}

pub with_retry_task-IsOwned :
    (p : Process) → p.retry_task ≡ none → IsOwned p → IsOwned (with_retry_task p)
with_retry_task-IsOwned p missing o = record {
  tasks = λ n h. elim (object-append_cases n p.tasks running running h) [
    | inl old ↦ elim (o.tasks n old) [
      | inl one ↦ inl one
      | inr (inl two) ↦ absurd (ground arith)
      | inr (inr three) ↦ inr (inr three)
    ]
    | inr (last, _) ↦ inr (inl (ap some (sym last)))
  ];
  pools = o.pools;
  factory = o.factory;
  connections = λ n k h is_open.
      tasks-Named p (with_retry_task p) n k.kind k.loop refl refl refl
        (o.connections n k h is_open);
}

pub with_offer_task-IsOwned :
    (p : Process) → p.offer_task ≡ none → IsOwned p → IsOwned (with_offer_task p)
with_offer_task-IsOwned p missing o = record {
  tasks = λ n h. elim (object-append_cases n p.tasks running running h) [
    | inl old ↦ elim (o.tasks n old) [
      | inl one ↦ inl one
      | inr (inl two) ↦ inr (inl two)
      | inr (inr three) ↦ absurd (ground arith)
    ]
    | inr (last, _) ↦ inr (inr (ap some (sym last)))
  ];
  pools = o.pools;
  factory = o.factory;
  connections = λ n k h is_open.
      tasks-Named p (with_offer_task p) n k.kind k.loop refl refl refl
        (o.connections n k h is_open);
}

-- A new task has not failed.
pub running-Unfailed : (p q : Process) → Unfailed p → q.tasks ≡ p.tasks ++ running ∷ [] → Unfailed q
running-Unfailed p q well same n e h =
    elim (object-append_cases n p.tasks running (ended (err e)) (ap (object n) (sym same) ∙ h)) [
      | inl old ↦ well n e old
      | inr (_, is) ↦ absurd (ground arith)
    ]
