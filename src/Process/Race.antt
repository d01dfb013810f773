-- ===== src/Process/Race.antt =====
-- `get_producer` of src/ride_service/kafka_producer.py in two parts, before and after its await.
use uber_clone_python.Base.{
  ℕ, ◌+◌, ⊤, String, ◌≡◌, refl, sym, ap, ◌∙◌, inl, inr, true, false, Option, none, some, [], ◌∷◌,
  ◌++◌, length, Option-cases,
}
use uber_clone_python.Exec.{Result, ok, err}
use uber_clone_python.Config.{Settings}
use uber_clone_python.Objects.{alter, get}
use uber_clone_python.Process.{kafka_producer, client, Process, Libraries, connection}
use uber_clone_python.Process.Clients.{
  address_of, ensure_address, start_producer, open_client, remember, found_or_new, get_client,
}
use uber_clone_python.Process.Effects.{clients_of, get_client-found_or_new}
use uber_clone_python.Process.Opening.{start_producer_up}

-- A call of `get_producer`: not yet run, at its `await producer.start()`, or over.
pub data Call : Type 0 where
  called : Call
  awaiting : ℕ → String → Call
  returned : Result ℕ → Call

module _ (settings : Settings) (lib : Libraries) where
  -- From the call on loop `l` to the await, or to the end where there is a producer.
  unfoldable pub begin : ℕ → Process → Call × Process
  begin l p =
      let q = ensure_address settings lib kafka_producer p in
      elim (get l (clients_of q kafka_producer)) [
        | some n ↦ (returned (ok n), q)
        | none ↦ (
          awaiting (length q.connections) (address_of settings lib kafka_producer p),
          record q {
            connections =
                q.connections
                ++ connection (client kafka_producer) (address_of settings lib kafka_producer p) l
                    false
                  ∷ [];
          },
        )
      ]

  -- From the await to the end.
  unfoldable pub resume : ℕ → ℕ → String → Process → Call × Process
  unfolding start_producer
  resume l n address p =
      let (r, q) = start_producer settings lib n address p in
      elim r [
        | ok _ ↦ (returned (ok n), remember settings lib kafka_producer l n q)
        | err e ↦ (returned (err e), q)
      ]

  -- A call runs to its next stop.
  unfoldable pub advance : ℕ → Call × Process → Call × Process
  unfolding begin resume
  advance l (called, p) = begin l p
  advance l (awaiting n address, p) = resume l n address p
  advance l (returned r, p) = (returned r, p)

  -- What the two parts leave where there is no producer and the server answers.
  abbrev pub added : ℕ → Process → Process
  added l p =
      let q = ensure_address settings lib kafka_producer p in
      record q {
        connections =
            q.connections
            ++ connection (client kafka_producer) (address_of settings lib kafka_producer p) l false
              ∷ [];
      }

  abbrev pub stored : ℕ → ℕ → Process → Process
  stored l n p = remember settings lib kafka_producer l n (record p {
    attempts = p.attempts + 1;
    connections = alter n (λ c. record c { is_open = true }) p.connections;
  })

  pub begin-none :
      (l : ℕ) (p : Process)
      → get l (clients_of p kafka_producer) ≡ none
      → begin l p
        ≡ (awaiting (length p.connections) (address_of settings lib kafka_producer p), added l p)
  unfolding begin get
  begin-none l p missing = rw missing refl

  -- What a call does when its producer has started or has not.
  abbrev finishing : ℕ → ℕ → Result ⊤ × Process → Call × Process
  finishing l n m = elim m.0 [
    | ok _ ↦ (returned (ok n), remember settings lib kafka_producer l n m.1)
    | err e ↦ (returned (err e), m.1)
  ]

  resume-finishing :
      (l n : ℕ) (address : String) (p : Process)
      → resume l n address p ≡ finishing l n (start_producer settings lib n address p)
  unfolding resume
  resume-finishing l n address p = refl

  pub resume_up :
      (l n : ℕ) (address : String) (p : Process)
      → lib.kafka_answers p.attempts address ≡ true
      → resume l n address p ≡ (returned (ok n), stored l n p)
  resume_up l n address p up =
      resume-finishing l n address p
      ∙ ap (finishing l n) (start_producer_up settings lib n address p up)

  -- The block of `get_client` around the start of a producer.
  abbrev around : ℕ → ℕ → Result ⊤ × Process → Result ℕ × Process
  around l n m =
      let started : Result ℕ × Process = elim m.0 [ ok _ ↦ (ok n, m.1) | err e ↦ (err e, m.1) ] in
      elim started.0 [
        | ok k ↦ (ok k, remember settings lib kafka_producer l k started.1)
        | err e ↦ (err e, started.1)
      ]

  found_or_new-around :
      (l : ℕ) (p : Process)
      → found_or_new settings lib kafka_producer
          (address_of settings lib kafka_producer p)
          l
          none
          (ensure_address settings lib kafka_producer p)
        ≡ around l (length p.connections) (
            start_producer settings lib
              (length p.connections)
              (address_of settings lib kafka_producer p)
              (added l p))
  unfolding found_or_new open_client
  found_or_new-around l p = refl

  finishing-around :
      (l n : ℕ) (m : Result ⊤ × Process)
      → finishing l n m ≡ (returned (around l n m).0, (around l n m).1)
  finishing-around l n (ok _, p) = refl
  finishing-around l n (err e, p) = refl

  begin-some :
      (l n : ℕ) (p : Process)
      → get l (clients_of p kafka_producer) ≡ some n
      → begin l p ≡ (returned (ok n), ensure_address settings lib kafka_producer p)
  unfolding begin get
  begin-some l n p found = rw found refl

  -- The two parts are the whole.
  pub advance-get_client :
      (l : ℕ) (p : Process)
      → p.loop ≡ some l
      → advance l (advance l (called, p)) ≡ (
        returned (get_client settings lib kafka_producer p).0,
        (get_client settings lib kafka_producer p).1,
      )
  unfolding advance found_or_new
  advance-get_client l p at =
      let a = address_of settings lib kafka_producer p in
      let n = length p.connections in
      let e = ensure_address settings lib kafka_producer p in
      let start = get_client-found_or_new settings lib kafka_producer l p at in
      let from = λ (o : Option ℕ). found_or_new settings lib kafka_producer a l o e in
      let over : Result ℕ × Process → Call × Process = λ m. (returned m.0, m.1) in
      elim (Option-cases (get l (clients_of p kafka_producer))) [
        | inl missing ↦
            ap (advance l) (begin-none l p missing)
            ∙ resume-finishing l n a (added l p)
            ∙ finishing-around l n (start_producer settings lib n a (added l p))
            ∙ ap over (sym (start ∙ ap from missing ∙ found_or_new-around l p))
        | inr (k, found) ↦
            ap (advance l) (begin-some l k p found) ∙ ap over (sym (start ∙ ap from found))
      ]
