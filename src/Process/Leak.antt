-- ===== src/Process/Leak.antt =====
-- Two calls of `get_producer` in src/ride_service/kafka_producer.py at the same time.
use uber_clone_python.Base.{
  ℕ, ◌+◌, ◌≡◌, refl, sym, ap, ◌∙◌, ◌≢◌, true, false, none, some, [], ◌∷◌, length, arith,
}
use uber_clone_python.Exec.{ok}
use mathlib.Core.Path.{subst}
use uber_clone_python.Config.{Settings}
use uber_clone_python.Objects.{
  append_longer, object, get, get-put, object-append_new, object-append_old, object-alter_ne,
  object-alter_self,
}
use uber_clone_python.Process.{
  kafka_producer, client, Connection, Process, Libraries, connection, shut,
}
use uber_clone_python.Process.Clients.{address_of, dispose}
use uber_clone_python.Process.Effects.{
  clients_of, same_client_refl, DropEffect, idle, dropped, dispose-DropEffect,
}
use uber_clone_python.Process.Race.{
  called, awaiting, returned, advance, added, stored, begin-none, resume_up, Call,
}

module _ (settings : Settings) (lib : Libraries) where
  -- Both calls begin settings lib before either goes on: calls `a` and `b` with the state.
  abbrev pub both : ℕ → Process → Call × Call × Process
  both l p =
      let (a, p1) = advance settings lib l (called, p) in
      let (b, p2) = advance settings lib l (called, p1) in
      let (a', p3) = advance settings lib l (a, p2) in
      let (b', p4) = advance settings lib l (b, p3) in (a', b', p4)

  both_lem :
      (l : ℕ) (p : Process)
      → get l (clients_of p kafka_producer) ≡ none
      → lib.kafka_answers p.attempts (address_of settings lib kafka_producer p) ≡ true
      → lib.kafka_answers (p.attempts + 1) (address_of settings lib kafka_producer p) ≡ true
      → both l p ≡ (
        returned (ok (length p.connections)),
        returned (ok (length (added settings lib l p).connections)),
        stored settings lib l (length (added settings lib l p).connections) (
            stored settings lib l
              (length p.connections)
              (added settings lib l (added settings lib l p))),
      )
  unfolding advance
  both_lem l p missing first second =
      let a = address_of settings lib kafka_producer p in
      let p2 = added settings lib l (added settings lib l p) in
      let n = length p.connections in
      let m = length (added settings lib l p).connections in
      ap (after_first l) (begin-none settings lib l p missing)
      ∙ ap (after_second l (awaiting n a))
          (begin-none settings lib l (added settings lib l p) missing)
      ∙ ap (after_third l (awaiting m a)) (resume_up settings lib l n a p2 first)
      ∙ ap (after_fourth (returned (ok n)))
          (resume_up settings lib l m a (stored settings lib l n p2) second)
    where
      after_fourth : Call → Call × Process → Call × Call × Process
      after_fourth a' m = (a', m.0, m.1)

      after_third : ℕ → Call → Call × Process → Call × Call × Process
      after_third l b m = after_fourth m.0 (advance settings lib l (b, m.1))

      after_second : ℕ → Call → Call × Process → Call × Call × Process
      after_second l a m = after_third l m.0 (advance settings lib l (a, m.1))

      after_first : ℕ → Call × Process → Call × Call × Process
      after_first l m = after_second l m.0 (advance settings lib l (called, m.1))

  -- `dispose` closes the loop's client and no other.
  disposed_other :
      (l n m : ℕ) (k : Connection) (p q : Process)
      → p.loop ≡ some l
      → get l (clients_of p kafka_producer) ≡ some m
      → m ≢ n
      → object n p.connections ≡ some k
      → DropEffect kafka_producer p q
      → (object n q.connections ≡ some k) × (get l (clients_of q kafka_producer) ≡ none)
  disposed_other l n m k p q at found apart there (idle seams same clients absent) =
      absurd (ground (arith, absent l at))
  disposed_other l n m k p q at found apart there (dropped j i seams here was same clients) =
      let loops : l ≡ j = ground arith in
      let one : get l (clients_of p kafka_producer) ≡ some i =
        ap (λ x. get x (clients_of p kafka_producer)) loops ∙ was in
      let clients_same : m ≡ i = ground arith in
      rw same (
        object-alter_ne i n shut p.connections (λ e. apart (clients_same ∙ e)) ∙ there,
        clients kafka_producer l ∙ ground (arith, same_client_refl kafka_producer),
      )

  -- If a loop has no producer and the servers answer, and two calls of get_producer on that loop
  -- both begin before either goes on, then the first returns a producer that is still open after
  -- the loop's producer has been disposed of, when no producer is stored for the loop any more.
  pub both_leak :
      (l : ℕ) (p : Process)
      → p.loop ≡ some l
      → get l (clients_of p kafka_producer) ≡ none
      → lib.kafka_answers p.attempts (address_of settings lib kafka_producer p) ≡ true
      → lib.kafka_answers (p.attempts + 1) (address_of settings lib kafka_producer p) ≡ true
      → let n = length p.connections in
        let q = dispose settings lib kafka_producer (both l p).2 in
        ((both l p).0 ≡ returned (ok n))
        × (object n q.connections
            ≡ some (
                connection
                  (client kafka_producer)
                  (address_of settings lib kafka_producer p)
                  l
                  true))
        × (get l (clients_of q kafka_producer) ≡ none)
  both_leak l p at missing first second =
      let a = address_of settings lib kafka_producer p in
      let k = connection (client kafka_producer) a l false in
      let n = length p.connections in
      let m = length (added settings lib l p).connections in
      let q3 = stored settings lib l n (added settings lib l (added settings lib l p)) in
      let q4 = stored settings lib l m q3 in
      let apart : m ≢ n = append_longer p.connections k in
      let there : object n q4.connections ≡ some (connection (client kafka_producer) a l true) =
        object-alter_ne m n (λ c. record c { is_open = true }) q3.connections apart
        ∙ object-alter_self n (λ c. record c { is_open = true })
            (added settings lib l (added settings lib l p)).connections k
            (object-append_old n (added settings lib l p).connections (k ∷ []) k
              (object-append_new p.connections k)) in
      let found : get l (clients_of q4 kafka_producer) ≡ some m =
        ground (arith, get-put l l m (clients_of q3 kafka_producer)) in
      let end = both_lem l p missing first second in
      subst
        (λ x.
          (x.0 ≡ returned (ok n))
          × (object n (dispose settings lib kafka_producer x.2).connections
              ≡ some (connection (client kafka_producer) a l true))
          × (get l (clients_of (dispose settings lib kafka_producer x.2) kafka_producer) ≡ none))
        (sym end)
        (let (one, two) =
            disposed_other l n m (connection (client kafka_producer) a l true) q4
              (dispose settings lib kafka_producer q4) at found apart there
              (dispose-DropEffect settings lib kafka_producer q4) in
          (refl, one, two))
