-- ===== src/Process/Alone.antt =====
-- A call of `get_producer` in src/ride_service/kafka_producer.py with nothing between its two parts.
use mathlib.Core.Path.{subst}
use uber_clone_python.Base.{
  ℕ, String, ◌≡◌, ◌≢◌, sym, ap, ◌∙◌, true, inl, inr, Bool-cases, some, length, arith, eqb,
}
use uber_clone_python.Exec.{Result, ok, err, runtime_error}
use uber_clone_python.Config.{Settings}
use uber_clone_python.Objects.{object, get, get-put}
use uber_clone_python.Process.{kafka_producer, client, Process, Libraries, connection}
use uber_clone_python.Process.Clients.{get_client}
use uber_clone_python.Process.Effects.{clients_of, GetEffect, kept, made}
use uber_clone_python.Process.Opening.{get_client-GetEffect}
use uber_clone_python.Process.Bound.{IsBound, acquired-IsBound}
use uber_clone_python.Process.Stable.{acquired_known}
use uber_clone_python.Process.Race.{Call, called, returned, advance, advance-get_client}

-- The producers of the other loops stay.
acquired_apart :
    (l j : ℕ) (p : Process) (r : Result ℕ) (q : Process)
    → j ≢ l
    → GetEffect kafka_producer l p r q
    → get j (clients_of q kafka_producer) ≡ get j (clients_of p kafka_producer)
acquired_apart l j p r q apart (kept added seams attempts same clients _ _) =
    ap (λ x. get j (clients_of x kafka_producer)) same ∙ ap (get j) (clients kafka_producer)
acquired_apart l j p r q apart (made address seams attempts same is missing clients) =
    ap (λ x. get j (clients_of x kafka_producer)) same
    ∙ ap (get j) (clients kafka_producer)
    ∙ get-put l j (length p.connections) (clients_of p kafka_producer)
    ∙ elim (Bool-cases (eqb l j)) [
      | inl here ↦ absurd (apart (ground arith))
      | inr there ↦ ground arith
    ]

result_of : Call → Result ℕ
result_of (returned r) = r
result_of _ = err runtime_error

module _ (settings : Settings) (lib : Libraries) where
  -- If every stored client is open and belongs to the loop that it is stored under, and a call of
  -- get_producer on a loop, taken to its await and from there to its end with nothing in between,
  -- returns a producer, then that producer is stored under the loop, is open and belongs to the
  -- loop, the producers of other loops are the same, and every stored client is still open and
  -- belongs to its loop.
  pub advance_stored :
      (l n : ℕ) (p q : Process)
      → IsBound p
      → p.loop ≡ some l
      → advance settings lib l (advance settings lib l (called, p)) ≡ (returned (ok n), q)
      → IsBound q
        × (get l (clients_of q kafka_producer) ≡ some n)
        × ((a : String) × (object n q.connections
              ≡ some (connection (client kafka_producer) a l true)))
        × ((j : ℕ)
            → j ≢ l
            → get j (clients_of q kafka_producer) ≡ get j (clients_of p kafka_producer))
  advance_stored l n p q b at ended =
      let m = get_client settings lib kafka_producer p in
      let whole = sym (advance-get_client settings lib l p at) ∙ ended in
      let given : m.0 ≡ ok n = unfold result_of in ap (λ x. result_of x.0) whole in
      let left : m.1 ≡ q = ap (λ x. x.1) whole in
      let effect =
        subst (GetEffect kafka_producer l p m.0) left
          (get_client-GetEffect settings lib kafka_producer l p at) in
      let bound = acquired-IsBound settings lib kafka_producer l p m.0 q b effect in
      let found = acquired_known settings lib kafka_producer l n p q m.0 given effect in
      (
        bound,
        found,
        bound kafka_producer l n found,
        λ j apart. acquired_apart l j p m.0 q apart effect,
      )
