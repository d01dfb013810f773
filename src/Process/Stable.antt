-- ===== src/Process/Stable.antt =====
-- Whether a loop keeps its clients: src/ride_service/redis_client.py, rate_limit.py and kafka_producer.py.
use uber_clone_python.Base.{
  ℕ, String, ◌≡◌, refl, sym, ap, ◌∙◌, inl, inr, true, false, ◌&&◌, Option, none, some, List, [],
  ◌∷◌, All, length, arith, eqb, if◌then◌else◌, Bool-cases,
}
use uber_clone_python.Exec.{Result, ok}
use mathlib.Core.Path.{subst}
use uber_clone_python.Config.{Settings}
use uber_clone_python.Objects.{object, get, pop, get-put}
use uber_clone_python.Process.{Client, client, Process, Libraries, connection, same_client}
use uber_clone_python.Process.Clients.{
  configure, ensure_address, found_or_new, address_of, get_client,
}
use uber_clone_python.Process.Effects.{
  get_client-found_or_new, clients_of, same_client_eq, same_client_refl, ensured, GetEffect, kept,
  made, DropEffect, idle, dropped, dispose-DropEffect,
}
use uber_clone_python.Process.Opening.{get_client-GetEffect}
use uber_clone_python.Process.Bound.{
  reconfigure, acquire, drop, perform, perform_all, spares, get_client_outside, performed-IsBound,
  IsBound, at_loop, Operation,
}

module _ (settings : Settings) (lib : Libraries) where
  pub put_spares :
      (c d : Client) (l j n m : ℕ) (p : Process)
      → get l (clients_of p c) ≡ some n
      → get j (clients_of p d) ≡ none
      → get l (if same_client d c then (j, m) ∷ pop j (clients_of p d) else clients_of p c) ≡ some n
  put_spares c d l j n m p h missing = elim (Bool-cases (same_client d c)) [
    | inr other ↦ ground arith
    | inl this ↦
        let one = same_client_eq d c this in
        let there : get l (clients_of p d) ≡ some n =
          subst (λ k. get l (clients_of p k) ≡ some n) (sym one) h in
        elim (Bool-cases (eqb j l)) [
          | inl here ↦
              let absent : get l (clients_of p d) ≡ none =
                subst (λ k. get k (clients_of p d) ≡ none) (ground arith) missing in
              absurd (ground arith)
          | inr away ↦ ground (arith, get-put j l m (clients_of p d))
        ]
  ]

  dropped_spares :
      (c d : Client) (l n : ℕ) (p q : Process)
      → get l (clients_of p c) ≡ some n
      → DropEffect d p q
      → ((j : ℕ) → p.loop ≡ some j → (same_client d c && eqb j l) ≡ false)
      → get l (clients_of q c) ≡ some n
  dropped_spares c d l n p q h (idle seams same clients _) other = rw same (clients c l ∙ h)
  dropped_spares c d l n p q h (dropped j m seams at found same clients) other =
      rw same (ground (arith, clients c l, other j at, h))

  -- An operation that spares settings lib a client leaves it in the dictionary.
  acquired_spares :
      (c d : Client) (l j n : ℕ) (p : Process) (r : Result ℕ) (q : Process)
      → get l (clients_of p c) ≡ some n
      → GetEffect d j p r q
      → get l (clients_of q c) ≡ some n
  acquired_spares c d l j n p r q h (kept added seams attempts same clients _ _) =
      rw same (ap (get l) (clients c) ∙ h)
  acquired_spares c d l j n p r q h (made address seams attempts same _ missing clients) =
      rw same (ap (get l) (clients c) ∙ put_spares c d l j n (length p.connections) p h missing)

  performed_spares :
      (c : Client) (l n : ℕ) (o : Option ℕ) (op : Operation) (p : Process)
      → spares settings lib c l (o, op) ≡ true
      → get l (clients_of p c) ≡ some n
      → get l (clients_of (perform settings lib op (at_loop o p)) c) ≡ some n
  unfolding configure
  performed_spares c l n o (reconfigure d address) p h found = ground arith
  performed_spares c l n (some j) (acquire d) p h found =
      acquired_spares c d l j n (at_loop (some j) p) _ _ found
        (get_client-GetEffect settings lib d j (at_loop (some j) p) refl)
  performed_spares c l n none (acquire d) p h found =
      ap (λ m. get l (clients_of m.1 c)) (get_client_outside settings lib d (at_loop none p) refl)
      ∙ ap (get l) (ensured settings lib d c (at_loop none p))
      ∙ found
  performed_spares c l n none (drop d) p h found =
      dropped_spares c d l n (at_loop none p) _ found
        (dispose-DropEffect settings lib d (at_loop none p)) (λ j at. absurd (ground arith))
  performed_spares c l n (some j) (drop d) p h found =
      dropped_spares c d l n (at_loop (some j) p) _ found
        (dispose-DropEffect settings lib d (at_loop (some j) p)) (λ i at. ground arith)

  performed_each :
      (c : Client) (l n : ℕ) (ops : List (Option ℕ × Operation)) (p : Process)
      → IsBound p
      → All (λ o. spares settings lib c l o ≡ true) ops
      → get l (clients_of p c) ≡ some n
      → IsBound (perform_all settings lib ops p)
        × (get l (clients_of (perform_all settings lib ops p) c) ≡ some n)
  performed_each c l n [] p b _ found = (b, found)
  performed_each c l n ((o, op) ∷ ops) p b (h, hs) found =
      performed_each c l n ops (perform settings lib op (at_loop o p))
        (performed-IsBound settings lib op o p b) hs (performed_spares c l n o op p h found)

  get_client_known :
      (c : Client) (l n : ℕ) (p : Process)
      → p.loop ≡ some l
      → get l (clients_of p c) ≡ some n
      → (get_client settings lib c p).0 ≡ ok n
  unfolding found_or_new
  get_client_known c l n p at found =
      ap (λ m. m.0)
        (get_client-found_or_new settings lib c l p at
          ∙ ap
              (λ o.
                found_or_new settings lib c (address_of settings lib c p) l o
                  (ensure_address settings lib c p))
              found)

  pub acquired_known :
      (c : Client) (l n : ℕ) (p q : Process) (r : Result ℕ)
      → r ≡ ok n
      → GetEffect c l p r q
      → get l (clients_of q c) ≡ some n
  unfolding get
  acquired_known c l n p q r h (kept added seams attempts same clients _ known) =
      rw same (ap (get l) (clients c) ∙ known n h)
  acquired_known c l n p q r h (made address seams attempts same is missing clients) = rw same (
      ap (get l) (clients c)
      ∙ ground
          (arith, same_client_refl c, get-put l l (length p.connections) (clients_of p c), is, h))

  -- If every stored client is open and belongs to the loop that it is stored under, and a loop
  -- gets a client, then after any operations on any loops that neither configure that client's
  -- module nor dispose of that loop's client, the loop gets the same client again, and it is open
  -- and belongs to that loop.
  pub get_client_stable :
      (p : Process) (c : Client) (l n : ℕ) (ops : List (Option ℕ × Operation))
      → IsBound p
      → (get_client settings lib c (at_loop (some l) p)).0 ≡ ok n
      → All (λ o. spares settings lib c l o ≡ true) ops
      → let later =
          at_loop (some l) (
            perform_all settings lib ops (perform settings lib (acquire c) (at_loop (some l) p))) in
        ((get_client settings lib c later).0 ≡ ok n)
        × ((a : String) × (object n later.connections ≡ some (connection (client c) a l true)))
  get_client_stable p c l n ops b given spared =
      let q = perform settings lib (acquire c) (at_loop (some l) p) in
      let known =
        acquired_known c l n (at_loop (some l) p) q _ given
          (get_client-GetEffect settings lib c l (at_loop (some l) p) refl) in
      let (b', still) =
        performed_each c l n ops q (performed-IsBound settings lib (acquire c) (some l) p b) spared
          known in
      (
        get_client_known c l n (at_loop (some l) (perform_all settings lib ops q)) refl still,
        b' c l n still,
      )
