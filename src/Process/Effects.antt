-- ===== src/Process/Effects.antt =====
-- What the clients' functions do to the process, without the code: connections are added or one is
-- closed, and the dictionaries keep up with them.
use uber_clone_python.Base.{
  ℕ, String, ◌≡◌, refl, ◌∙◌, inl, inr, true, false, ◌&&◌, none, some, List, [], ◌∷◌, ◌++◌, All,
  length, arith, eqb, if◌then◌else◌, Bool-cases, Option-cases,
}
use uber_clone_python.Exec.{Result, ok}
use mathlib.Core.Path.{subst}
use uber_clone_python.Config.{Settings}
use uber_clone_python.Objects.{alter, get, pop, get-pop}
use uber_clone_python.Process.{
  Client, redis_client, limit_strategy, kafka_producer, client, Connection, Seam, Process,
  Libraries, connection, shut, same_client, set_seam,
}
use uber_clone_python.Process.Clients.{
  address_of, ensure_address, remember, found_or_new, get_client, dispose,
}

pub same_client_eq : (c d : Client) → same_client c d ≡ true → c ≡ d
same_client_eq redis_client redis_client h = refl
same_client_eq limit_strategy limit_strategy h = refl
same_client_eq kafka_producer kafka_producer h = refl
same_client_eq redis_client limit_strategy h = absurd (ground arith)
same_client_eq redis_client kafka_producer h = absurd (ground arith)
same_client_eq limit_strategy redis_client h = absurd (ground arith)
same_client_eq limit_strategy kafka_producer h = absurd (ground arith)
same_client_eq kafka_producer redis_client h = absurd (ground arith)
same_client_eq kafka_producer limit_strategy h = absurd (ground arith)

pub same_client_refl : (c : Client) → same_client c c ≡ true
same_client_refl redis_client = refl
same_client_refl limit_strategy = refl
same_client_refl kafka_producer = refl

-- The dictionary of a module.
abbrev pub clients_of : Process → Client → List (ℕ × ℕ)
clients_of p c = (p.seams c).clients

abbrev pub with_connections : Process → List Connection → (Client → Seam) → ℕ → Process
with_connections p cs seams attempts = record p {
  connections = cs;
  seams = seams;
  attempts = attempts;
}

-- After `get_client c` on loop `l`: nothing new that is open, or one new client.
pub data GetEffect (c : Client) (l : ℕ) (p : Process) (r : Result ℕ) (q : Process) : Type 0 where
  kept :
      (added : List Connection) (seams : Client → Seam) (attempts : ℕ)
      → q ≡ with_connections p (p.connections ++ added) seams attempts
      → ((d : Client) → (seams d).clients ≡ clients_of p d)
      → All (λ k. k.is_open ≡ false) added
      → ((n : ℕ) → r ≡ ok n → get l (clients_of p c) ≡ some n)
      → GetEffect c l p r q
  made :
      (address : String) (seams : Client → Seam) (attempts : ℕ)
      → q
        ≡ with_connections p
            (p.connections ++ connection (client c) address l true ∷ [])
            seams
            attempts
      → r ≡ ok (length p.connections)
      → get l (clients_of p c) ≡ none
      → ((d : Client)
          → (seams d).clients ≡ (
              if same_client c d
              then (l, length p.connections) ∷ pop l (clients_of p c)
              else clients_of p d))
      → GetEffect c l p r q

-- After `dispose` of a module: as before, or the loop's client is closed and forgotten.
pub data DropEffect (c : Client) (p q : Process) : Type 0 where
  idle :
      (seams : Client → Seam)
      → q ≡ with_connections p p.connections seams p.attempts
      → ((d : Client) (j : ℕ) → get j (seams d).clients ≡ get j (clients_of p d))
      → ((l : ℕ) → p.loop ≡ some l → get l (clients_of p c) ≡ none)
      → DropEffect c p q
  dropped :
      (l n : ℕ) (seams : Client → Seam)
      → p.loop ≡ some l
      → get l (clients_of p c) ≡ some n
      → q ≡ with_connections p (alter n shut p.connections) seams p.attempts
      → ((d : Client) (j : ℕ)
          → get j (seams d).clients
            ≡ (if same_client c d && eqb l j then none else get j (clients_of p d)))
      → DropEffect c p q

module _ (settings : Settings) (lib : Libraries) where
  forgotten :
      (c d : Client) (l j : ℕ) (p : Process)
      → get j
          (clients_of (set_seam c (record (p.seams c) { clients = pop l (clients_of p c) }) p) d)
        ≡ (if same_client c d && eqb l j then none else get j (clients_of p d))
  forgotten c d l j p = elim (Bool-cases (same_client c d)) [
    | inl this ↦ ground (arith, get-pop l j (clients_of p c), same_client_eq c d this)
    | inr other ↦ ground arith
  ]

  absent_same :
      (c d : Client) (l j : ℕ) (p : Process)
      → get l (clients_of p c) ≡ none
      → (if same_client c d && eqb l j then none else get j (clients_of p d))
        ≡ get j (clients_of p d)
  absent_same c d l j p missing = elim (Bool-cases (same_client c d)) [
    | inl this ↦
        let here : get l (clients_of p d) ≡ none =
          subst (λ k. get l (clients_of p k) ≡ none) (same_client_eq c d this) missing in
        elim (Bool-cases (eqb l j)) [
          | inl at ↦
              let there : get j (clients_of p d) ≡ none =
                subst (λ k. get k (clients_of p d) ≡ none) (ground arith) here in
              ground arith
          | inr away ↦ ground arith
        ]
    | inr other ↦ ground arith
  ]

  pub dispose-DropEffect : (c : Client) (p : Process) → DropEffect c p (dispose settings lib c p)
  unfolding dispose
  dispose-DropEffect c p = elim (Option-cases p.loop) [
    | inl outside ↦ idle p.seams (rw outside refl) (λ d j. refl) (λ l at. absurd (ground arith))
    | inr (l, at) ↦ elim (Option-cases (get l (clients_of p c))) [
      | inl missing ↦
          idle (set_seam c (record (p.seams c) { clients = pop l (clients_of p c) }) p).seams
            (rw at (rw missing refl)) (λ d j. forgotten c d l j p ∙ absent_same c d l j p missing)
            (λ k there. ground arith)
      | inr (n, found) ↦
          dropped l n (set_seam c (record (p.seams c) { clients = pop l (clients_of p c) }) p).seams
            at found (rw at (rw found refl)) (λ d j. forgotten c d l j p)
    ]
  ]

  -- Only the addresses differ.
  pub ensured :
      (c d : Client) (p : Process) → clients_of (ensure_address settings lib c p) d ≡ clients_of p d
  ensured redis_client redis_client p = refl
  ensured redis_client limit_strategy p = refl
  ensured redis_client kafka_producer p = refl
  ensured limit_strategy redis_client p = refl
  ensured limit_strategy limit_strategy p = refl
  ensured limit_strategy kafka_producer p = refl
  ensured kafka_producer redis_client p = refl
  ensured kafka_producer limit_strategy p = refl
  ensured kafka_producer kafka_producer p = refl

  pub remembered :
      (c d : Client) (l n : ℕ) (p : Process)
      → clients_of (remember settings lib c l n p) d
        ≡ (if same_client c d then (l, n) ∷ pop l (clients_of p c) else clients_of p d)
  remembered c d l n p = ground arith

  pub get_client-found_or_new :
      (c : Client) (l : ℕ) (p : Process)
      → p.loop ≡ some l
      → get_client settings lib c p
        ≡ found_or_new settings lib c
            (address_of settings lib c p)
            l
            (get l (clients_of p c))
            (ensure_address settings lib c p)
  unfolding get_client
  get_client-found_or_new c l p h = ground (arith, ensured c c p, same_client_refl c, h)
