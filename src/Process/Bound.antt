-- ===== src/Process/Bound.antt =====
-- Which client a loop gets, whatever the loops do in between.
use uber_clone_python.Base.{
  ℕ, String, ◌≡◌, refl, sym, ap, ◌∙◌, ◌≢◌, inl, inr, Bool, true, false, not, ◌&&◌, Option, none,
  some, List, [], ◌∷◌, ◌++◌, length, arith, eqb, Bool-cases,
}
use uber_clone_python.Exec.{runtime_error, Result, err}
use mathlib.Core.Path.{subst}
use uber_clone_python.Config.{Settings}
use uber_clone_python.Objects.{
  object, get, pop, get-put, object-append_new, object-append_old, object-alter_ne,
}
use uber_clone_python.Process.{
  Client, client, Connection, Process, Libraries, connection, shut, same_client,
}
use uber_clone_python.Process.Clients.{configure, ensure_address, get_client, dispose}
use uber_clone_python.Process.Effects.{
  clients_of, same_client_eq, same_client_refl, ensured, GetEffect, kept, made, DropEffect, idle,
  dropped, dispose-DropEffect,
}
use uber_clone_python.Process.Opening.{get_client-GetEffect}

-- Every client in a dictionary is open and belongs to the loop that it stands under.
abbrev pub IsBound : Process → Type 0
IsBound p =
    (c : Client) (l n : ℕ)
    → get l (clients_of p c) ≡ some n
    → (a : String) × (object n p.connections ≡ some (connection (client c) a l true))

-- What a loop may ask of the three modules.
pub data Operation : Type 0 where
  reconfigure : Client → String → Operation
  acquire : Client → Operation
  drop : Client → Operation

abbrev pub at_loop : Option ℕ → Process → Process
at_loop l p = record p { loop = l }

module _ (settings : Settings) (lib : Libraries) where
  abbrev pub perform : Operation → Process → Process
  perform (reconfigure c address) p = configure settings lib c address p
  perform (acquire c) p = (get_client settings lib c p).1
  perform (drop c) p = dispose settings lib c p

  -- Operations one after the other, each on its loop, or on none.
  abbrev pub perform_all : List (Option ℕ × Operation) → Process → Process
  perform_all [] p = p
  perform_all ((l, op) ∷ ops) p = perform_all ops (perform op (at_loop l p))

  -- An operation that neither configures the client's module nor disposes of the loop's client.
  abbrev pub spares : Client → ℕ → Option ℕ × Operation → Bool
  spares c l (o, reconfigure d address) = not (same_client d c)
  spares c l (o, acquire d) = true
  spares c l (none, drop d) = true
  spares c l (some j, drop d) = not (same_client d c && eqb j l)

  pub get_client_outside :
      (c : Client) (p : Process)
      → p.loop ≡ none
      → get_client settings lib c p ≡ (err runtime_error, ensure_address settings lib c p)
  unfolding get_client
  get_client_outside c p h = ground arith

  new_bound :
      (c d : Client) (l j n : ℕ) (address : String) (p : Process)
      → IsBound p
      → c ≡ d
      → get j ((l, length p.connections) ∷ pop l (clients_of p c)) ≡ some n
      → (a : String) × (object n (p.connections ++ connection (client c) address l true ∷ [])
          ≡ some (connection (client d) a j true))
  new_bound c d l j n address p b same h = elim (Bool-cases (eqb l j)) [
    | inl here ↦
        let last : length p.connections ≡ n =
          ground (arith, get-put l j (length p.connections) (clients_of p c)) in
        let loop : l ≡ j = ground arith in
        (
          address,
          ap (λ m. object m (p.connections ++ connection (client c) address l true ∷ [])) (sym last)
              ∙ object-append_new p.connections _
              ∙ ap (λ k. some (connection (client k) address l true)) same
              ∙ ap (λ k. some (connection (client d) address k true)) loop,
        )
    | inr there ↦
        let (a, is) =
          b c j n (ground (arith, get-put l j (length p.connections) (clients_of p c))) in
        (
          a,
          object-append_old n p.connections _ _ is
              ∙ ap (λ k. some (connection (client k) a j true)) same,
        )
  ]

  -- What a call of `get_client` on the loop leaves of a dictionary and its client.
  pub acquired-IsBound :
      (c : Client) (l : ℕ) (p : Process) (r : Result ℕ) (q : Process)
      → IsBound p
      → GetEffect c l p r q
      → IsBound q
  acquired-IsBound c l p r q b (kept added seams attempts same clients _ _) =
      subst IsBound (sym same) λ d j n h.
        let (a, is) = b d j n (sym (ap (get j) (clients d)) ∙ h) in
        (a, object-append_old n p.connections added _ is)
  acquired-IsBound c l p r q b (made address seams attempts same _ _ clients) =
      subst IsBound (sym same) λ d j n h. elim (Bool-cases (same_client c d)) [
        | inr other ↦
            let (a, is) = b d j n (ground (arith, clients d)) in
            (a, object-append_old n p.connections _ _ is)
        | inl this ↦
            new_bound c d l j n address p b (same_client_eq c d this) (ground (arith, clients d))
      ]

  configured-IsBound :
      (c : Client) (address : String) (p : Process)
      → IsBound p
      → IsBound (configure settings lib c address p)
  unfolding configure get
  configured-IsBound c address p b d l n h = elim (Bool-cases (same_client c d)) [
    | inl this ↦ absurd (ground arith)
    | inr other ↦ b d l n (ground arith)
  ]

  -- Two clients of different modules or loops are two objects.
  clients_apart :
      (c d : Client) (l j n m : ℕ) (a a' : String) (cs : List Connection)
      → object n cs ≡ some (connection (client c) a l true)
      → object m cs ≡ some (connection (client d) a' j true)
      → (same_client c d && eqb l j) ≡ false
      → n ≢ m
  clients_apart c d l j n m a a' cs h g other same =
      let one : connection (client c) a l true ≡ connection (client d) a' j true =
        ground (arith, h, g, same) in
      let kinds : client c ≡ client d = ap (λ (k : Connection). k.kind) one in
      let loops : l ≡ j = ap (λ (k : Connection). k.loop) one in
      let modules : c ≡ d = ground arith in absurd (ground (arith, same_client_refl c))

  disposed-IsBound : (c : Client) (p q : Process) → IsBound p → DropEffect c p q → IsBound q
  disposed-IsBound c p q b (idle seams same clients _) =
      subst IsBound (sym same) λ d j m h. b d j m (sym (clients d j) ∙ h)
  disposed-IsBound c p q b (dropped l n seams at found same clients) =
      subst IsBound (sym same) λ d j m h.
        let other : (same_client c d && eqb l j) ≡ false = ground (arith, clients d j) in
        let (a, is) = b d j m (ground (arith, clients d j)) in
        let (a', was) = b c l n found in
        (
          a,
          object-alter_ne n m shut p.connections
                (clients_apart c d l j n m a' a p.connections was is other)
              ∙ is,
        )

  pub performed-IsBound :
      (op : Operation) (l : Option ℕ) (p : Process) → IsBound p → IsBound (perform op (at_loop l p))
  performed-IsBound (reconfigure c address) l p b = configured-IsBound c address (at_loop l p) b
  performed-IsBound (drop c) l p b =
      disposed-IsBound c (at_loop l p) _ b (dispose-DropEffect settings lib c (at_loop l p))
  performed-IsBound (acquire c) (some l) p b =
      acquired-IsBound c l (at_loop (some l) p) _ _ b
        (get_client-GetEffect settings lib c l (at_loop (some l) p) refl)
  performed-IsBound (acquire c) none p b =
      subst IsBound (sym (ap (λ m. m.1) (get_client_outside c (at_loop none p) refl)))
        λ d j n h. b d j n (sym (ap (get j) (ensured settings lib c d (at_loop none p))) ∙ h)
