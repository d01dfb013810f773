-- ===== src/System/History.antt =====
-- What a ride may become over any sequence of requests.
use uber_clone_python.Base.{
  ◌≤◌, String, ◌==◌, eq_iff, ◌≡◌, refl, sym, ◌∙◌, ◌≢◌, inl, inr, List, [], ◌∷◌, arith, Bool-cases,
}
use uber_clone_python.Models.{completed, cancelled, Ride}
use uber_clone_python.Env.{Env, World}
use uber_clone_python.Env.Laws.{IsLawful}
use uber_clone_python.Repositories.Laws.{read_ride-put, id-read_ride}
use uber_clone_python.Services.Ride.Lifecycle.{Step, Effect, unchanged, created, moved}
use uber_clone_python.Services.Ride.Steps.{Step-id, Step-version, Step-completed, Step-cancelled}
use uber_clone_python.System.{Request, handle, serve}
use uber_clone_python.System.Effects.{handle-Effect}
use uber_clone_python.System.Invariant.{Shows, IsValid, handle-IsValid}

-- Steps of the lifecycle, one after the other.
pub data Course : Ride → Ride → Type 0 where
  here : {r : Ride} → Course r r
  next : {p q r : Ride} → Step p q → Course q r → Course p r

join : {p q r : Ride} → Course p q → Course q r → Course p r
join here b = b
join (next s a) b = next s (join a b)

pub completed_path : {p r : Ride} → Course p r → p.status ≡ completed → r ≡ p
completed_path here h = refl
completed_path (next s rest) h = absurd (Step-completed s h)

pub cancelled_path : {p r : Ride} → Course p r → p.status ≡ cancelled → r.status ≡ cancelled
cancelled_path here h = h
cancelled_path (next s rest) h = cancelled_path rest (Step-cancelled s h)

-- The version counts the steps.
version_grows : {p r : Ride} → Course p r → p.version ≤ r.version
version_grows here = omega arith
version_grows (next s rest) = omega (arith, Step-version s, version_grows rest)

pub same_version : {p r : Ride} → Course p r → p.version ≡ r.version → p ≡ r
same_version here h = refl
same_version (next s rest) h = absurd (omega (arith, Step-version s, version_grows rest))

module _ (env : Env) (L : IsLawful env) where
  Effect-path :
      {before after : World env}
      → Effect env before after
      → IsValid env before
      → (k : String) (r : Ride) → Shows env before.rides k r
      → (r' : Ride) × Shows env after.rides k r' × Course r r'
  Effect-path (unchanged e d) v k r h = (r, rw e h, here)
  Effect-path {before} (created x fresh id d alone e) v k r h =
      let (n, lt, q) = v.ids k r h in
      let other : x.id ≢ k =
        λ same. absurd (omega (arith, L.uuid_injective before.drawn n (sym id ∙ same ∙ q))) in
      (r, rw e (ground (arith, read_ride-put env L before.rides x k, eq_iff x.id k)), here)
  Effect-path {before} (moved j old new h0 st d e) v k r h = elim (Bool-cases (new.id == k)) [
    | inl same ↦
        let at_j : k ≡ j =
          sym ((eq_iff new.id k).0 same) ∙ Step-id st ∙ id-read_ride env L before.rides j old h0 in
        let r_old : r ≡ old = ground arith in
        (
          new,
          rw e (ground (arith, read_ride-put env L before.rides new k)),
          rw r_old (next st here),
        )
    | inr other ↦ (r, rw e (ground (arith, read_ride-put env L before.rides new k)), here)
  ]

  -- In a lawful environment where the invariant holds, a ride that is read is still there after
  -- any sequence of requests, and it became what it is by steps of the lifecycle.
  pub serve_path :
      (rs : List Request) (w : World env)
      → IsValid env w
      → (k : String) (r : Ride) → Shows env w.rides k r
      → (r' : Ride) × Shows env (serve env rs w).rides k r' × Course r r'
  unfolding serve
  serve_path [] w v k r h = (r, h, here)
  serve_path (q ∷ rs) w v k r h =
      let (r1, h1, p1) = Effect-path (handle-Effect env L q w) v k r h in
      let (r2, h2, p2) = serve_path rs (handle env q w) (handle-IsValid env L q w v) k r1 h1 in
      (r2, h2, join p1 p2)

  -- In a lawful environment where the invariant holds, a completed ride is the very same ride,
  -- fare included, after any sequence of requests.
  pub completed_final :
      (rs : List Request) (w : World env) (k : String) (r : Ride)
      → IsValid env w
      → Shows env w.rides k r
      → r.status ≡ completed
      → Shows env (serve env rs w).rides k r
  completed_final rs w k r v h done =
      let (r', h', course) = serve_path rs w v k r h in rw (completed_path course done) at h'

  -- In a lawful environment where the invariant holds, a cancelled ride is still there and still
  -- cancelled after any sequence of requests.
  pub cancelled_final :
      (rs : List Request) (w : World env) (k : String) (r : Ride)
      → IsValid env w
      → Shows env w.rides k r
      → r.status ≡ cancelled
      → (r' : Ride) × Shows env (serve env rs w).rides k r' × (r'.status ≡ cancelled)
  cancelled_final rs w k r v h gone =
      let (r', h', course) = serve_path rs w v k r h in (r', h', cancelled_path course gone)

  -- In a lawful environment where the invariant holds, if a ride has the same version before and
  -- after a sequence of requests, it is the same ride in every field.
  pub version_identifies :
      (rs : List Request) (w : World env) (k : String) (r r' : Ride)
      → IsValid env w
      → Shows env w.rides k r
      → Shows env (serve env rs w).rides k r'
      → r.version ≡ r'.version
      → r ≡ r'
  version_identifies rs w k r r' v h h' same =
      let (r2, h2, course) = serve_path rs w v k r h in
      let e : r2 ≡ r' = ground arith in same_version course (rw e same) ∙ e
