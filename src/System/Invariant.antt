-- ===== src/System/Invariant.antt =====
-- The invariant of the rides, and that every request keeps it.
use uber_clone_python.Base.{
  ℕ, ◌≤◌, ◌<◌, String, ◌≡◌, refl, sym, ◌∙◌, inl, inr, true, false, some, List, [], ◌∷◌, arith,
}
use uber_clone_python.Exec.{ok}
use uber_clone_python.Models.{Ride}
use uber_clone_python.Env.{Env, World}
use uber_clone_python.Env.Laws.{IsLawful}
use uber_clone_python.Repositories.Ride.{read_ride, ride_to_row}
use uber_clone_python.Repositories.Laws.{read_ride-put_cases, id-read_ride}
use uber_clone_python.Repositories.Queries.{is_active}
use uber_clone_python.Services.Ride.Lifecycle.{Step, IsNew, Effect, unchanged, created, moved}
use uber_clone_python.Services.Ride.Steps.{
  HasShape, Step-id, Step-rider_id, Step-active, Step-HasShape, IsNew-HasShape,
}
use uber_clone_python.System.{Request, handle, serve}
use uber_clone_python.System.Effects.{handle-Effect}

module _ (env : Env) where
  -- The table shows `r` under `k`.
  abbrev pub Shows : env.rides.State → String → Ride → Type 0
  Shows s k r = read_ride env s k ≡ ok (some r)

  -- Every ride has a uuid that was drawn and the fields of its status, and no rider has two
  -- active rides.
  pub record IsValid (w : World env) : Type 0 where
    pub ids :
        (k : String) (r : Ride) → Shows w.rides k r → (n : ℕ) × (n < w.drawn) × (k ≡ env.uuid n)
    pub shapes : (k : String) (r : Ride) → Shows w.rides k r → HasShape r
    pub one_active :
        (k j : String) (r s : Ride)
        → Shows w.rides k r
        → Shows w.rides j s
        → r.rider_id ≡ s.rider_id
        → is_active r.status ≡ true
        → is_active s.status ≡ true
        → k ≡ j

  module _ (L : IsLawful env) where
    unchanged-IsValid :
        {before after : World env}
        → after.rides ≡ before.rides
        → before.drawn ≤ after.drawn
        → IsValid before
        → IsValid after
    unchanged-IsValid {before} {after} e d v = record {
      ids = λ k r h. let (n, lt, q) = v.ids k r (rw e at h) in (n, omega arith, q);
      shapes = λ k r h. v.shapes k r (rw e at h);
      one_active = λ k j r s h i. v.one_active k j r s (rw e at h) (rw e at i);
    }

    created-IsValid :
        {before after : World env} (x : Ride)
        → IsNew x
        → x.id ≡ env.uuid before.drawn
        → before.drawn < after.drawn
        → ((k : String) (other : Ride)
            → Shows before.rides k other
            → other.rider_id ≡ x.rider_id
            → is_active other.status ≡ false)
        → after.rides ≡ env.rides.put before.rides (ride_to_row x)
        → IsValid before
        → IsValid after
    created-IsValid {before} {after} x fresh id d alone e v = record {
      ids = λ k r h. elim (read_ride-put_cases env L before.rides x k r (rw e at h)) [
        | inl (at, _) ↦ (before.drawn, d, at ∙ id)
        | inr (old, _) ↦ let (n, lt, q) = v.ids k r old in (n, omega arith, q)
      ];
      shapes = λ k r h. elim (read_ride-put_cases env L before.rides x k r (rw e at h)) [
        | inl (_, same) ↦ rw same (IsNew-HasShape fresh)
        | inr (old, _) ↦ v.shapes k r old
      ];
      one_active = λ k j r s h i rider_eq ar as'.
          elim (read_ride-put_cases env L before.rides x k r (rw e at h)) [
            | inl (at, same) ↦ elim (read_ride-put_cases env L before.rides x j s (rw e at i)) [
              | inl (at', _) ↦ at ∙ sym at'
              | inr (old, _) ↦ absurd (ground (arith, alone j s old))
            ]
            | inr (old, _) ↦ elim (read_ride-put_cases env L before.rides x j s (rw e at i)) [
              | inl (_, same) ↦ absurd (ground (arith, alone k r old))
              | inr (old', _) ↦ v.one_active k j r s old old' rider_eq ar as'
            ]
          ];
    }

    -- What a ride keeps from the one that its key showed before.
    abbrev Follows : Ride → Ride → Type 0
    Follows p r =
        (r.rider_id ≡ p.rider_id)
        × (is_active r.status ≡ true → is_active p.status ≡ true)
        × (HasShape p → HasShape r)

    predecessor :
        (before after : World env) (k : String) (old new : Ride)
        → Shows before.rides k old
        → Step old new
        → after.rides ≡ env.rides.put before.rides (ride_to_row new)
        → (j : String) (r : Ride) → Shows after.rides j r
        → (p : Ride) × Shows before.rides j p × Follows p r
    predecessor before after k old new h0 st e j r h =
        let at_k : new.id ≡ k = Step-id st ∙ id-read_ride env L before.rides k old h0 in
        elim (read_ride-put_cases env L before.rides new j r (rw e at h)) [
          | inl (at, same) ↦ (
            old,
            rw (at, at_k) h0,
            (rw same (Step-rider_id st), rw same (Step-active st), rw same (Step-HasShape st)),
          )
          | inr (was, _) ↦ (r, was, (refl, (λ a. a), (λ a. a)))
        ]

    moved-IsValid :
        {before after : World env} (k : String) (old new : Ride)
        → Shows before.rides k old
        → Step old new
        → before.drawn ≤ after.drawn
        → after.rides ≡ env.rides.put before.rides (ride_to_row new)
        → IsValid before
        → IsValid after
    moved-IsValid {before} {after} k old new h0 st d e v =
        let back = predecessor before after k old new h0 st e in
        record {
          ids = λ j r h.
              let (p, was, _) = back j r h in let (n, lt, q) = v.ids j p was in (n, omega arith, q);
          shapes = λ j r h. let (p, was, keeps) = back j r h in keeps.2 (v.shapes j p was);
          one_active = λ j i r s h g same ar as'.
              let (p, was, keeps) = back j r h in
              let (q, was', keeps') = back i s g in
              v.one_active j i p q was was' (sym keeps.0 ∙ same ∙ keeps'.0) (keeps.1 ar)
                (keeps'.1 as');
        }

    Effect-IsValid :
        {before after : World env} → Effect env before after → IsValid before → IsValid after
    Effect-IsValid (unchanged e d) v = unchanged-IsValid e d v
    Effect-IsValid (created x fresh id d alone e) v = created-IsValid x fresh id d alone e v
    Effect-IsValid (moved k old new h st d e) v = moved-IsValid k old new h st d e v

    -- Whatever the request, and whether it succeeds, the invariant stays.
    pub handle-IsValid : (r : Request) (w : World env) → IsValid w → IsValid (handle env r w)
    handle-IsValid r w v = Effect-IsValid (handle-Effect env L r w) v

    -- In a lawful environment, if the invariant holds it holds after any sequence of requests:
    -- every ride that is read stands under a drawn uuid and has the fields of its status, and no
    -- rider has two active rides.
    pub serve-IsValid : (rs : List Request) (w : World env) → IsValid w → IsValid (serve env rs w)
    unfolding serve
    serve-IsValid [] w v = v
    serve-IsValid (r ∷ rs) w v = serve-IsValid rs (handle env r w) (handle-IsValid r w v)
