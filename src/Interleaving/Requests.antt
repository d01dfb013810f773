-- ===== src/Interleaving/Requests.antt =====
-- Two requests of one rider at the same time: the check and the write behind it are parted.
use uber_clone_python.Base.{
  ◌+◌, String, eq_iff, eq_refl, ◌≡◌, refl, sym, ap, ◌∙◌, ◌≢◌, inl, inr, false, some, List, [], ◌∷◌,
  arith, Bool-cases,
}
use uber_clone_python.Exec.{http, ok}
use uber_clone_python.Models.{Float, requested, Ride}
use uber_clone_python.Env.{Env, World}
use uber_clone_python.Env.Laws.{IsLawful}
use uber_clone_python.Exec.{ok-or-err}
use uber_clone_python.Repositories.Ride as RideRepository
use uber_clone_python.Repositories.Ride.{read_ride, ride_to_row, active_ride_statuses}
use uber_clone_python.Repositories.Laws.{read_ride-put}
use uber_clone_python.Kafka.{publish_ride_requested}
use uber_clone_python.Services.Ride.{new_ride, calculate_fare, request_ride}
use uber_clone_python.Services.Ride.Refinement.{calculate_fare_world, drawn_ride}
use uber_clone_python.Interleaving.{
  Task, after_call, call, refuse_if, run_alone, save_and_publish, request_ride_steps, Call, request,
  task_of,
}
use uber_clone_python.Interleaving.Alone.{run_alone-task_of}
use uber_clone_python.Interleaving.Schedule.{Office, Tick, go_on, progress, tick, work}
use uber_clone_python.Interleaving.Locking.{
  Unlocked, Unlocked-call, Unlocked-save_and_publish, Unlocked-request_ride_steps,
}
use mathlib.Core.Path.{subst}
use uber_clone_python.Interleaving.Completion.{Finish, nested, finish_unlocked}
use uber_clone_python.Interleaving.Races.{run_pair}

module _ (env : Env) where
  -- The rest of a request behind its check, as steps and as a method.
  abbrev pub creating : String → Float → Float → Float → Float → Task (World env) Ride
  creating rider_id a b c d = call (new_ride env rider_id a b c d) λ ride.
      call (calculate_fare env ride) λ estimated_fare.
        save_and_publish env (record ride { estimated_fare = some estimated_fare })
          (publish_ride_requested env)

  request_began :
      (rider_id : String) (a b c d : Float) (other : Call env) (w : World env)
      → RideRepository.exists_by_rider_id_and_status_in env rider_id active_ride_statuses w
        ≡ (ok false, w)
      → let o = run_pair env (request rider_id a b c d) other w (go_on 0 ∷ []) in
        (o.tasks 0 ≡ creating rider_id a b c d)
        × (o.tasks 1 ≡ task_of env other)
        × (o.world ≡ w)
        × (o.locked ≡ false)
  unfolding work tick progress task_of request_ride_steps call refuse_if
  request_began rider_id a b c d other w h = (
    ap
        (λ r.
          after_call
            (λ active.
              refuse_if active (http 409 "Rider already has an active ride")
                (creating rider_id a b c d))
            r.0)
        h,
    refl,
    ap (λ r. r.1) h,
    refl,
  )

  -- What the rest of a request makes.
  record Created (rider : String) (w : World env) (r : Ride) (w' : World env) : Type 0 where
    id : r.id ≡ env.uuid w.drawn
    of_rider : r.rider_id ≡ rider
    status : r.status ≡ requested
    rides : w'.rides ≡ env.rides.put w.rides (ride_to_row r)
    drawn : w'.drawn ≡ w.drawn + 1

  creating-Created :
      (rider_id : String) (a b c d : Float) (w w' : World env) (r : Ride)
      → run_alone (creating rider_id a b c d) w ≡ (ok r, w')
      → Created rider_id w r w'
  unfolding run_alone call save_and_publish new_ride RideRepository.save publish_ride_requested
  creating-Created rider_id a b c d w w' r h =
      let ride = drawn_ride env w rider_id a b c d in
      let drawn_world : World env = record w { drawn = w.drawn + 1 } in
      let priced = calculate_fare_world env ride drawn_world in
      elim (ok-or-err (calculate_fare env ride drawn_world).0) [
        | inl (e, failed) ↦ absurd (ground arith)
        | inr (fare, known) ↦
            elim (Bool-cases (
              env.admits_ride w.rides (ride_to_row (record ride { estimated_fare = some fare })))) [
                | inr refused ↦ absurd (ground (arith, priced))
                | inl admitted ↦
                    let made : r ≡ record ride { estimated_fare = some fare } =
                      ground (arith, priced) in
                    record {
                      id = rw made refl;
                      of_rider = rw made refl;
                      status = rw made refl;
                      rides = rw made (ground (arith, priced));
                      drawn = ground (arith, priced);
                    }
              ]
      ]

  request_creating :
      (rider_id : String) (a b c d : Float) (w w' : World env) (r : Ride)
      → request_ride env rider_id a b c d w ≡ (ok r, w')
      → (RideRepository.exists_by_rider_id_and_status_in env rider_id active_ride_statuses w
          ≡ (ok false, w))
        × (run_alone (creating rider_id a b c d) w ≡ (ok r, w'))
  unfolding run_alone call save_and_publish request_ride
      RideRepository.exists_by_rider_id_and_status_in
  request_creating rider_id a b c d w w' r h = ground arith

  Unlocked-creating : (rider_id : String) (a b c d : Float) → Unlocked (creating rider_id a b c d)
  Unlocked-creating rider_id a b c d =
      Unlocked-call _ _ λ ride.
        Unlocked-call _ _ λ fare. Unlocked-save_and_publish env _ (publish_ride_requested env)

  -- Both of two rides that were written one after the other are there.
  both_read :
      (L : IsLawful env) (rides : env.rides.State) (r s : Ride)
      → r.id ≢ s.id
      → let after = env.rides.put (env.rides.put rides (ride_to_row r)) (ride_to_row s) in
        (read_ride env after r.id ≡ ok (some r)) × (read_ride env after s.id ≡ ok (some s))
  both_read L rides r s apart =
      let first = env.rides.put rides (ride_to_row r) in
      (
        ground (
          arith,
          read_ride-put env L first s r.id,
          read_ride-put env L rides r r.id,
          eq_refl r.id,
          eq_iff s.id r.id,
        ),
        ground (arith, read_ride-put env L first s s.id, eq_refl s.id),
      )

  -- In a lawful environment: if a request of a rider would succeed, and the part of another
  -- request of that rider behind its check would succeed after it, then there is an order of the
  -- steps of the two in which both end with success and two rides of the rider are stored as
  -- requested.
  pub request_twice :
      (L : IsLawful env) (rider_id : String) (a b c d a' b' c' d' : Float) (w w' w'' : World env)
      (r s : Ride)
      → request_ride env rider_id a' b' c' d' w ≡ (ok r, w')
      → run_alone (creating rider_id a b c d) w' ≡ (ok s, w'')
      → let after = run_pair env (request rider_id a b c d) (request rider_id a' b' c' d') w in
        (ticks : List (Tick env)) × ((after ticks).tasks 0 ≡ Task.done (ok s))
        × ((after ticks).tasks 1 ≡ Task.done (ok r))
        × (r.id ≢ s.id)
        × (r.rider_id ≡ rider_id)
        × (s.rider_id ≡ rider_id)
        × (r.status ≡ requested)
        × (s.status ≡ requested)
        × (read_ride env (after ticks).world.rides r.id ≡ ok (some r))
        × (read_ride env (after ticks).world.rides s.id ≡ ok (some s))
  request_twice L rider_id a b c d a' b' c' d' w w' w'' r s whole part =
      let (none_active, made) = request_creating rider_id a' b' c' d' w w' r whole in
      let m = creating-Created rider_id a' b' c' d' w w' r made in
      let n = creating-Created rider_id a b c d w' w'' s part in
      let second : Call env = request rider_id a' b' c' d' in
      let o = run_pair env (request rider_id a b c d) second w (go_on 0 ∷ []) in
      let (at0, at1, same, free) = request_began rider_id a b c d second w none_active in
      let both =
        nested (creating rider_id a b c d) (task_of env second) o o.locked (ok s) (ok r) w' w'' at0
          at1 (unfold task_of in Unlocked-request_ride_steps env rider_id a' b' c' d')
          (λ p at unchanged.
            subst (λ l. Finish l 0 (creating rider_id a b c d) p) unchanged
              (finish_unlocked 0 (creating rider_id a b c d) p at
                (Unlocked-creating rider_id a b c d)))
          (rw same (run_alone-task_of env second w ∙ whole)) part in
      let split : run_pair env (request rider_id a b c d) second w (go_on 0 ∷ both.ticks)
          ≡ work both.ticks o =
        unfold work in refl in
      let apart : r.id ≢ s.id = λ e.
        absurd (omega (arith, L.uuid_injective w.drawn w'.drawn (sym m.id ∙ e ∙ n.id), m.drawn)) in
      let rides =
        ap (λ (x : Office env). x.world.rides) split
        ∙ ap (λ (x : World env). x.rides) both.world
        ∙ n.rides
        ∙ ap (λ t. env.rides.put t (ride_to_row s)) m.rides in
      let (read_r, read_s) = both_read L w.rides r s apart in
      (
        go_on 0 ∷ both.ticks,
        ap (λ (x : Office env). x.tasks 0) split ∙ both.outer,
        ap (λ (x : Office env). x.tasks 1) split ∙ both.inner,
        apart,
        m.of_rider,
        n.of_rider,
        m.status,
        n.status,
        ap (λ t. read_ride env t r.id) rides ∙ read_r,
        ap (λ t. read_ride env t s.id) rides ∙ read_s,
      )
