-- ===== src/Retry.antt =====
-- src/ride_service/stale_ride_retry.py: one round of the loop that dispatches old requests again,
-- and the loop over its rounds.
use uber_clone_python.Base.{ℕ, ⊤, ◌≡◌, refl, sym, ap, ◌∙◌, List, [], ◌∷◌, ◌++◌, map, arith}
use uber_clone_python.Exec.{Error, Result, ok, err, Exec, pure, gets, modify, ◌>>=◌, ◌>>◌}
use uber_clone_python.Models.{requested, Ride}
use uber_clone_python.Env.{Env, World}
use uber_clone_python.Base.{◌-◌, ◌*◌}
use uber_clone_python.Kafka.{publish_ride_requested, ride_requested_topic}
use uber_clone_python.Repositories.Ride.{find_by_status_and_requested_at_before}
use mathlib.Core.List.{append-nil, append_assoc}

-- `timedelta(minutes=2)`, in microseconds.
abbrev pub retry_cutoff : ℕ
retry_cutoff = 2 * 60 * 1000000

module _ (env : Env) where
  -- `for ride in stale`
  unfoldable pub publish_each : List Ride → Exec (World env) ⊤
  unfolding publish_ride_requested
  publish_each [] = pure tt
  publish_each (ride ∷ stale) = do publish_ride_requested env ride.id; publish_each stale

  -- Times are after the epoch by more than the cutoff; before that no ride is older.
  unfoldable pub retry_once : Exec (World env) ⊤
  unfolding publish_each find_by_status_and_requested_at_before
  retry_once = do
    now ← gets (λ w. w.now)
    stale ← find_by_status_and_requested_at_before env requested (now - retry_cutoff)
    publish_each stale

  -- `_retry_loop` over its rounds: before each round there is a pause, in which anything may happen.
  -- What a round raises is not caught.
  unfoldable pub retry_loop : List (World env → World env) → Exec (World env) ⊤
  unfolding retry_once
  retry_loop [] = pure tt
  retry_loop (pause ∷ pauses) = do modify pause; retry_once; retry_loop pauses

  publish_each_lem :
      (stale : List Ride) (w : World env)
      → publish_each stale w
        ≡ (ok tt, record w { kafka = w.kafka ++ map (λ r. (ride_requested_topic, r.id)) stale })
  unfolding publish_each publish_ride_requested
  publish_each_lem [] w = ap (λ l. (ok tt, record w { kafka = l })) (sym (append-nil w.kafka))
  publish_each_lem (r ∷ stale) w =
      publish_each_lem stale (record w { kafka = w.kafka ++ (ride_requested_topic, r.id) ∷ [] })
      ∙ ap (λ l. (ok tt, record w { kafka = l }))
          (append_assoc w.kafka ((ride_requested_topic, r.id) ∷ []) _)

  -- If the query for requested rides older than two minutes returns rides, then a round of the
  -- retry succeeds, sends one event on the requested topic for each of them, in the order of the
  -- query, and changes nothing else.
  pub retry_once_lem :
      (w : World env) (stale : List Ride)
      → (find_by_status_and_requested_at_before env requested (w.now - retry_cutoff) w).0 ≡ ok stale
      → retry_once w
        ≡ (ok tt, record w { kafka = w.kafka ++ map (λ r. (ride_requested_topic, r.id)) stale })
  unfolding retry_once find_by_status_and_requested_at_before
  retry_once_lem w stale h = ground (arith, publish_each_lem stale w)

  -- The rest of the rounds, unless one has raised.
  abbrev further : List (World env → World env) → Result ⊤ × World env → Result ⊤ × World env
  further pauses m = elim m.0 [ ok _ ↦ retry_loop pauses m.1 | err e ↦ (err e, m.1) ]

  retry_loop-further :
      (pause : World env → World env) (pauses : List (World env → World env)) (w : World env)
      → retry_loop (pause ∷ pauses) w ≡ further pauses (retry_once (pause w))
  unfolding retry_loop
  retry_loop-further pause pauses w = refl

  -- Behind a round that raises.
  pub retry_loop_dead :
      (pauses : List (World env → World env)) (more : List (World env → World env)) (w : World env)
      (e : Error)
      → (retry_loop pauses w).0 ≡ err e
      → retry_loop (pauses ++ more) w ≡ retry_loop pauses w
  unfolding retry_loop
  retry_loop_dead [] more w e h = absurd (ground arith)
  retry_loop_dead (pause ∷ pauses) more w e h =
      let m = retry_once (pause w) in
      retry_loop-further pause (pauses ++ more) w
      ∙ dead pauses more e (λ v. retry_loop_dead pauses more v e) m
          (sym (ap (λ x. x.0) (retry_loop-further pause pauses w)) ∙ h)
      ∙ sym (retry_loop-further pause pauses w)
    where
      dead :
          (pauses : List (World env → World env)) (more : List (World env → World env)) (e : Error)
          → ((v : World env)
              → (retry_loop pauses v).0 ≡ err e
              → retry_loop (pauses ++ more) v ≡ retry_loop pauses v)
          → (m : Result ⊤ × World env) → (further pauses m).0 ≡ err e
          → further (pauses ++ more) m ≡ further pauses m
      dead pauses more e ih (ok x, v) h = ih v h
      dead pauses more e ih (err f, v) h = refl
