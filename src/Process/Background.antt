-- ===== src/Process/Background.antt =====
-- The background tasks of src/ride_service/kafka_consumer.py, stale_ride_retry.py and
-- ride_offer_listener.py, started and stopped, and the engine of src/ride_service/db/engine.py.
use uber_clone_python.Base.{
  ℕ, ◌+◌, ⊤, String, ◌==◌, true, false, Option, none, some, List, [], ◌∷◌, ◌++◌, length, is_some,
  if◌then◌else◌,
}
use uber_clone_python.Exec.{
  redis_error, kafka_error, cancelled_error, assertion_error, Result, ok, err, Exec, gets, or_raise,
  ◌>>=◌, ◌>>◌, modify,
}
use uber_clone_python.Base.{◌<>◌}
use uber_clone_python.Config.{Settings}
use uber_clone_python.Dispatch.{ride_offer_channel_prefix}
use uber_clone_python.Objects.{object, alter}
use uber_clone_python.Process.{
  kafka_consumer, pub_sub, Connection, TaskState, running, ended, stopped, Process, Libraries,
  running_loop, connection, connect, shut,
}
use uber_clone_python.Process.Clients.{get_client, get_redis_client}

-- `asyncio.create_task(...)`
abbrev pub create_task : Exec Process ℕ
create_task p = (ok (length p.tasks), record p { tasks = p.tasks ++ running ∷ [] })

-- `task.cancel()`: a task that has ended stays as it is.
abbrev pub cancel : TaskState → TaskState
cancel running = stopped
cancel s = s

-- `await task`
abbrev pub awaited : Option TaskState → Result ⊤
awaited (some (ended r)) = r
awaited (some stopped) = err cancelled_error
awaited _ = ok tt

-- `except asyncio.CancelledError: pass`
abbrev pub uncancelled : Result ⊤ → Result ⊤
uncancelled (err cancelled_error) = ok tt
uncancelled r = r

abbrev pub cancelled_in : Option ℕ → List TaskState → List TaskState
cancelled_in none tasks = tasks
cancelled_in (some n) tasks = alter n cancel tasks

-- `if _task is not None: _task.cancel(); try: await _task; except CancelledError: pass`
unfoldable pub stop_task : Option ℕ → Exec Process ⊤
stop_task none p = (ok tt, p)
stop_task (some n) p =
    let tasks = alter n cancel p.tasks in
    (uncancelled (awaited (object n tasks)), record p { tasks = tasks })

-- `if _consumer is not None: await _consumer.stop()`, and the same for the subscription.
abbrev pub closed_in : Option ℕ → List Connection → List Connection
closed_in none cs = cs
closed_in (some n) cs = alter n shut cs

abbrev pub open_at : ℕ → List Connection → List Connection
open_at n cs = alter n (λ c. record c { is_open = true }) cs

module _ (settings : Settings) (lib : Libraries) where
  -- kafka_consumer.py
  unfoldable pub configure_consumer : String → Process → Process
  configure_consumer servers p = record p { consumer_servers = some servers }

  -- `_bootstrap_servers or settings.kafka_bootstrap_servers`, where an empty text counts as none.
  abbrev pub servers_of : Option String → String
  servers_of none = settings.kafka_bootstrap_servers
  servers_of (some servers) = if servers == "" then settings.kafka_bootstrap_servers else servers

  -- `await _consumer.start()`
  unfoldable pub reach_kafka : ℕ → String → Exec Process ⊤
  reach_kafka n servers p =
      let q : Process = record p { attempts = p.attempts + 1 } in
      if lib.kafka_answers p.attempts servers
      then (ok tt, record q { connections = open_at n q.connections })
      else (err kafka_error, q)

  unfoldable pub start_consumer : Exec Process ⊤
  unfolding reach_kafka
  start_consumer = do
    loop ← running_loop
    servers ← gets (λ p. servers_of p.consumer_servers)
    n ← connect (connection kafka_consumer servers loop false)
    modify (λ p. record p { consumer = some n })
    reach_kafka n servers
    t ← create_task
    modify (λ p. record p { consumer_task = some t })

  unfoldable pub stop_consumer : Exec Process ⊤
  unfolding stop_task
  stop_consumer = do
    task ← gets (λ p. p.consumer_task)
    stop_task task
    modify (λ p. record p { consumer_task = none })
    modify (λ p. record p { connections = closed_in p.consumer p.connections; consumer = none })

  -- stale_ride_retry.py
  unfoldable pub start_retry : Exec Process ⊤
  start_retry = do t ← create_task; modify (λ p. record p { retry_task = some t })

  unfoldable pub stop_retry : Exec Process ⊤
  unfolding stop_task
  stop_retry = do
    task ← gets (λ p. p.retry_task)
    stop_task task
    modify (λ p. record p { retry_task = none })

  -- ride_offer_listener.py: `await _pubsub.psubscribe(...)`
  unfoldable pub subscribe : ℕ → String → Exec Process ⊤
  subscribe n pattern p =
      let q : Process = record p { attempts = p.attempts + 1 } in
      if lib.redis_answers p.attempts pattern
      then (ok tt, record q { connections = open_at n q.connections })
      else (err redis_error, q)

  unfoldable pub start_listener : Exec Process ⊤
  unfolding get_client subscribe
  start_listener = do
    get_redis_client settings lib
    loop ← running_loop
    n ← connect (connection pub_sub (ride_offer_channel_prefix <> "*") loop false)
    modify (λ p. record p { pubsub = some n })
    subscribe n (ride_offer_channel_prefix <> "*")
    t ← create_task
    modify (λ p. record p { offer_task = some t })

  unfoldable pub stop_listener : Exec Process ⊤
  unfolding stop_task
  stop_listener = do
    task ← gets (λ p. p.offer_task)
    stop_task task
    modify (λ p. record p { offer_task = none })
    modify (λ p. record p { connections = closed_in p.pubsub p.connections; pubsub = none })

  -- db/engine.py
  unfoldable pub configure_engine : String → Option String → Process → Process
  configure_engine database_url poolclass p = record p {
    engines =
        p.engines ++ record { database_url = database_url; poolclass = poolclass; pooled = 0 } ∷ [];
    engine = some (length p.engines);
    sessionmaker = some (length p.engines);
  }

  -- The assertion raises when there is still no session factory.
  unfoldable pub get_sessionmaker : Exec Process ℕ
  unfolding configure_engine
  get_sessionmaker = do
    modify
        (λ p. if is_some p.sessionmaker then p else configure_engine settings.database_url none p)
    made ← gets (λ p. p.sessionmaker)
    or_raise made assertion_error

  -- `async with get_sessionmaker()() as session`: the session's connection goes to the pool.
  unfoldable pub use_session : Exec Process ⊤
  unfolding get_sessionmaker
  use_session = do
    n ← get_sessionmaker
    modify (λ p. record p {
      engines = alter n (λ e. record e { pooled = lib.pools e.poolclass e.pooled }) p.engines;
    })

  -- The engine stays usable; only its pool is emptied.
  unfoldable pub dispose_engine : Process → Process
  dispose_engine p = elim p.engine [
    | none ↦ p
    | some n ↦ record p { engines = alter n (λ e. record e { pooled = 0 }) p.engines }
  ]
