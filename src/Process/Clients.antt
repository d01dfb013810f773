-- ===== src/Process/Clients.antt =====
-- src/ride_service/redis_client.py, and the same seam in rate_limit.py and kafka_producer.py: one
-- client for each running event loop, made when it is first asked for.
use uber_clone_python.Base.{
  ℕ, ◌+◌, ⊤, String, true, false, not, Option, none, some, [], ◌∷◌, is_some, if◌then◌else◌,
}
use uber_clone_python.Exec.{
  value_error, kafka_error, ok, err, Exec, pure, gets, ◌>>=◌, ◌>>◌, raise_if, modify,
}
use uber_clone_python.Base.{◌<>◌}
use uber_clone_python.Config.{Settings}
use uber_clone_python.Text.{after_prefix}
use uber_clone_python.Objects.{alter, get, pop}
use uber_clone_python.Process.{
  Client, redis_client, limit_strategy, kafka_producer, client, Process, Libraries, running_loop,
  connection, connect, close, set_seam,
}

module _ (settings : Settings) (lib : Libraries) where
  -- `configure(url)`: a new address, and a new dictionary.
  unfoldable pub configure : Client → String → Process → Process
  configure c address p = set_seam c (record { address = some address; clients = [] }) p

  abbrev pub default_address : Client → String
  default_address redis_client = settings.redis_url
  default_address limit_strategy = settings.redis_url
  default_address kafka_producer = settings.kafka_bootstrap_servers

  abbrev pub address_of : Client → Process → String
  address_of c p = elim (p.seams c).address [ none ↦ default_address c | some address ↦ address ]

  -- `if _url is None: _url = settings.redis_url`
  abbrev pub ensure_address : Client → Process → Process
  ensure_address c p = set_seam c (record (p.seams c) { address = some (address_of c p) }) p

  -- `_url if _url.startswith("async+") else f"async+{_url}"`
  abbrev pub async_url_of : String → String
  async_url_of url = if is_some (after_prefix "async+" url) then url else "async+" <> url

  -- `await producer.start()`, whose failure leaves nothing open.
  unfoldable pub start_producer : ℕ → String → Exec Process ⊤
  start_producer n servers p =
      let q : Process = record p { attempts = p.attempts + 1 } in
      if lib.kafka_answers p.attempts servers
      then (
        ok tt,
        record q { connections = alter n (λ c. record c { is_open = true }) q.connections },
      )
      else (err kafka_error, q)

  -- A new client on the loop: `Redis.from_url`, the strategy over a new storage, or a producer.
  unfoldable pub open_client : Client → String → ℕ → Exec Process ℕ
  unfolding start_producer
  open_client redis_client url loop = do
    raise_if (not (lib.accepts_redis url)) value_error
    connect (connection (client redis_client) url loop true)
  open_client limit_strategy url loop = do
    raise_if (not (lib.accepts_storage (async_url_of url))) value_error
    connect (connection (client limit_strategy) (async_url_of url) loop true)
  open_client kafka_producer servers loop = do
    n ← connect (connection (client kafka_producer) servers loop false)
    start_producer n servers
    pure n

  -- `_clients[loop] = client`
  abbrev pub remember : Client → ℕ → ℕ → Process → Process
  remember c loop n p =
      set_seam c (record (p.seams c) { clients = (loop, n) ∷ pop loop (p.seams c).clients }) p

  unfoldable pub found_or_new : Client → String → ℕ → Option ℕ → Exec Process ℕ
  unfolding open_client
  found_or_new c address loop (some n) = pure n
  found_or_new c address loop none = do
    n ← open_client c address loop
    modify (remember c loop n)
    pure n

  -- `get_redis_client()`, `get_strategy()` and `get_producer()`
  unfoldable pub get_client : Client → Exec Process ℕ
  unfolding found_or_new
  get_client c = do
    modify (ensure_address c)
    loop ← running_loop
    found ← gets (λ p. get loop (p.seams c).clients)
    address ← gets (address_of c)
    found_or_new c address loop found

  close_found : Option ℕ → Process → Process
  close_found none p = p
  close_found (some n) p = close n p

  -- `dispose()` of redis_client.py and kafka_producer.py; rate_limit.py has none.
  unfoldable pub dispose : Client → Process → Process
  unfolding close_found
  dispose c p = elim p.loop [
    | none ↦ p
    | some loop ↦
        let seam = p.seams c in
        close_found (get loop seam.clients)
          (set_seam c (record seam { clients = pop loop seam.clients }) p)
  ]

  -- The functions of the three modules, by their names where these differ.
  abbrev pub configure_redis_client : String → Process → Process
  configure_redis_client url = configure redis_client url

  abbrev pub get_redis_client : Exec Process ℕ
  get_redis_client = get_client redis_client

  abbrev pub dispose_redis_client : Process → Process
  dispose_redis_client = dispose redis_client

  abbrev pub configure_strategy : String → Process → Process
  configure_strategy redis_url = configure limit_strategy redis_url

  abbrev pub get_strategy : Exec Process ℕ
  get_strategy = get_client limit_strategy

  abbrev pub configure_producer : String → Process → Process
  configure_producer bootstrap_servers = configure kafka_producer bootstrap_servers

  abbrev pub get_producer : Exec Process ℕ
  get_producer = get_client kafka_producer

  abbrev pub dispose_producer : Process → Process
  dispose_producer = dispose kafka_producer
