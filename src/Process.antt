-- ===== src/Process.antt =====
-- The process around the service: the connections that it opens, the tasks that it runs in the
-- background, and the module globals that name them. An object is known by its number.
pub mod Clients
pub mod Effects
pub mod Opening
pub mod Bound
pub mod Stable
pub mod Background
pub mod Lifespan
pub mod Race
pub mod Leak
pub mod Alone
pub mod Owned
pub mod Stops
pub mod Disowned
pub mod Pools
pub mod Shutdown
pub mod Dead
pub mod Startup
pub mod Serving
pub mod Uptime
pub mod Starting
use uber_clone_python.Base.{
  ℕ, zero, suc, ◌+◌, ◌≤◌, ◌<◌, ⊤, String, ◌==◌, eq_iff, eq_refl, ◌≡◌, refl, sym, ap, ◌∙◌, ◌≢◌, ◌↔◌,
  ◌⊎◌, inl, inr, Bool, true, false, not, ◌&&◌, ◌||◌, Option, none, some, List, [], ◌∷◌, ◌++◌, map,
  Mem, not-mem-nil, All, length, is_empty, is_some, is_text, head?, contains, arith, ltb, leb, eqb,
  if◌then◌else◌, Bool-cases, Option-cases,
}
use uber_clone_python.Exec.{
  Error, http, integrity_error, value_error, decimal_error, redis_error, key_error, runtime_error,
  kafka_error, unicode_error, cancelled_error, Result, ok, err, Result-cases, Exec, pure, raise,
  lift, gets, or_raise, ◌>>=◌, ◌>>◌, raise_if, modify,
}
use uber_clone_python.Models.{
  Float, DateTime, Role, rider, driver, RideStatus, requested, matched, in_progress, completed,
  cancelled, role_value, status_value, role_of, status_of, is_role, is_status, User, Driver, Ride,
  Rating, UserRow, DriverRow, RideRow, RatingRow,
}
use uber_clone_python.Decimal.{Decimal}
use uber_clone_python.Env.{Env, World, Table}
use uber_clone_python.Config.{Settings}
use uber_clone_python.Objects.{object, alter, get, pop}

-- The three modules that keep one client for each event loop.
pub data Client : Type 0 where
  redis_client limit_strategy kafka_producer : Client

pub data Kind : Type 0 where
  client : Client → Kind
  kafka_consumer pub_sub : Kind

-- A client object, with the event loop that its sockets are bound to.
pub record Connection : Type 0 where
  pub kind : Kind
  pub address : String
  pub loop : ℕ
  pub is_open : Bool

-- The globals of one of the three modules: `_url` or `_bootstrap_servers`, and the dictionary.
pub record Seam : Type 0 where
  pub address : Option String
  pub clients : List (ℕ × ℕ)

-- An `asyncio.Task`: it runs, it has ended with a result or an exception, or it was cancelled.
pub data TaskState : Type 0 where
  running : TaskState
  ended : Result ⊤ → TaskState
  stopped : TaskState

-- An SQLAlchemy engine and how many connections its pool holds open.
pub record Engine : Type 0 where
  pub database_url : String
  pub poolclass : Option String
  pub pooled : ℕ

-- `loop` is the running event loop; `attempts` counts the calls that reach for a server.
pub record Process : Type 0 where
  pub loop : Option ℕ
  pub connections : List Connection
  pub tasks : List TaskState
  pub attempts : ℕ
  pub seams : Client → Seam
  pub consumer_servers : Option String
  pub consumer : Option ℕ
  pub consumer_task : Option ℕ
  pub retry_task : Option ℕ
  pub pubsub : Option ℕ
  pub offer_task : Option ℕ
  pub engines : List Engine
  pub engine : Option ℕ
  pub sessionmaker : Option ℕ

-- The client libraries: which addresses they accept, whether the server answers at an attempt, and
-- how many connections a pool of a class holds after a session, from how many before.
pub record Libraries : Type 0 where
  pub accepts_redis : String → Bool
  pub accepts_storage : String → Bool
  pub kafka_answers : ℕ → String → Bool
  pub redis_answers : ℕ → String → Bool
  pub pools : Option String → ℕ → ℕ

-- `asyncio.get_running_loop()`
abbrev pub running_loop : Exec Process ℕ
running_loop p = or_raise p.loop runtime_error p

abbrev pub connection : Kind → String → ℕ → Bool → Connection
connection kind address loop is_open = record {
  kind = kind;
  address = address;
  loop = loop;
  is_open = is_open;
}

-- A new connection object; its number.
abbrev pub connect : Connection → Exec Process ℕ
connect c p = (ok (length p.connections), record p { connections = p.connections ++ c ∷ [] })

abbrev pub shut : Connection → Connection
shut c = record c { is_open = false }

abbrev pub close : ℕ → Process → Process
close n p = record p { connections = alter n shut p.connections }

abbrev pub same_client : Client → Client → Bool
same_client redis_client redis_client = true
same_client limit_strategy limit_strategy = true
same_client kafka_producer kafka_producer = true
same_client _ _ = false

abbrev pub set_seam : Client → Seam → Process → Process
set_seam c seam p = record p { seams = λ d. if same_client c d then seam else p.seams d }
