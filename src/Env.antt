-- ===== src/Env.antt =====
-- What the program calls and does not implement: float arithmetic, Postgres behind SQLAlchemy,
-- Redis, uuid4, JSON text. Each is a record of operations, a parameter of the model; `IsLawful`
-- states the documented behaviour that the theorems rely on. `World` is the state of one running
-- process and of the services behind it.
pub mod Laws
use uber_clone_python.Base.{ℕ, ℤ, String, Bool, Option, List}
use uber_clone_python.Decimal.{Decimal}
use uber_clone_python.Models.{Float, DateTime, UserRow, DriverRow, RideRow, RatingRow}
use uber_clone_python.Sse.{Registry}

-- Python floats and the functions of `math` that the program calls. `none` is the `ValueError` or
-- `OverflowError` that the function raises.
pub record FloatOps : Type 0 where
  -- The float nearest to n / 10 ^ k: the literals of the source.
  pub literal : ℕ → ℕ → Float
  pub add : Float → Float → Float
  pub sub : Float → Float → Float
  pub mul : Float → Float → Float
  pub div : Float → Float → Float
  pub radians : Float → Float
  pub square : Float → Float
  pub sin : Float → Option Float
  pub cos : Float → Option Float
  pub asin : Float → Option Float
  pub sqrt : Float → Option Float
  -- `int(x)`
  pub truncate : Float → Option ℤ
  -- `Decimal(str(x))`, `float(d)` and an integer as a float
  pub to_decimal : Float → Decimal
  pub of_decimal : Decimal → Float
  pub of_int : ℤ → Float

-- The values of the JSON objects that the program writes.
pub data JsonValue : Type 0 where
  text : String → JsonValue
  float : Float → JsonValue
  int : ℕ → JsonValue
  null : JsonValue

-- One table of Postgres behind the session methods: `get` is `session.get`, `put` what `merge` and
-- `commit` leave, and `select` the rows of a SELECT with that WHERE clause, in the order in which
-- the server returns them. `ordered` is such a SELECT with ORDER BY of that column, descending.
pub record Table (Row : Type 0) : Type 1 where
  pub State : Type 0
  pub get : State → String → Option Row
  pub put : State → Row → State
  pub select : State → (Row → Bool) → List Row
  pub ordered : State → (Row → Bool) → (Row → DateTime) → List Row

-- The plain sets of Redis, under keys that never expire.
pub record SetOps : Type 1 where
  pub State : Type 0
  pub sadd : State → String → String → State
  pub srem : State → String → String → State
  pub sismember : State → String → String → Bool

-- The sets of Redis under keys with an expiry; the first number is the time of the call, in
-- microseconds, and a time to live is in seconds.
pub record ExpiringSetOps : Type 1 where
  pub State : Type 0
  pub sadd : State → ℕ → String → List String → State
  pub expire : State → ℕ → String → ℕ → State
  pub smembers : State → ℕ → String → List String
  pub delete : State → ℕ → String → State

-- The geo-indexes of Redis. `none` is the `ResponseError` on a longitude or latitude out of range.
-- Positions are (longitude, latitude). `geosearch` has unit km, sort ASC and WITHDIST.
pub record GeoOps : Type 1 where
  pub State : Type 0
  pub geoadd : State → String → Float → Float → String → Option State
  pub zrem : State → String → String → State
  pub geopos : State → String → String → Option (Float × Float)
  pub geosearch : State → String → Float → Float → Float → ℕ → Option (List (String × Float))

-- The texts of Redis: GET, and SET with EX, at the time of the call.
pub record StringOps : Type 1 where
  pub State : Type 0
  pub get : State → ℕ → String → Option String
  pub set_ex : State → ℕ → String → String → ℕ → State

pub record Env : Type 1 where
  pub floats : FloatOps
  pub users : Table UserRow
  pub drivers : Table DriverRow
  pub rides : Table RideRow
  pub ratings : Table RatingRow
  -- Whether the constraints of the schema admit the row: uniqueness, the foreign key from drivers
  -- to users, and the widths of the columns. If not, `commit` raises and nothing is written.
  pub admits_user : users.State → UserRow → Bool
  pub admits_driver : users.State → drivers.State → DriverRow → Bool
  pub admits_ride : rides.State → RideRow → Bool
  pub admits_rating : ratings.State → RatingRow → Bool
  -- SQL `BETWEEN` on a double column: value, low, high.
  pub between : Float → Float → Float → Bool
  pub sets : SetOps
  pub expiring : ExpiringSetOps
  pub geo : GeoOps
  pub strings : StringOps
  -- The uuid that the n-th call of `uuid.uuid4` gives.
  pub uuid : ℕ → String
  -- `str(d)` and `Decimal(s)`; `f"{x:.2f}"`; and `json.dumps` of an object with these fields, in order.
  pub decimal_text : Decimal → String
  pub text_decimal : String → Decimal
  pub two_places_text : Float → String
  pub json_dumps : List (String × JsonValue) → String

-- The state of the process and of the services. `kafka` and `published` are what was sent so far,
-- in order: (topic, ride id) and (channel, payload). `now` is the clock, `drawn` counts the uuids.
pub record World (env : Env) : Type 0 where
  pub users : env.users.State
  pub drivers : env.drivers.State
  pub rides : env.rides.State
  pub ratings : env.ratings.State
  pub sets : env.sets.State
  pub expiring : env.expiring.State
  pub geo : env.geo.State
  pub strings : env.strings.State
  pub kafka : List (String × String)
  pub published : List (String × String)
  pub registry : Registry
  pub now : DateTime
  pub drawn : ℕ
