-- ===== src/Web.antt =====
-- What the web layer calls and does not implement: PyJWT, bcrypt, the fixed-window limiter of the
-- `limits` package and `str.upper`, with the documented behaviour that theorems rely on; and the
-- state and the requests of that layer.
pub mod Laws
use uber_clone_python.Base.{
  ℕ, zero, suc, ◌+◌, ◌≤◌, ◌<◌, ⊤, String, ◌==◌, eq_iff, eq_refl, ◌≡◌, refl, sym, ap, ◌∙◌, ◌≢◌, ◌↔◌,
  ◌⊎◌, inl, inr, Bool, true, false, not, ◌&&◌, ◌||◌, Option, none, some, List, [], ◌∷◌, ◌++◌, map,
  Mem, not-mem-nil, All, length, is_empty, is_some, is_text, head?, contains, arith, ltb, leb, eqb,
  if◌then◌else◌, Bool-cases, Option-cases,
}
use uber_clone_python.Exec.{
  Error, http, integrity_error, value_error, decimal_error, redis_error, key_error, Result, ok, err,
  Result-cases, Exec, pure, raise, lift, gets, or_raise, ◌>>=◌, ◌>>◌, raise_if, modify,
}
use uber_clone_python.Models.{
  Float, DateTime, Role, rider, driver, RideStatus, requested, matched, in_progress, completed,
  cancelled, role_value, status_value, role_of, status_of, is_role, is_status, User, Driver, Ride,
  Rating, UserRow, DriverRow, RideRow, RatingRow,
}
use uber_clone_python.Decimal.{Decimal}
use uber_clone_python.Env.{Env, World, Table}
use uber_clone_python.Config.{Settings}

-- What a token holds: `sub`, `role`, and the two times, in microseconds.
pub record Claims : Type 0 where
  pub sub : String
  pub role : String
  pub iat : DateTime
  pub exp : DateTime

-- What a decoded token says; `none` is a key that is not there, or a role that is no text.
pub record Payload : Type 0 where
  pub sub : Option String
  pub role : Option String

-- Encoding, and decoding at a time: `none` is an `InvalidTokenError` (signature, form, expiry).
pub record TokenOps : Type 0 where
  pub encode : String → Claims → String
  pub decode : String → DateTime → String → Option Payload

-- `bcrypt.hashpw(password, bcrypt.gensalt())` with the n-th salt, and `bcrypt.checkpw`; `none` is
-- the `ValueError` that bcrypt raises.
pub record BcryptOps : Type 0 where
  pub hashpw : ℕ → String → Option String
  pub checkpw : String → String → Option Bool

-- `FixedWindowRateLimiter.hit` on an item of `amount` hits in a window of so many seconds.
pub record LimitOps : Type 1 where
  pub State : Type 0
  pub hit : State → DateTime → (amount multiples : ℕ) → String → Bool × State

pub record Web (env : Env) : Type 1 where
  pub tokens : TokenOps
  pub bcrypt : BcryptOps
  pub limits : LimitOps
  pub upper : String → String
  pub settings : Settings

-- The world behind the services, the counters of the limiters, and how many salts were drawn.
pub record Site {env : Env} (web : Web env) : Type 0 where
  pub world : World env
  pub counters : web.limits.State
  pub salts : ℕ

-- What the code reads of a request: two headers, one cookie, and the address of the peer.
pub record HttpRequest : Type 0 where
  pub authorization : Option String
  pub auth_token : Option String
  pub x_forwarded_for : Option String
  pub client_host : Option String

module _ {env : Env} (web : Web env) where
  -- A call of a service or a repository from the web layer.
  abbrev pub on_world : {A : Type 0} → Exec (World env) A → Exec (Site web) A
  on_world m s = let (r, w) = m s.world in (r, record s { world = w })
