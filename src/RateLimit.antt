-- ===== src/RateLimit.antt =====
-- src/ride_service/rate_limit.py: a limiter of so many calls in a window. The strategy object that
-- `get_strategy` keeps for each event loop is in Process/Clients.
use uber_clone_python.Base.{ℕ, String, Bool}
use uber_clone_python.Exec.{ok, Exec}
use uber_clone_python.Env.{Env}
use uber_clone_python.Web.{Web, Site}

-- `RateLimitItemPerSecond(capacity, multiples=int(window_seconds))`
pub record RateLimiter : Type 0 where
  pub capacity : ℕ
  pub window_seconds : ℕ

module _ {env : Env} (web : Web env) where
  unfoldable pub allow : RateLimiter → String → Exec (Site web) Bool
  allow limiter key s =
      let (granted, counters) =
        web.limits.hit s.counters s.world.now limiter.capacity limiter.window_seconds key in
      (ok granted, record s { counters = counters })

  -- The two limiters of state.py.
  abbrev pub ride_request_rate_limiter : RateLimiter
  ride_request_rate_limiter = record {
    capacity = web.settings.ride_request_limit_per_minute;
    window_seconds = 60;
  }

  abbrev pub auth_attempt_rate_limiter : RateLimiter
  auth_attempt_rate_limiter = record {
    capacity = web.settings.auth_attempts_limit_per_15_min;
    window_seconds = 900;
  }
