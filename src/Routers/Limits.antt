-- ===== src/Routers/Limits.antt =====
-- src/ride_service/routers/auth.py: the limiter of registrations and logins.
use uber_clone_python.Base.{
  ℕ, ◌+◌, ◌≤◌, String, ◌==◌, ◌≡◌, ◌≢◌, ◌↔◌, ap, ◌∙◌, inl, inr, true, false, List, [], ◌∷◌, arith,
  if◌then◌else◌, Bool-cases,
}
use uber_clone_python.Exec.{Exec, err}
use uber_clone_python.Env.{Env}
use uber_clone_python.Web.{Web, Site, HttpRequest}
use uber_clone_python.Auth.Cookies.{Reply}
use uber_clone_python.Web.Laws.{IsFixedWindow}
use uber_clone_python.Schemas.{RegisterRequest, LoginRequest, AuthResponse}
use uber_clone_python.RateLimit.{allow}
use uber_clone_python.Repositories.User as UserRepository
use uber_clone_python.Routers.Auth.{
  too_many_attempts, client_ip, register, login, hash_password, new_user, token_reply, verified,
}

-- A call of one of the two endpoints that share the limiter.
pub data Attempt : Type 0 where
  registering : RegisterRequest → HttpRequest → Attempt
  signing_in : LoginRequest → HttpRequest → Attempt

abbrev pub client_of : Attempt → String
client_of (registering body request) = client_ip request
client_of (signing_in body request) = client_ip request

-- How many attempts are a client's.
abbrev pub attempts_of : String → List Attempt → ℕ
attempts_of key [] = 0
attempts_of key (a ∷ rest) = (if client_of a == key then 1 else 0) + attempts_of key rest

module _ {env : Env} (web : Web env) where
  abbrev pub attempt : Attempt → Exec (Site web) (Reply AuthResponse)
  attempt (registering body request) = register web body request
  attempt (signing_in body request) = login web body request

  -- Attempts one after the other, whatever they are answered.
  abbrev pub attempt_all : List Attempt → Site web → Site web
  attempt_all [] s = s
  attempt_all (a ∷ rest) s = attempt_all rest (attempt a s).1

  -- The limiter has counted a call, and nothing else has changed.
  abbrev pub counted : String → Site web → Site web
  counted key s = record s {
    counters =
        (web.limits.hit s.counters s.world.now web.settings.auth_attempts_limit_per_15_min 900
          key).1;
  }

  -- The counters and the clock.
  abbrev Watched : Site web → Site web → Type 0
  Watched before after = (after.counters ≡ before.counters) × (after.world.now ≡ before.world.now)

  register-Watched :
      (body : RegisterRequest) (request : HttpRequest) (s : Site web)
      → Watched (counted (client_ip request) s) (register web body request s).1
  unfolding register allow hash_password new_user token_reply
  register-Watched body request s = ground arith

  login-Watched :
      (body : LoginRequest) (request : HttpRequest) (s : Site web)
      → Watched (counted (client_ip request) s) (login web body request s).1
  unfolding login allow verified token_reply
  login-Watched body request s = ground arith

  attempt-Watched : (a : Attempt) (s : Site web) → Watched (counted (client_of a) s) (attempt a s).1
  attempt-Watched (registering body request) s = register-Watched body request s
  attempt-Watched (signing_in body request) s = login-Watched body request s

  attempt_refused :
      (a : Attempt) (s : Site web)
      → (web.limits.hit s.counters s.world.now web.settings.auth_attempts_limit_per_15_min 900
          (client_of a)).0
        ≡ false
      → attempt a s ≡ (err too_many_attempts, counted (client_of a) s)
  unfolding register login allow
  attempt_refused (registering body request) s h = ground arith
  attempt_refused (signing_in body request) s h = ground arith

  attempt_let_through :
      (a : Attempt) (s : Site web)
      → (web.limits.hit s.counters s.world.now web.settings.auth_attempts_limit_per_15_min 900
          (client_of a)).0
        ≡ true
      → (attempt a s).0 ≢ err too_many_attempts
  unfolding register login allow hash_password new_user token_reply verified
      UserRepository.find_by_username UserRepository.one_or_none UserRepository.optional_user
      UserRepository.user_from_row UserRepository.save UserRepository.exists_by_username
  attempt_let_through (registering body request) s h refused = absurd (ground arith)
  attempt_let_through (signing_in body request) s h refused = absurd (ground arith)

  module _ (F : IsFixedWindow web.limits) where
    -- How many calls of a client the limiter has counted in this window.
    abbrev pub counted_calls : String → Site web → ℕ
    counted_calls key s =
        F.tally s.counters s.world.now web.settings.auth_attempts_limit_per_15_min 900 key

    attempt_counts :
        (a : Attempt) (key : String) (s : Site web)
        → counted_calls key (attempt a s).1
          ≡ (if client_of a == key then 1 else 0) + counted_calls key s
    attempt_counts a key s =
        let (counters, now) = attempt-Watched a s in
        let amount = web.settings.auth_attempts_limit_per_15_min in
        ap (λ c. F.tally c (attempt a s).1.world.now amount 900 key) counters
        ∙ ap (λ t. F.tally (counted (client_of a) s).counters t amount 900 key) now
        ∙ F.tally-hit s.counters s.world.now amount 900 (client_of a) key

    attempts_count :
        (key : String) (attempts : List Attempt) (s : Site web)
        → counted_calls key (attempt_all attempts s)
          ≡ attempts_of key attempts + counted_calls key s
    attempts_count key [] s = omega arith
    attempts_count key (a ∷ rest) s =
        attempts_count key rest (attempt a s).1 ∙ omega (arith, attempt_counts a key s)

    -- For limiters with the fixed-window count: after any registrations and logins by any clients
    -- at one time, whatever they hold and however they are answered, the next registration or
    -- login is answered 429 for too many attempts exactly when its client has made at least as
    -- many of these calls as the limit allows, those that the window had counted before included.
    pub attempts_limited :
        (attempts : List Attempt) (next : Attempt) (s : Site web)
        → ((attempt next (attempt_all attempts s)).0 ≡ err too_many_attempts) ↔ (
            web.settings.auth_attempts_limit_per_15_min
            ≤ attempts_of (client_of next) attempts + counted_calls (client_of next) s)
    attempts_limited attempts next s =
        let t = attempt_all attempts s in
        let amount = web.settings.auth_attempts_limit_per_15_min in
        let calls = attempts_count (client_of next) attempts s in
        let granted = F.hit_granted t.counters t.world.now amount 900 (client_of next) in
        elim (Bool-cases (web.limits.hit t.counters t.world.now amount 900 (client_of next)).0) [
          | inl passed ↦ (
            λ refused. absurd (attempt_let_through next t passed refused),
            λ enough. absurd (ground (arith, calls, granted)),
          )
          | inr stopped ↦ (
            λ refused. ground (arith, calls, granted),
            λ enough. ap (λ m. m.0) (attempt_refused next t stopped),
          )
        ]
