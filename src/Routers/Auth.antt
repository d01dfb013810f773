-- ===== src/Routers/Auth.antt =====
-- src/ride_service/routers/auth.py
use uber_clone_python.Base.{
  ◌+◌, ⊤, String, ◌==◌, Bool, false, not, Option, none, some, [], ◌∷◌, if◌then◌else◌,
}
use uber_clone_python.Exec.{
  Error, http, value_error, Result, ok, err, Exec, pure, lift, or_raise, ◌>>=◌, ◌>>◌, raise_if,
}
use uber_clone_python.Models.{Role, rider, driver, role_of, is_role, User}
use uber_clone_python.Env.{Env}
use uber_clone_python.Text.{before_comma, strip}
use uber_clone_python.Schemas.{
  RegisterRequest, LoginRequest, SwitchModeRequest, AuthResponse, MeResponse,
}
use uber_clone_python.Web.{Web, Site, HttpRequest, on_world}
use uber_clone_python.RateLimit.{allow, auth_attempt_rate_limiter}
use uber_clone_python.Auth.Cookies.{Reply, plain, issue_token_cookie}
use uber_clone_python.Auth.Dependencies.{get_current_auth}
use uber_clone_python.Repositories.User as UserRepository

abbrev pub too_many_attempts : Error
too_many_attempts = http 429 "Too many attempts — try again later"

abbrev pub invalid_credentials : Error
invalid_credentials = http 401 "Invalid credentials"

-- The peer, where no proxy names the client.
unfoldable pub peer : HttpRequest → String
peer request = elim request.client_host [ none ↦ "unknown" | some host ↦ host ]

unfoldable pub client_ip : HttpRequest → String
unfolding peer before_comma strip
client_ip request = elim request.x_forwarded_for [
  | none ↦ peer request
  | some forwarded ↦ if forwarded == "" then peer request else strip (before_comma forwarded)
]

module _ {env : Env} (web : Web env) where
  -- `_hash_password`, with a fresh salt.
  unfoldable pub hash_password : String → Exec (Site web) String
  hash_password password s = elim (web.bcrypt.hashpw s.salts password) [
    | none ↦ (err value_error, record s { salts = s.salts + 1 })
    | some hash ↦ (ok hash, record s { salts = s.salts + 1 })
  ]

  -- `user is None or not _verify_password(...)`
  unfoldable pub verified : Option User → String → Result Bool
  verified none password = ok false
  verified (some u) password = elim (web.bcrypt.checkpw password u.password_hash) [
    | none ↦ err value_error
    | some matches ↦ ok matches
  ]

  -- `User(...)` with its default fields.
  unfoldable pub new_user : String → String → Exec (Site web) User
  new_user username password_hash s = (
    ok (record {
      username = username;
      password_hash = password_hash;
      id = env.uuid s.world.drawn;
      role = rider;
      avg_rating = none;
      rating_count = 0;
    }),
    record s { world = record s.world { drawn = s.world.drawn + 1 } },
  )

  -- The last lines of three handlers: the token, as a cookie and in the body.
  unfoldable pub token_reply : String → Role → Exec (Site web) (Reply AuthResponse)
  unfolding issue_token_cookie
  token_reply username role = do
    issued ← issue_token_cookie web username role
    pure (record { cookies = issued.1 ∷ []; body = record { token = issued.0 } })

  unfoldable pub register : RegisterRequest → HttpRequest → Exec (Site web) (Reply AuthResponse)
  unfolding allow client_ip UserRepository.exists_by_username UserRepository.save hash_password
      new_user token_reply
  register request http_request = do
    allowed ← allow web (auth_attempt_rate_limiter web) (client_ip http_request)
    raise_if (not allowed) too_many_attempts
    taken ← on_world web (UserRepository.exists_by_username env request.username)
    raise_if taken (http 409 "Username already taken")
    hash ← hash_password request.password
    fresh ← new_user request.username hash
    user ← on_world web (UserRepository.save env fresh)
    token_reply user.username rider

  unfoldable pub login : LoginRequest → HttpRequest → Exec (Site web) (Reply AuthResponse)
  unfolding allow client_ip UserRepository.find_by_username verified token_reply
  login request http_request = do
    allowed ← allow web (auth_attempt_rate_limiter web) (client_ip http_request)
    raise_if (not allowed) too_many_attempts
    found ← on_world web (UserRepository.find_by_username env request.username)
    valid ← lift (verified found request.password)
    raise_if (not valid) invalid_credentials
    user ← or_raise found invalid_credentials
    token_reply user.username user.role

  -- `if requested_mode == DRIVER`: the stored role must be that of a driver. An exception with no
  -- detail has the phrase of its status.
  unfoldable pub check_mode : Role → String → Exec (Site web) ⊤
  unfolding UserRepository.find_by_username
  check_mode rider username = pure tt
  check_mode driver username = do
    found ← on_world web (UserRepository.find_by_username env username)
    user ← or_raise found (http 401 "Unauthorized")
    raise_if (not (is_role user.role driver)) (http 403 "Forbidden")

  unfoldable pub switch_mode :
      SwitchModeRequest → HttpRequest → Exec (Site web) (Reply AuthResponse)
  unfolding get_current_auth role_of check_mode token_reply
  switch_mode request http_request = do
    auth ← get_current_auth web http_request
    requested_mode ← or_raise (role_of (web.upper request.mode)) (http 400 "Invalid mode")
    check_mode requested_mode auth.username
    token_reply auth.username requested_mode

  unfoldable pub me : HttpRequest → Exec (Site web) (Reply MeResponse)
  unfolding get_current_auth UserRepository.find_by_username
  me http_request = do
    auth ← get_current_auth web http_request
    found ← on_world web (UserRepository.find_by_username env auth.username)
    user ← or_raise found (http 401 "Unauthorized")
    pure (plain (record { user_id = user.id }))
