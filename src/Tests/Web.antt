-- ===== src/Tests/Web.antt =====
-- The web layer on concrete requests.
use uber_clone_python.Base.{[], ◌∷◌, List, ◌↔◌, ◌≤◌, ◌+◌, ◌≡◌, refl, none, some, arith}
use uber_clone_python.Exec.{Error, ok, err}
use uber_clone_python.Models.{rider, driver, User}
use uber_clone_python.Memory.{empty, memory-IsLawful}
use uber_clone_python.Web.{Site, HttpRequest}
use uber_clone_python.Schemas.{RegisterRequest, LoginRequest, SwitchModeRequest, AuthResponse}
use uber_clone_python.Auth.Cookies.{Reply}
use uber_clone_python.Auth.Jwt.{generate}
use uber_clone_python.Auth.Dependencies.{
  get_current_auth, auth_of_token, extract_token, require_role, resolve_current_user,
  not_authenticated,
}
use uber_clone_python.Auth.Presented.{bearer, get_current_auth-generate}
use uber_clone_python.Routers.Auth.{register, login, switch_mode}
use uber_clone_python.Routers.Guards.{go_offline, run_driver_call, driver_call_refused}
use uber_clone_python.Routers.Tokens.{Backed, switch_mode-Backed}
use uber_clone_python.Routers.Accounts.{
  issued_reply, at_time, register-resolve_current_user, register-login,
}
use uber_clone_python.Text.{after_prefix}
use uber_clone_python.Routers.Auth.{too_many_attempts, client_ip}
use uber_clone_python.Routers.Limits.{
  Attempt, registering, signing_in, attempt, attempt_all, attempts_of, counted_calls,
  attempts_limited,
}
use uber_clone_python.Tests.Gateway.{
  strict, counting_limits-IsFixedWindow, memory_tokens-IsToken, memory_bcrypt-IsBcrypt, gateway,
  front, bare,
}

get_current_auth-generate_example :
    get_current_auth gateway (bearer gateway (generate gateway 0 "ann" rider) bare) front
    ≡ (ok (record { username = "ann"; authorities = rider ∷ [] }), front)
get_current_auth-generate_example =
    get_current_auth-generate gateway memory_tokens-IsToken 0 "ann" rider bare front (omega arith)

no_driver : (require_role gateway driver bare front).0 ≡ err not_authenticated
unfolding require_role get_current_auth auth_of_token extract_token
no_driver = refl

driver_call_refused_example :
    (f : Error) × (run_driver_call gateway go_offline bare front ≡ (err f, front))
driver_call_refused_example =
    driver_call_refused gateway bare front go_offline not_authenticated no_driver

-- An account, and what the service answers.
abbrev ann : RegisterRequest
ann = record { username = "ann"; password = "secret" }

abbrev welcomed : Site gateway
welcomed = (register gateway ann bare front).1

abbrev welcome : Reply AuthResponse
welcome = issued_reply gateway 0 "ann" rider

registered : register gateway ann bare front ≡ (ok welcome, welcomed)
unfolding register
registered = refl

abbrev the_account : User
the_account = record {
  username = "ann";
  password_hash = "secret";
  id = "";
  role = rider;
  avg_rating = none;
  rating_count = 0;
}

register-resolve_current_user_example :
    (u : User) × (resolve_current_user gateway
        (bearer gateway welcome.body.token bare)
        (at_time gateway welcomed 1)
      ≡ (ok u, at_time gateway welcomed 1))
    × (u.username ≡ "ann")
    × (u.role ≡ rider)
    × (gateway.bcrypt.hashpw 0 "secret" ≡ some u.password_hash)
register-resolve_current_user_example =
    register-resolve_current_user gateway memory_tokens-IsToken memory-IsLawful ann bare front
      welcomed welcome registered bare 1 (omega arith) (omega arith)

abbrev credentials : LoginRequest
credentials = record { username = "ann"; password = "secret" }

register-login_example : (login gateway credentials bare welcomed).0 ≡ ok welcome
register-login_example =
    register-login gateway memory_bcrypt-IsBcrypt memory-IsLawful ann bare front welcomed welcome
      registered bare refl

abbrev as_ann : HttpRequest
as_ann = bearer gateway welcome.body.token bare

abbrev to_rider : SwitchModeRequest
to_rider = record { mode = "RIDER" }

switched :
    switch_mode gateway to_rider as_ann welcomed
    ≡ (ok welcome, (switch_mode gateway to_rider as_ann welcomed).1)
unfolding switch_mode after_prefix generate register
switched = refl

switch_mode-Backed_example : Backed gateway to_rider as_ann welcomed welcome.body.token
switch_mode-Backed_example =
    switch_mode-Backed gateway to_rider as_ann welcomed
      (switch_mode gateway to_rider as_ann welcomed).1 welcome switched

abbrev quiet : Site strict
quiet = record { world = empty; counters = []; salts = 0 }

abbrev two_attempts : List Attempt
two_attempts = registering ann bare ∷ signing_in credentials bare ∷ []

attempts_limited_example :
    ((attempt strict (signing_in credentials bare) (attempt_all strict two_attempts quiet)).0
      ≡ err too_many_attempts)
    ↔ (2
        ≤ attempts_of (client_ip bare) two_attempts
          + counted_calls strict counting_limits-IsFixedWindow (client_ip bare) quiet)
attempts_limited_example =
    attempts_limited strict counting_limits-IsFixedWindow two_attempts (signing_in credentials bare)
      quiet
