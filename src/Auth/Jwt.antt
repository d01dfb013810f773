-- ===== src/Auth/Jwt.antt =====
-- src/ride_service/auth/jwt.py
use uber_clone_python.Base.{◌+◌, String, Bool, true, false, Option, none, some}
use uber_clone_python.Exec.{key_error, Result, ok, err}
use uber_clone_python.Models.{DateTime, Role, role_value, role_of}
use uber_clone_python.Env.{Env}
use uber_clone_python.Base.{◌*◌}
use uber_clone_python.Web.{Web, Payload}

module _ {env : Env} (web : Web env) where
  unfoldable pub generate : DateTime → String → Role → String
  unfolding role_value
  generate now username role = web.tokens.encode web.settings.jwt_secret (record {
    sub = username;
    role = role_value role;
    iat = now;
    exp = now + web.settings.jwt_expiration_ms * 1000;
  })

  -- `pyjwt.decode`; an invalid token raises.
  abbrev pub decode : DateTime → String → Option Payload
  decode now token = web.tokens.decode web.settings.jwt_secret now token

  -- `payload["sub"]`
  unfoldable pub subject : Payload → Result String
  subject p = elim p.sub [ none ↦ err key_error | some username ↦ ok username ]

  -- `Role(payload["role"])`, where a missing key and an unknown role are no role.
  unfoldable pub claimed_role : Payload → Option Role
  unfolding role_of
  claimed_role p = elim p.role [ none ↦ none | some text ↦ role_of text ]

  unfoldable pub extract_role : DateTime → String → Option Role
  unfolding claimed_role
  extract_role now token = elim (decode now token) [ none ↦ none | some p ↦ claimed_role p ]

  -- `none` is the `InvalidTokenError`.
  unfoldable pub extract_username : DateTime → String → Option (Result String)
  unfolding subject
  extract_username now token = elim (decode now token) [ none ↦ none | some p ↦ some (subject p) ]

  -- Only an `InvalidTokenError` is caught.
  unfoldable pub is_valid : DateTime → String → Result Bool
  unfolding extract_username
  is_valid now token = elim (extract_username now token) [
    | none ↦ ok false
    | some (ok _) ↦ ok true
    | some (err e) ↦ err e
  ]
