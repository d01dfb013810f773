-- ===== src/Routers/Tokens.antt =====
-- src/ride_service/routers/auth.py: the tokens that switch_mode and login issue.
use uber_clone_python.Base.{String, ◌≡◌, refl, inl, inr, true, some, arith, Option-cases}
use uber_clone_python.Exec.{ok, Result-cases}
use uber_clone_python.Models.{Role, rider, driver, role_of, User}
use uber_clone_python.Env.{Env}
use uber_clone_python.Exec.{ok-or-err}
use uber_clone_python.Schemas.{LoginRequest, SwitchModeRequest, AuthResponse}
use uber_clone_python.Web.{Web, Site, HttpRequest}
use uber_clone_python.Auth.Jwt.{generate}
use uber_clone_python.Auth.Cookies.{Reply, issue_token_cookie}
use uber_clone_python.Auth.Dependencies.{AuthContext, get_current_auth}
use uber_clone_python.Repositories.User as UserRepository
use uber_clone_python.Routers.Auth.{switch_mode, login, token_reply, check_mode}
use uber_clone_python.Routers.Guards.{get_current_auth_site}

module _ {env : Env} (web : Web env) where
  -- A token for the user who asks, in the mode that was asked for, where driver mode is for users
  -- whose stored role is that.
  pub record Backed (body : SwitchModeRequest) (request : HttpRequest) (s : Site web)
      (token : String) : Type 0 where
    pub auth : AuthContext
    pub role : Role
    pub authenticated : (get_current_auth web request s).0 ≡ ok auth
    pub asked : role_of (web.upper body.mode) ≡ some role
    pub is_token : token ≡ generate web s.world.now auth.username role
    pub stored :
        role ≡ driver
        → (u : User) × ((UserRepository.find_by_username env auth.username s.world).0 ≡ ok (some u))
          × (u.role ≡ driver)

  check_mode_passes :
      (role : Role) (username : String) (s : Site web)
      → (check_mode web role username s).0 ≡ ok tt
      → role ≡ driver
      → (u : User) × ((UserRepository.find_by_username env username s.world).0 ≡ ok (some u))
        × (u.role ≡ driver)
  unfolding check_mode
  check_mode_passes rider username s h e = absurd (ground arith)
  check_mode_passes driver username s h e =
      elim (Result-cases (UserRepository.find_by_username env username s.world).0) [
        | inl (f, failed) ↦ absurd (ground arith)
        | inr (inl missing) ↦ absurd (ground arith)
        | inr (inr (u, found)) ↦ (u, found, ground arith)
      ]

  check_mode_site :
      (role : Role) (username : String) (s : Site web) → (check_mode web role username s).1 ≡ s
  unfolding check_mode UserRepository.find_by_username
  check_mode_site rider username s = refl
  check_mode_site driver username s = ground arith

  -- A switch of mode that succeeds was asked for with authentication, and issues a token for the
  -- authenticated user in the mode that was asked for; if that is driver mode, a user of that
  -- name is stored with the role of a driver.
  pub switch_mode-Backed :
      (body : SwitchModeRequest) (request : HttpRequest) (s s' : Site web)
      (reply : Reply AuthResponse)
      → switch_mode web body request s ≡ (ok reply, s')
      → Backed body request s reply.body.token
  unfolding switch_mode token_reply issue_token_cookie
  switch_mode-Backed body request s s' reply h =
      let same = get_current_auth_site web request s in
      elim (ok-or-err (get_current_auth web request s).0) [
        | inl (e, refused) ↦ absurd (ground arith)
        | inr (auth, found) ↦ elim (Option-cases (role_of (web.upper body.mode))) [
          | inl unknown ↦ absurd (ground arith)
          | inr (role, known) ↦ elim (ok-or-err (check_mode web role auth.username s).0) [
            | inl (e, refused) ↦ absurd (ground arith)
            | inr (_, passed) ↦ record {
              auth = auth;
              role = role;
              authenticated = found;
              asked = known;
              is_token = ground (arith, same, check_mode_site role auth.username s);
              stored = check_mode_passes role auth.username s passed;
            }
          ]
        ]
      ]

  -- A login that succeeds found the user and a password that the stored hash accepts; its token is
  -- for that user in the stored role.
  pub login-Backed :
      (body : LoginRequest) (request : HttpRequest) (s s' : Site web) (reply : Reply AuthResponse)
      → login web body request s ≡ (ok reply, s')
      → (u : User) × ((UserRepository.find_by_username env body.username s.world).0 ≡ ok (some u))
        × (web.bcrypt.checkpw body.password u.password_hash ≡ some true)
        × (reply.body.token ≡ generate web s.world.now u.username u.role)
  unfolding login token_reply issue_token_cookie
  login-Backed body request s s' reply h =
      elim (Result-cases (UserRepository.find_by_username env body.username s.world).0) [
        | inl (f, failed) ↦ absurd (ground arith)
        | inr (inl missing) ↦ absurd (ground arith)
        | inr (inr (u, found)) ↦
            elim (Option-cases (web.bcrypt.checkpw body.password u.password_hash)) [
              | inl failed ↦ absurd (ground arith)
              | inr (b, checked) ↦ (u, found, ground arith, ground arith)
            ]
      ]
