-- ===== src/Routers/Accounts.antt =====
-- src/ride_service/routers/auth.py: the account that register makes, presented by its token and its
-- password.
use uber_clone_python.Base.{
  ◌≤◌, ◌<◌, String, ◌==◌, ◌≡◌, refl, sym, ap, ◌∙◌, inl, inr, true, none, some, [], ◌∷◌, is_empty,
  arith, Option-cases,
}
use uber_clone_python.Exec.{ok}
use uber_clone_python.Models.{DateTime, Role, rider, User}
use uber_clone_python.Env.{Env}
use uber_clone_python.Base.{◌/◌}
use uber_clone_python.Schemas.{RegisterRequest, LoginRequest, AuthResponse}
use uber_clone_python.Web.{Web, Site, HttpRequest}
use uber_clone_python.Web.Laws.{IsToken, IsBcrypt}
use uber_clone_python.Auth.Jwt.{generate}
use uber_clone_python.Auth.Cookies.{cookie_name, Reply, issue_token_cookie}
use uber_clone_python.Auth.Dependencies.{
  resolve_current_user, AuthContext, get_current_auth, authorities_of,
}
use uber_clone_python.Repositories.User as UserRepository
use uber_clone_python.Env.Laws.{IsLawful}
use uber_clone_python.RateLimit.{allow}
use uber_clone_python.Repositories.Accounts.{find_by_username-put}
use uber_clone_python.Auth.Presented.{expiry, bearer, get_current_auth-generate}
use uber_clone_python.Routers.Auth.{
  client_ip, verified, hash_password, new_user, login, register, token_reply,
}

module _ {env : Env} (web : Web env) where
  -- A reply with the token of a user, in the cookie and in the body.
  abbrev pub issued_reply : DateTime → String → Role → Reply AuthResponse
  issued_reply now username role =
      let token = generate web now username role in
      record {
        cookies =
            record {
              key = cookie_name;
              value = token;
              httponly = true;
              secure = web.settings.cookie_secure;
              path = "/";
              max_age = web.settings.jwt_expiration_ms / 1000;
            }
            ∷ [];
        body = record { token = token };
      }

  -- What a registration leaves.
  pub record Registered (body : RegisterRequest) (s s' : Site web) (reply : Reply AuthResponse)
      : Type 0 where
    pub user : User
    pub named : user.username ≡ body.username
    pub is_rider : user.role ≡ rider
    pub hashed : web.bcrypt.hashpw s.salts body.password ≡ some user.password_hash
    pub is_reply : reply ≡ issued_reply s.world.now body.username rider
    pub users : s'.world.users ≡ env.users.put s.world.users (UserRepository.user_to_row user)
    pub now : s'.world.now ≡ s.world.now
    pub was_free :
        is_empty (env.users.select s.world.users (λ row. row.username == body.username)) ≡ true

  register-Registered :
      (body : RegisterRequest) (request : HttpRequest) (s s' : Site web)
      (reply : Reply AuthResponse)
      → register web body request s ≡ (ok reply, s')
      → Registered body s s' reply
  unfolding register token_reply issue_token_cookie hash_password new_user UserRepository.save
      UserRepository.exists_by_username allow
  register-Registered body request s s' reply h =
      elim (Option-cases (web.bcrypt.hashpw s.salts body.password)) [
        | inl failed ↦ absurd (ground arith)
        | inr (hash, hashed) ↦ record {
          user = record {
            username = body.username;
            password_hash = hash;
            id = env.uuid s.world.drawn;
            role = rider;
            avg_rating = none;
            rating_count = 0;
          };
          named = refl;
          is_rider = refl;
          hashed = hashed;
          is_reply = ground arith;
          users = ground arith;
          now = ground arith;
          was_free = ground arith;
        }
      ]

  abbrev pub at_time : Site web → DateTime → Site web
  at_time s t = record s { world = record s.world { now = t } }

  resolve_known :
      (request : HttpRequest) (s : Site web) (auth : AuthContext) (u : User)
      → get_current_auth web request s ≡ (ok auth, s)
      → UserRepository.find_by_username env auth.username s.world ≡ (ok (some u), s.world)
      → resolve_current_user web request s ≡ (ok u, s)
  unfolding resolve_current_user
  resolve_known request s auth u h e = ground arith

  -- For a token codec that decodes what it encoded, in a lawful environment: after a registration
  -- has succeeded, a request with the token of its reply is resolved, until the token expires, to
  -- a rider with the name that was registered and a hash of the password that was given.
  pub register-resolve_current_user :
      (T : IsToken web.tokens) (L : IsLawful env) (body : RegisterRequest) (request : HttpRequest)
      (s s' : Site web) (reply : Reply AuthResponse)
      → register web body request s ≡ (ok reply, s')
      → (again : HttpRequest) (t : DateTime) → s.world.now ≤ t
      → t < expiry web s.world.now
      → (u : User) × (resolve_current_user web (bearer web reply.body.token again) (at_time s' t)
          ≡ (ok u, at_time s' t))
        × (u.username ≡ body.username)
        × (u.role ≡ rider)
        × (web.bcrypt.hashpw s.salts body.password ≡ some u.password_hash)
  register-resolve_current_user T L body request s s' reply h again t after fresh =
      let r = register-Registered body request s s' reply h in
      let later = at_time s' t in
      let auth : AuthContext = record {
        username = body.username;
        authorities = authorities_of (some rider);
      } in
      let known =
        get_current_auth-generate web T s.world.now body.username rider again later after in
      let known' : get_current_auth web
            (bearer web (generate web s.world.now body.username rider) again) later
          ≡ (ok auth, later) =
        ground arith in
      let shown : get_current_auth web (bearer web reply.body.token again) later
          ≡ (ok auth, later) =
        rw r.is_reply known' in
      let read =
        find_by_username-put env L s.world later.world r.user (rw r.named r.was_free) r.users in
      (
        r.user,
        resolve_known (bearer web reply.body.token again) later auth r.user shown
            (rw r.named at read),
        r.named,
        r.is_rider,
        r.hashed,
      )

  login_known :
      (body : LoginRequest) (request : HttpRequest) (s : Site web) (u : User)
      → (web.limits.hit s.counters s.world.now web.settings.auth_attempts_limit_per_15_min 900
          (client_ip request)).0
        ≡ true
      → UserRepository.find_by_username env body.username s.world ≡ (ok (some u), s.world)
      → web.bcrypt.checkpw body.password u.password_hash ≡ some true
      → (login web body request s).0 ≡ ok (issued_reply s.world.now u.username u.role)
  unfolding login token_reply issue_token_cookie allow verified
  login_known body request s u granted found right = ground arith

  -- For hashes that accept their password, in a lawful environment: after a registration has
  -- succeeded, a login with the same name and password, if the limiter lets it through, succeeds
  -- at that time with the same reply.
  pub register-login :
      (B : IsBcrypt web.bcrypt) (L : IsLawful env) (body : RegisterRequest) (request : HttpRequest)
      (s s' : Site web) (reply : Reply AuthResponse)
      → register web body request s ≡ (ok reply, s')
      → (again : HttpRequest)
      → (web.limits.hit s'.counters s'.world.now web.settings.auth_attempts_limit_per_15_min 900
          (client_ip again)).0
        ≡ true
      → (login web (record { username = body.username; password = body.password }) again s').0
        ≡ ok reply
  register-login B L body request s s' reply h again granted =
      let r = register-Registered body request s s' reply h in
      let read =
        find_by_username-put env L s.world s'.world r.user (rw r.named r.was_free) r.users in
      let right = B.checkpw-hashpw s.salts body.password r.user.password_hash r.hashed in
      let answer =
        login_known (record { username = body.username; password = body.password }) again s' r.user
          granted (rw r.named at read) right in
      answer
      ∙ ap ok (
          ap (λ t. issued_reply t r.user.username r.user.role) r.now
          ∙ ap (λ n. issued_reply s.world.now n r.user.role) r.named
          ∙ ap (issued_reply s.world.now body.username) r.is_rider
          ∙ sym r.is_reply)
