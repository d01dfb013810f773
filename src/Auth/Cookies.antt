-- ===== src/Auth/Cookies.antt =====
-- src/ride_service/auth/cookies.py. A handler's reply has the cookies set on its response.
use uber_clone_python.Base.{ℕ, String, Bool, true, List, []}
use uber_clone_python.Exec.{ok, Exec}
use uber_clone_python.Models.{Role}
use uber_clone_python.Env.{Env}
use uber_clone_python.Base.{◌/◌}
use uber_clone_python.Web.{Web, Site}
use uber_clone_python.Auth.Jwt.{generate}

pub record Cookie : Type 0 where
  pub key : String
  pub value : String
  pub httponly : Bool
  pub secure : Bool
  pub path : String
  pub max_age : ℕ

pub record Reply (A : Type 0) : Type 0 where
  pub cookies : List Cookie
  pub body : A

abbrev pub cookie_name : String
cookie_name = "auth_token"

-- A reply that sets no cookie.
abbrev pub plain : {A : Type 0} → A → Reply A
plain a = record { cookies = []; body = a }

module _ {env : Env} (web : Web env) where
  -- The token, and the cookie that carries it.
  unfoldable pub issue_token_cookie : String → Role → Exec (Site web) (String × Cookie)
  issue_token_cookie username role s =
      let token = generate web s.world.now username role in
      (
        ok (
          token,
          record {
            key = cookie_name;
            value = token;
            httponly = true;
            secure = web.settings.cookie_secure;
            path = "/";
            max_age = web.settings.jwt_expiration_ms / 1000;
          },
        ),
        s,
      )
