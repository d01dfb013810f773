-- ===== src/Auth/Dependencies.antt =====
-- src/ride_service/auth/dependencies.py: what FastAPI runs before a handler.
use uber_clone_python.Base.{String, Bool, false, not, ◌||◌, Option, none, some, List, [], ◌∷◌}
use uber_clone_python.Exec.{
  Error, http, Exec, pure, raise, lift, gets, or_raise, ◌>>=◌, ◌>>◌, raise_if,
}
use uber_clone_python.Models.{Role, rider, driver, role_value, is_role, User}
use uber_clone_python.Env.{Env}
use uber_clone_python.Base.{◌<>◌}
use uber_clone_python.Text.{after_prefix}
use uber_clone_python.Web.{Web, Site, HttpRequest, on_world}
use uber_clone_python.Auth.Jwt.{is_valid, extract_username, extract_role}
use uber_clone_python.Repositories.User.{find_by_username}

-- The authorities, a set, in the order in which they are added.
pub record AuthContext : Type 0 where
  pub username : String
  pub authorities : List Role

abbrev pub has_role : Role → List Role → Bool
has_role role [] = false
has_role role (r ∷ rs) = is_role role r || has_role role rs

abbrev pub not_authenticated : Error
not_authenticated = http 401 "Not authenticated"

-- The cookie counts where there is no `Bearer` header.
unfoldable pub extract_token : HttpRequest → Option String
extract_token request = elim request.authorization [
  | none ↦ request.auth_token
  | some header ↦ elim (after_prefix "Bearer " header) [
    | none ↦ request.auth_token
    | some token ↦ some token
  ]
]

-- Everyone is a rider; a token in driver mode adds the other authority.
abbrev pub authorities_of : Option Role → List Role
authorities_of (some driver) = rider ∷ driver ∷ []
authorities_of _ = rider ∷ []

module _ {env : Env} (web : Web env) where
  -- The rest of `get_current_auth`, on the token that was found.
  unfoldable pub auth_of_token : Option String → Exec (Site web) AuthContext
  unfolding is_valid extract_username extract_role
  auth_of_token none = raise not_authenticated
  auth_of_token (some token) = do
    now ← gets (λ s. s.world.now)
    valid ← lift (is_valid web now token)
    raise_if (not valid) not_authenticated
    found ← or_raise (extract_username web now token) not_authenticated
    username ← lift found
    pure (record { username = username; authorities = authorities_of (extract_role web now token) })

  unfoldable pub get_current_auth : HttpRequest → Exec (Site web) AuthContext
  unfolding auth_of_token extract_token
  get_current_auth request = auth_of_token (extract_token request)

  -- `require_role(role)`
  unfoldable pub require_role : Role → HttpRequest → Exec (Site web) AuthContext
  unfolding get_current_auth role_value
  require_role role request = do
    auth ← get_current_auth request
    raise_if (not (has_role role auth.authorities))
        (http 403 ("Requires active " <> role_value role <> " mode"))
    pure auth

  unfoldable pub resolve_current_user : HttpRequest → Exec (Site web) User
  unfolding get_current_auth find_by_username
  resolve_current_user request = do
    auth ← get_current_auth request
    found ← on_world web (find_by_username env auth.username)
    or_raise found not_authenticated
