-- ===== src/Auth/Presented.antt =====
-- src/ride_service/auth/: a token that was issued, presented again.
use uber_clone_python.Base.{
  ◌+◌, ◌≤◌, String, ◌≡◌, inl, inr, none, some, arith, ltb, if◌then◌else◌, Bool-cases,
}
use uber_clone_python.Exec.{ok, err}
use uber_clone_python.Models.{DateTime, Role, role_value, rider, driver, is_role}
use uber_clone_python.Env.{Env}
use uber_clone_python.Base.{[], ◌∷◌, refl, ap, ◌∙◌, ◌<>◌, ◌*◌, ◌/◌}
use uber_clone_python.Text.{after_prefix-append}
use uber_clone_python.Web.{Web, Site, HttpRequest, Payload}
use uber_clone_python.Web.Laws.{IsToken}
use uber_clone_python.Auth.Jwt.{
  generate, decode, is_valid, extract_username, extract_role, claimed_role, subject,
}
use uber_clone_python.Auth.Dependencies.{
  get_current_auth, auth_of_token, extract_token, not_authenticated, authorities_of,
}
use uber_clone_python.Repositories.Laws.{role_of-role_value}

module _ {env : Env} (web : Web env) where
  -- The first second, in microseconds, at which a token of that time is refused.
  abbrev pub expiry : DateTime → DateTime
  expiry issued = (issued + web.settings.jwt_expiration_ms * 1000) / 1000000 * 1000000

  abbrev pub bearer : String → HttpRequest → HttpRequest
  bearer token request = record request { authorization = some ("Bearer " <> token) }

  abbrev pub payload_of : String → Role → Payload
  payload_of username role = record { sub = some username; role = some (role_value role) }

  extract_token-bearer :
      (token : String) (request : HttpRequest) → extract_token (bearer token request) ≡ some token
  unfolding extract_token
  extract_token-bearer token request = ground (arith, after_prefix-append "Bearer " token)

  module _ (T : IsToken web.tokens) (issued : DateTime) (username : String) (role : Role)
      (now : DateTime) (after : issued ≤ now) where
    decode-generate :
        decode web now (generate web issued username role)
        ≡ (if ltb now (expiry issued) then some (payload_of username role) else none)
    unfolding generate
    decode-generate = T.decode-encode web.settings.jwt_secret _ now after

    claimed : claimed_role web (payload_of username role) ≡ some role
    unfolding claimed_role
    claimed = role_of-role_value role

  authorities_of-role :
      (role : Role)
      → authorities_of (some role) ≡ rider ∷ (if is_role role driver then driver ∷ [] else [])
  authorities_of-role rider = refl
  authorities_of-role driver = refl

  auth_of_payload :
      (token username : String) (role : Role) (s : Site web)
      → decode web s.world.now token ≡ some (payload_of username role)
      → claimed_role web (payload_of username role) ≡ some role
      → auth_of_token web (some token) s
        ≡ (ok (record { username = username; authorities = authorities_of (some role) }), s)
  unfolding auth_of_token is_valid extract_username extract_role subject
  auth_of_payload token username role s h e = ground arith

  auth_of_nothing :
      (token : String) (s : Site web)
      → decode web s.world.now token ≡ none
      → auth_of_token web (some token) s ≡ (err not_authenticated, s)
  unfolding auth_of_token is_valid extract_username
  auth_of_nothing token s h = ground arith

  -- For a token codec that decodes what it encoded: a request that bears a token, at or after its
  -- time of issue, is authenticated until the token expires as the token's user, with the
  -- authority of a rider and, for a token in driver mode and no other, that of a driver; it is
  -- answered 401 from then on, and nothing changes.
  pub get_current_auth-generate :
      (T : IsToken web.tokens) (issued : DateTime) (username : String) (role : Role)
      (request : HttpRequest) (s : Site web)
      → issued ≤ s.world.now
      → get_current_auth web (bearer (generate web issued username role) request) s ≡ (
          if ltb s.world.now (expiry issued)
          then (
            ok (record {
              username = username;
              authorities = rider ∷ (if is_role role driver then driver ∷ [] else []);
            }),
            s,
          )
          else (err not_authenticated, s))
  get_current_auth-generate T issued username role request s after =
      let token = generate web issued username role in
      let found = extract_token-bearer token request in
      let decoded = decode-generate T issued username role s.world.now after in
      unfold get_current_auth in
      rw found (elim (Bool-cases (ltb s.world.now (expiry issued))) [
        | inl fresh ↦ rw fresh (
            auth_of_payload token username role s (ground arith)
              (claimed T issued username role s.world.now after)
            ∙ ap (λ rs. (ok (record { username = username; authorities = rs }), s))
                (authorities_of-role role))
        | inr over ↦ rw over (auth_of_nothing token s (ground arith))
      ])
