-- ===== src/Routers/Guards.antt =====
-- The guards of the driver's endpoints.
use uber_clone_python.Base.{⊤, String, ◌≡◌, refl, inl, inr, Option, none, some, arith}
use uber_clone_python.Exec.{Error, err, Exec, pure, ◌>>=◌}
use uber_clone_python.Models.{Float, Role, driver}
use uber_clone_python.Env.{Env}
use uber_clone_python.Exec.{ok-or-err}
use uber_clone_python.Schemas.{DriverLocationRequest}
use uber_clone_python.Web.{Web, Site, HttpRequest}
use uber_clone_python.Auth.Dependencies.{
  get_current_auth, require_role, resolve_current_user, auth_of_token, extract_token,
}
use uber_clone_python.Repositories.User.{find_by_username}
use uber_clone_python.Routers.Driver as DriverRouter
use uber_clone_python.Routers.Rides as RidesRouter

-- The calls that ask for the authority of a driver.
pub data DriverCall : Type 0 where
  profile : DriverCall
  go_online : DriverLocationRequest → DriverCall
  go_offline : DriverCall
  update_location : DriverLocationRequest → DriverCall
  ride_history : DriverCall
  nearby : Float → Float → Float → DriverCall
  stream_offers : DriverCall
  accept_ride : String → DriverCall
  start_ride : String → DriverCall
  complete_ride : String → DriverCall

module _ {env : Env} (web : Web env) where
  -- Running an action for what it does, its value dropped.
  abbrev pub run_only : {A : Type 0} → Exec (Site web) A → Exec (Site web) ⊤
  run_only m = m >>= λ _. pure tt

  abbrev pub run_driver_call : DriverCall → HttpRequest → Exec (Site web) ⊤
  run_driver_call profile request = run_only (DriverRouter.profile web request)
  run_driver_call (go_online body) request = run_only (DriverRouter.go_online web body request)
  run_driver_call go_offline request = run_only (DriverRouter.go_offline web request)
  run_driver_call (update_location body) request =
      run_only (DriverRouter.update_location web body request)
  run_driver_call ride_history request = run_only (DriverRouter.ride_history web request)
  run_driver_call (nearby lat lng radius_km) request =
      run_only (DriverRouter.nearby web lat lng radius_km request)
  run_driver_call stream_offers request = run_only (DriverRouter.stream_offers web request)
  run_driver_call (accept_ride id) request = run_only (RidesRouter.accept_ride web id request)
  run_driver_call (start_ride id) request = run_only (RidesRouter.start_ride web id request)
  run_driver_call (complete_ride id) request = run_only (RidesRouter.complete_ride web id request)

  module _ (request : HttpRequest) (s : Site web) where
    auth_of_token_site : (t : Option String) → (auth_of_token web t s).1 ≡ s
    unfolding auth_of_token
    auth_of_token_site none = refl
    auth_of_token_site (some t) = ground arith

    -- Authentication reads, and changes nothing.
    pub get_current_auth_site : (get_current_auth web request s).1 ≡ s
    unfolding get_current_auth
    get_current_auth_site = auth_of_token_site (extract_token request)

    pub resolve_current_user_site : (resolve_current_user web request s).1 ≡ s
    unfolding resolve_current_user find_by_username
    resolve_current_user_site = ground (arith, get_current_auth_site)

    require_role_site : (role : Role) → (require_role web role request s).1 ≡ s
    unfolding require_role
    require_role_site role = ground (arith, get_current_auth_site)

    -- Without the authority the dependencies of a driver's endpoint refuse.
    current_driver_refused :
        (e : Error)
        → (require_role web driver request s).0 ≡ err e
        → (f : Error) × (DriverRouter.current_driver web request s ≡ (err f, s))
    unfolding DriverRouter.current_driver
    current_driver_refused e h = elim (ok-or-err (resolve_current_user web request s).0) [
      | inl (f, refused) ↦ (f, ground (arith, resolve_current_user_site))
      | inr (u, found) ↦ (e, ground (arith, resolve_current_user_site, require_role_site driver))
    ]

    -- A request that does not pass the check for driver mode is refused by each of the ten
    -- endpoints for drivers, and changes nothing.
    pub driver_call_refused :
        (call : DriverCall) (e : Error)
        → (require_role web driver request s).0 ≡ err e
        → (f : Error) × (run_driver_call call request s ≡ (err f, s))
    unfolding DriverRouter.profile DriverRouter.go_online DriverRouter.go_offline
        DriverRouter.update_location DriverRouter.ride_history DriverRouter.nearby
        DriverRouter.stream_offers RidesRouter.accept_ride RidesRouter.start_ride
        RidesRouter.complete_ride
    driver_call_refused (nearby lat lng radius_km) e h =
        (e, ground (arith, require_role_site driver))
    driver_call_refused call e h =
        let (f, refused) = current_driver_refused e h in (f, ground arith)
