-- ===== src/Routers/Driver.antt =====
-- src/ride_service/routers/driver.py
use uber_clone_python.Base.{⊤, String, List, [], ◌∷◌, map}
use uber_clone_python.Exec.{Exec, pure, lift, ◌>>=◌, ◌>>◌}
use uber_clone_python.Models.{Float, driver, User}
use uber_clone_python.Env.{Env}
use uber_clone_python.Schemas.{
  DriverRegisterRequest, DriverLocationRequest, DriverProfileResponse, RideResponse,
  NearbyDriverResponse, driver_to_response, rides_to_responses,
}
use uber_clone_python.Web.{Web, Site, HttpRequest, on_world}
use uber_clone_python.Dispatch.{NearbyDriver}
use uber_clone_python.Auth.Cookies.{Reply, plain, issue_token_cookie}
use uber_clone_python.Auth.Dependencies.{require_role, resolve_current_user}
use uber_clone_python.Repositories.User as UserRepository
use uber_clone_python.Repositories.Ride.{find_by_driver_id_ordered}
use uber_clone_python.Services.Driver as DriverService

module _ {env : Env} (web : Web env) where
  unfoldable pub register :
      DriverRegisterRequest → HttpRequest → Exec (Site web) (Reply DriverProfileResponse)
  unfolding resolve_current_user DriverService.register_driver UserRepository.save
      issue_token_cookie driver_to_response
  register request http_request = do
    user ← resolve_current_user web http_request
    d ←
        on_world web
          (DriverService.register_driver env user.id request.vehicle_type request.license_plate)
    on_world web (UserRepository.save env (record user { role = driver }))
    issued ← issue_token_cookie web user.username driver
    pure (record { cookies = issued.1 ∷ []; body = driver_to_response d })

  -- The two dependencies of a driver's endpoint.
  unfoldable pub current_driver : HttpRequest → Exec (Site web) User
  unfolding resolve_current_user require_role
  current_driver http_request = do
    user ← resolve_current_user web http_request
    require_role web driver http_request
    pure user

  unfoldable pub profile : HttpRequest → Exec (Site web) (Reply DriverProfileResponse)
  unfolding current_driver DriverService.get_profile driver_to_response
  profile http_request = do
    user ← current_driver http_request
    d ← on_world web (DriverService.get_profile env user.id)
    pure (plain (driver_to_response d))

  unfoldable pub go_online :
      DriverLocationRequest → HttpRequest → Exec (Site web) (Reply DriverProfileResponse)
  unfolding current_driver DriverService.go_online driver_to_response
  go_online request http_request = do
    user ← current_driver http_request
    d ← on_world web (DriverService.go_online env user.id request.lat request.lng)
    pure (plain (driver_to_response d))

  unfoldable pub go_offline : HttpRequest → Exec (Site web) (Reply DriverProfileResponse)
  unfolding current_driver DriverService.go_offline driver_to_response
  go_offline http_request = do
    user ← current_driver http_request
    d ← on_world web (DriverService.go_offline env user.id)
    pure (plain (driver_to_response d))

  unfoldable pub update_location : DriverLocationRequest → HttpRequest → Exec (Site web) (Reply ⊤)
  unfolding current_driver DriverService.update_location
  update_location request http_request = do
    user ← current_driver http_request
    on_world web (DriverService.update_location env user.id request.lat request.lng)
    pure (plain tt)

  unfoldable pub ride_history : HttpRequest → Exec (Site web) (Reply (List RideResponse))
  unfolding current_driver find_by_driver_id_ordered rides_to_responses
  ride_history http_request = do
    user ← current_driver http_request
    rides ← on_world web (find_by_driver_id_ordered env user.id)
    responses ← lift (rides_to_responses env.floats rides)
    pure (plain responses)

  abbrev nearby_response : NearbyDriver → NearbyDriverResponse
  nearby_response r = record { driver_id = r.driver_id; distance_km = r.distance_km }

  -- `radius_km` has the radius of dispatch as its default.
  unfoldable pub nearby :
      Float → Float → Float → HttpRequest → Exec (Site web) (Reply (List NearbyDriverResponse))
  unfolding require_role DriverService.find_nearby
  nearby lat lng radius_km http_request = do
    require_role web driver http_request
    results ← on_world web (DriverService.find_nearby env lat lng radius_km)
    pure (plain (map nearby_response results))

  -- The key of the stream that the server then runs.
  unfoldable pub stream_offers : HttpRequest → Exec (Site web) String
  unfolding current_driver
  stream_offers http_request = do user ← current_driver http_request; pure user.id
