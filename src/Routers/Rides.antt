-- ===== src/Routers/Rides.antt =====
-- src/ride_service/routers/rides.py
use uber_clone_python.Base.{⊤, String, ◌==◌, Bool, true, false, not, List}
use uber_clone_python.Exec.{http, Exec, pure, lift, ◌>>=◌, ◌>>◌, raise_if}
use uber_clone_python.Models.{rider, RideStatus, matched, in_progress, User, Ride}
use uber_clone_python.Env.{Env}
use uber_clone_python.Schemas.{
  RideRequest, RatingRequest, RideResponse, ride_to_response, rides_to_responses,
}
use uber_clone_python.Web.{Web, Site, HttpRequest, on_world}
use uber_clone_python.RateLimit.{allow, ride_request_rate_limiter}
use uber_clone_python.Auth.Cookies.{Reply, plain}
use uber_clone_python.Auth.Dependencies.{get_current_auth, require_role, resolve_current_user}
use uber_clone_python.Repositories.Ride.{find_by_rider_id_ordered}
use uber_clone_python.Routers.Driver.{current_driver}
use uber_clone_python.Services.Rating as RatingService
use uber_clone_python.Services.Ride as RideService

-- `ride.status in _TRACKABLE_STATUSES`
abbrev pub is_trackable : RideStatus → Bool
is_trackable matched = true
is_trackable in_progress = true
is_trackable _ = false

module _ {env : Env} (web : Web env) where
  -- The two dependencies of a rider's endpoint.
  unfoldable pub current_rider : HttpRequest → Exec (Site web) User
  unfolding resolve_current_user require_role
  current_rider http_request = do
    user ← resolve_current_user web http_request
    require_role web rider http_request
    pure user

  -- `return ride_to_response(ride)`
  unfoldable pub ride_reply : Ride → Exec (Site web) (Reply RideResponse)
  unfolding ride_to_response
  ride_reply ride = do response ← lift (ride_to_response env.floats ride); pure (plain response)

  unfoldable pub request_ride : RideRequest → HttpRequest → Exec (Site web) (Reply RideResponse)
  unfolding current_rider allow RideService.request_ride ride_reply
  request_ride request http_request = do
    user ← current_rider http_request
    allowed ← allow web (ride_request_rate_limiter web) user.id
    raise_if (not allowed) (http 429 "Too many ride requests — try again shortly")
    ride ← on_world web (
        RideService.request_ride env user.id request.pickup_lat request.pickup_lng
          request.dropoff_lat request.dropoff_lng)
    ride_reply ride

  unfoldable pub history : HttpRequest → Exec (Site web) (Reply (List RideResponse))
  unfolding resolve_current_user find_by_rider_id_ordered rides_to_responses
  history http_request = do
    user ← resolve_current_user web http_request
    rides ← on_world web (find_by_rider_id_ordered env user.id)
    responses ← lift (rides_to_responses env.floats rides)
    pure (plain responses)

  unfoldable pub get_ride : String → HttpRequest → Exec (Site web) (Reply RideResponse)
  unfolding get_current_auth RideService.get_ride ride_reply
  get_ride ride_id http_request = do
    get_current_auth web http_request
    ride ← on_world web (RideService.get_ride env ride_id)
    ride_reply ride

  unfoldable pub accept_ride : String → HttpRequest → Exec (Site web) (Reply RideResponse)
  unfolding current_driver RideService.accept_ride ride_reply
  accept_ride ride_id http_request = do
    user ← current_driver web http_request
    ride ← on_world web (RideService.accept_ride env ride_id user.id)
    ride_reply ride

  unfoldable pub start_ride : String → HttpRequest → Exec (Site web) (Reply RideResponse)
  unfolding current_driver RideService.start_ride ride_reply
  start_ride ride_id http_request = do
    user ← current_driver web http_request
    ride ← on_world web (RideService.start_ride env ride_id user.id)
    ride_reply ride

  unfoldable pub complete_ride : String → HttpRequest → Exec (Site web) (Reply RideResponse)
  unfolding current_driver RideService.complete_ride ride_reply
  complete_ride ride_id http_request = do
    user ← current_driver web http_request
    ride ← on_world web (RideService.complete_ride env ride_id user.id)
    ride_reply ride

  unfoldable pub cancel_ride : String → HttpRequest → Exec (Site web) (Reply RideResponse)
  unfolding resolve_current_user RideService.cancel_ride ride_reply
  cancel_ride ride_id http_request = do
    user ← resolve_current_user web http_request
    ride ← on_world web (RideService.cancel_ride env ride_id user.id)
    ride_reply ride

  unfoldable pub rate_ride : String → RatingRequest → HttpRequest → Exec (Site web) (Reply ⊤)
  unfolding resolve_current_user RatingService.rate
  rate_ride ride_id request http_request = do
    user ← resolve_current_user web http_request
    on_world web (RatingService.rate env ride_id user.id request.score request.comment)
    pure (plain tt)

  -- The key of the stream that the server then runs.
  unfoldable pub stream_driver_location : String → HttpRequest → Exec (Site web) String
  unfolding current_rider RideService.get_ride
  stream_driver_location ride_id http_request = do
    user ← current_rider http_request
    ride ← on_world web (RideService.get_ride env ride_id)
    raise_if (not (ride.rider_id == user.id)) (http 403 "Forbidden")
    raise_if (not (is_trackable ride.status)) (http 409 "No active driver to track for this ride")
    pure ride_id
