-- ===== src/Schemas.antt =====
-- src/ride_service/schemas.py: the bodies of requests and responses, and the mapping of entities to
-- responses. Pydantic checks that a body has the types of the fields.
use uber_clone_python.Base.{ℕ, String, Bool, Option, none, some, List, [], ◌∷◌}
use uber_clone_python.Exec.{value_error, Result, ok, err}
use uber_clone_python.Models.{Float, DateTime, RideStatus, Driver, Ride}
use uber_clone_python.Decimal.{Decimal}
use uber_clone_python.Base.{ℤ}
use uber_clone_python.Env.{FloatOps}
use uber_clone_python.Geo.{haversine_km, eta_minutes}

pub record RegisterRequest : Type 0 where
  pub username : String
  pub password : String

pub record LoginRequest : Type 0 where
  pub username : String
  pub password : String

pub record SwitchModeRequest : Type 0 where
  pub mode : String

pub record AuthResponse : Type 0 where
  pub token : String

pub record MeResponse : Type 0 where
  pub user_id : String

pub record RideRequest : Type 0 where
  pub pickup_lat : Float
  pub pickup_lng : Float
  pub dropoff_lat : Float
  pub dropoff_lng : Float

pub record RideResponse : Type 0 where
  pub id : String
  pub rider_id : String
  pub driver_id : Option String
  pub pickup_lat : Float
  pub pickup_lng : Float
  pub dropoff_lat : Float
  pub dropoff_lng : Float
  pub status : RideStatus
  pub estimated_fare : Option Decimal
  pub fare : Option Decimal
  pub requested_at : DateTime
  pub completed_at : Option DateTime
  pub estimated_journey_minutes : ℕ

pub record DriverRegisterRequest : Type 0 where
  pub vehicle_type : String
  pub license_plate : String

pub record DriverProfileResponse : Type 0 where
  pub user_id : String
  pub vehicle_type : String
  pub license_plate : String
  pub is_available : Bool
  pub avg_rating : Option Float

pub record DriverLocationRequest : Type 0 where
  pub lat : Float
  pub lng : Float

pub record NearbyDriverResponse : Type 0 where
  pub driver_id : String
  pub distance_km : Float

pub record RatingRequest : Type 0 where
  pub score : ℤ
  pub comment : Option String

abbrev ride_response : Ride → ℕ → RideResponse
ride_response ride minutes = record {
  id = ride.id;
  rider_id = ride.rider_id;
  driver_id = ride.driver_id;
  pickup_lat = ride.pickup_lat;
  pickup_lng = ride.pickup_lng;
  dropoff_lat = ride.dropoff_lat;
  dropoff_lng = ride.dropoff_lng;
  status = ride.status;
  estimated_fare = ride.estimated_fare;
  fare = ride.fare;
  requested_at = ride.requested_at;
  completed_at = ride.completed_at;
  estimated_journey_minutes = minutes;
}

-- The exceptions are those of `math` and of `int`.
unfoldable pub ride_to_response : FloatOps → Ride → Result RideResponse
ride_to_response fl ride =
    elim (haversine_km fl ride.pickup_lat ride.pickup_lng ride.dropoff_lat ride.dropoff_lng) [
      | none ↦ err value_error
      | some distance_km ↦ elim (eta_minutes fl distance_km) [
        | none ↦ err value_error
        | some minutes ↦ ok (ride_response ride minutes)
      ]
    ]

-- `[ride_to_response(r) for r in rides]`
unfoldable pub rides_to_responses : FloatOps → List Ride → Result (List RideResponse)
rides_to_responses fl [] = ok []
rides_to_responses fl (ride ∷ rides) =
    let rest = rides_to_responses fl rides in
    elim (ride_to_response fl ride) [
      | err e ↦ err e
      | ok r ↦ elim rest [ err e ↦ err e | ok rs ↦ ok (r ∷ rs) ]
    ]

unfoldable pub driver_to_response : Driver → DriverProfileResponse
driver_to_response d = record {
  user_id = d.user_id;
  vehicle_type = d.vehicle_type;
  license_plate = d.license_plate;
  is_available = d.is_available;
  avg_rating = d.avg_rating;
}
