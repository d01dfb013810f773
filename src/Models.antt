-- ===== src/Models.antt =====
-- src/ride_service/models.py: the domain dataclasses and enums, and the values they hold.
use uber_clone_python.Base.{
  ℕ, ℤ, String, ◌==◌, Bool, true, false, Option, none, some, if◌then◌else◌,
}
use uber_clone_python.Decimal.{Decimal}

-- A Python float, as its bit pattern: only the operations of `Env.FloatOps` read it.
abbrev pub Float : Type 0
Float = ℕ

-- `datetime` in UTC, in microseconds.
abbrev pub DateTime : Type 0
DateTime = ℕ

pub data Role : Type 0 where
  rider driver : Role

pub data RideStatus : Type 0 where
  requested matched in_progress completed cancelled : RideStatus

-- `Role.value` and `RideStatus.value`
unfoldable pub role_value : Role → String
role_value rider = "RIDER"
role_value driver = "DRIVER"

unfoldable pub status_value : RideStatus → String
status_value requested = "REQUESTED"
status_value matched = "MATCHED"
status_value in_progress = "IN_PROGRESS"
status_value completed = "COMPLETED"
status_value cancelled = "CANCELLED"

-- `Role(text)` and `RideStatus(text)`; `none` is the `ValueError`
unfoldable pub role_of : String → Option Role
role_of s = if s == "RIDER" then some rider else if s == "DRIVER" then some driver else none

unfoldable pub status_of : String → Option RideStatus
status_of s =
    if s == "REQUESTED"
    then some requested
    else if s == "MATCHED"
    then some matched
    else if s == "IN_PROGRESS"
    then some in_progress
    else if s == "COMPLETED"
    then some completed
    else if s == "CANCELLED"
    then some cancelled
    else none

-- `==` on the members of the two enums
abbrev pub is_role : Role → Role → Bool
is_role rider rider = true
is_role driver driver = true
is_role _ _ = false

abbrev pub is_status : RideStatus → RideStatus → Bool
is_status requested requested = true
is_status matched matched = true
is_status in_progress in_progress = true
is_status completed completed = true
is_status cancelled cancelled = true
is_status _ _ = false

pub record User : Type 0 where
  pub username : String
  pub password_hash : String
  pub id : String
  pub role : Role
  pub avg_rating : Option Float
  pub rating_count : ℕ

pub record Driver : Type 0 where
  pub user_id : String
  pub vehicle_type : String
  pub license_plate : String
  pub is_available : Bool
  pub avg_rating : Option Float
  pub rating_count : ℕ

pub record Ride : Type 0 where
  pub rider_id : String
  pub pickup_lat : Float
  pub pickup_lng : Float
  pub dropoff_lat : Float
  pub dropoff_lng : Float
  pub id : String
  pub driver_id : Option String
  pub status : RideStatus
  pub estimated_fare : Option Decimal
  pub fare : Option Decimal
  pub requested_at : DateTime
  pub completed_at : Option DateTime
  pub version : ℕ

pub record Rating : Type 0 where
  pub ride_id : String
  pub from_user_id : String
  pub to_user_id : String
  pub score : ℤ
  pub comment : Option String
  pub id : String
  pub created_at : DateTime

-- src/ride_service/db/tables.py: the ORM rows, with the enums as the texts of their columns.
pub record UserRow : Type 0 where
  pub id : String
  pub username : String
  pub password_hash : String
  pub role : String
  pub avg_rating : Option Float
  pub rating_count : ℕ

pub record DriverRow : Type 0 where
  pub user_id : String
  pub vehicle_type : String
  pub license_plate : String
  pub is_available : Bool
  pub avg_rating : Option Float
  pub rating_count : ℕ

pub record RideRow : Type 0 where
  pub id : String
  pub rider_id : String
  pub driver_id : Option String
  pub pickup_lat : Float
  pub pickup_lng : Float
  pub dropoff_lat : Float
  pub dropoff_lng : Float
  pub status : String
  pub estimated_fare : Option Decimal
  pub fare : Option Decimal
  pub requested_at : DateTime
  pub completed_at : Option DateTime
  pub version : ℕ

pub record RatingRow : Type 0 where
  pub id : String
  pub ride_id : String
  pub from_user_id : String
  pub to_user_id : String
  pub score : ℤ
  pub comment : Option String
  pub created_at : DateTime
