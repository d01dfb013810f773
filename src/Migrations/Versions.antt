-- ===== src/Migrations/Versions.antt =====
-- migrations/versions: the three revisions, and all of them in the order of `down_revision`.
use uber_clone_python.Base.{true, false, Option, some, [], ◌∷◌}
use uber_clone_python.Migrations.{
  string, text, double, boolean, integer, big_integer, timestamp, numeric, Column, column,
  TableDefinition, Recount, Database, ◌then_do◌,
}

abbrev key : Column → Column
key c = record c { primary_key = true }

abbrev pub users : TableDefinition
users = record {
  name = "users";
  columns =
      key (column "id" (string 255) false)
      ∷ record (column "username" (string 255) false) { unique = true }
      ∷ column "password_hash" (string 255) false
      ∷ column "role" (string 50) false
      ∷ column "avg_rating" double true
      ∷ [];
  unique_constraints = [];
}

abbrev pub drivers : TableDefinition
drivers = record {
  name = "drivers";
  columns =
      record (key (column "user_id" (string 255) false)) { foreign_key = some "users.id" }
      ∷ column "vehicle_type" (string 255) false
      ∷ column "license_plate" (string 255) false
      ∷ record (column "is_available" boolean false) { server_default = some "false" }
      ∷ column "avg_rating" double true
      ∷ [];
  unique_constraints = [];
}

abbrev pub rides : TableDefinition
rides = record {
  name = "rides";
  columns =
      key (column "id" (string 255) false)
      ∷ column "rider_id" (string 255) false
      ∷ column "driver_id" (string 255) true
      ∷ column "pickup_lat" double false
      ∷ column "pickup_lng" double false
      ∷ column "dropoff_lat" double false
      ∷ column "dropoff_lng" double false
      ∷ column "status" (string 50) false
      ∷ column "estimated_fare" (numeric 19 2) true
      ∷ column "fare" (numeric 19 2) true
      ∷ column "requested_at" timestamp false
      ∷ column "completed_at" timestamp true
      ∷ record (column "version" big_integer false) { server_default = some "0" }
      ∷ [];
  unique_constraints = [];
}

abbrev pub ratings : TableDefinition
ratings = record {
  name = "ratings";
  columns =
      key (column "id" (string 255) false)
      ∷ column "ride_id" (string 255) false
      ∷ column "from_user_id" (string 255) false
      ∷ column "to_user_id" (string 255) false
      ∷ column "score" integer false
      ∷ column "comment" text true
      ∷ column "created_at" timestamp false
      ∷ [];
  unique_constraints = ("uq_ratings_ride_from", "ride_id" ∷ "from_user_id" ∷ []) ∷ [];
}

abbrev pub rating_count : Column
rating_count = record (column "rating_count" integer false) { server_default = some "0" }

-- The counts of a person's ratings.
abbrev pub users_recount : Recount
users_recount = record {
  table = "users";
  column = "rating_count";
  counted = "ratings";
  reference = "to_user_id";
  key = "id";
}

abbrev pub drivers_recount : Recount
drivers_recount = record users_recount { table = "drivers"; key = "user_id" }

module _ (db : Database) where
  -- 0001_baseline_schema.py
  unfoldable pub upgrade_1 : db.State → Option db.State
  upgrade_1 =
      db.create_table users
      then_do db.create_table drivers
      then_do db.create_table rides
      then_do db.create_table ratings

  unfoldable pub downgrade_1 : db.State → Option db.State
  downgrade_1 =
      db.drop_table "ratings"
      then_do db.drop_table "rides"
      then_do db.drop_table "drivers"
      then_do db.drop_table "users"

  -- 0002_ride_indexes.py
  unfoldable pub upgrade_2 : db.State → Option db.State
  upgrade_2 =
      db.create_index "idx_rides_rider_requested" "rides" ("rider_id" ∷ "requested_at" ∷ [])
      then_do db.create_index "idx_rides_driver_requested" "rides"
          ("driver_id" ∷ "requested_at" ∷ [])
      then_do db.create_index "idx_rides_driver_status" "rides" ("driver_id" ∷ "status" ∷ [])
      then_do db.create_index "idx_rides_status_location" "rides"
          ("status" ∷ "pickup_lat" ∷ "pickup_lng" ∷ [])

  unfoldable pub downgrade_2 : db.State → Option db.State
  downgrade_2 =
      db.drop_index "idx_rides_status_location" "rides"
      then_do db.drop_index "idx_rides_driver_status" "rides"
      then_do db.drop_index "idx_rides_driver_requested" "rides"
      then_do db.drop_index "idx_rides_rider_requested" "rides"

  -- 0003_rating_count.py
  unfoldable pub upgrade_3 : db.State → Option db.State
  upgrade_3 =
      db.add_column "users" rating_count
      then_do db.add_column "drivers" rating_count
      then_do db.recount users_recount
      then_do db.recount drivers_recount

  unfoldable pub downgrade_3 : db.State → Option db.State
  downgrade_3 =
      db.drop_column "drivers" "rating_count" then_do db.drop_column "users" "rating_count"

  -- From the base to the head, by `down_revision`, and back.
  unfoldable pub upgrade_head : db.State → Option db.State
  unfolding upgrade_1 upgrade_2 upgrade_3
  upgrade_head = upgrade_1 then_do upgrade_2 then_do upgrade_3

  unfoldable pub downgrade_base : db.State → Option db.State
  unfolding downgrade_1 downgrade_2 downgrade_3
  downgrade_base = downgrade_3 then_do downgrade_2 then_do downgrade_1
