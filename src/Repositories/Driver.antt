-- ===== src/Repositories/Driver.antt =====
-- src/ride_service/repositories/driver.py
use uber_clone_python.Base.{⊤, String, ◌==◌, Bool, not, Option, none, some, is_empty, if◌then◌else◌}
use uber_clone_python.Exec.{integrity_error, redis_error, ok, err, Exec, modify}
use uber_clone_python.Models.{Float, Driver, DriverRow}
use uber_clone_python.Env.{Env, World}

-- The keys of src/ride_service/dispatch.py.
abbrev pub driver_geo_key : String
driver_geo_key = "drivers:locations"

abbrev pub driver_available_set : String
driver_available_set = "drivers:available"

unfoldable pub driver_to_row : Driver → DriverRow
driver_to_row d = record {
  user_id = d.user_id;
  vehicle_type = d.vehicle_type;
  license_plate = d.license_plate;
  is_available = d.is_available;
  avg_rating = d.avg_rating;
  rating_count = d.rating_count;
}

unfoldable pub driver_from_row : DriverRow → Driver
driver_from_row row = record {
  user_id = row.user_id;
  vehicle_type = row.vehicle_type;
  license_plate = row.license_plate;
  is_available = row.is_available;
  avg_rating = row.avg_rating;
  rating_count = row.rating_count;
}

optional_driver : Option DriverRow → Option Driver
optional_driver none = none
optional_driver (some row) = some (driver_from_row row)

module _ (env : Env) where
  -- The driver that the table shows under a key, as `find_by_id` reads it.
  unfoldable pub read_driver : env.drivers.State → String → Option Driver
  unfolding optional_driver driver_from_row
  read_driver table k = optional_driver (env.drivers.get table k)

  -- The Postgres write, then the Redis write: `sadd` if the driver is available, else `srem`.
  unfoldable pub save : Driver → Exec (World env) Driver
  unfolding driver_from_row driver_to_row
  save d w =
      if env.admits_driver w.users w.drivers (driver_to_row d)
      then (
        ok d,
        record w {
          drivers = env.drivers.put w.drivers (driver_to_row d);
          sets =
              if d.is_available
              then env.sets.sadd w.sets driver_available_set d.user_id
              else env.sets.srem w.sets driver_available_set d.user_id;
        },
      )
      else (err integrity_error, w)

  unfoldable pub set_location : String → Float → Float → Exec (World env) ⊤
  set_location user_id lat lng w = elim (env.geo.geoadd w.geo driver_geo_key lng lat user_id) [
    | none ↦ (err redis_error, w)
    | some geo' ↦ (ok tt, record w { geo = geo' })
  ]

  unfoldable pub clear_location : String → Exec (World env) ⊤
  clear_location user_id =
      modify (λ w. record w { geo = env.geo.zrem w.geo driver_geo_key user_id })

  unfoldable pub find_by_id : String → Exec (World env) (Option Driver)
  find_by_id user_id w = (ok (read_driver w.drivers user_id), w)

  unfoldable pub exists_by_id : String → Exec (World env) Bool
  exists_by_id user_id w =
      (ok (not (is_empty (env.drivers.select w.drivers (λ row. row.user_id == user_id)))), w)
