-- ===== src/Repositories/Ride.antt =====
-- src/ride_service/repositories/ride.py
use uber_clone_python.Base.{
  ℕ, String, ◌==◌, Bool, not, ◌&&◌, Option, none, some, List, [], ◌∷◌, map, length, is_empty,
  is_text, head?, contains, ltb, if◌then◌else◌,
}
use uber_clone_python.Exec.{integrity_error, value_error, Result, ok, err, Exec}
use uber_clone_python.Models.{
  Float, DateTime, RideStatus, requested, matched, in_progress, status_value, status_of, Ride,
  RideRow,
}
use uber_clone_python.Env.{Env, World}

abbrev pub active_ride_statuses : List RideStatus
active_ride_statuses = requested ∷ matched ∷ in_progress ∷ []

ride_with_status : RideRow → Option RideStatus → Result Ride
ride_with_status row none = err value_error
ride_with_status row (some status) = ok (record {
  rider_id = row.rider_id;
  pickup_lat = row.pickup_lat;
  pickup_lng = row.pickup_lng;
  dropoff_lat = row.dropoff_lat;
  dropoff_lng = row.dropoff_lng;
  id = row.id;
  driver_id = row.driver_id;
  status = status;
  estimated_fare = row.estimated_fare;
  fare = row.fare;
  requested_at = row.requested_at;
  completed_at = row.completed_at;
  version = row.version;
})

-- `RideStatus(row.status)` raises on an unknown text.
unfoldable pub ride_from_row : RideRow → Result Ride
unfolding ride_with_status status_of
ride_from_row row = ride_with_status row (status_of row.status)

unfoldable pub ride_to_row : Ride → RideRow
unfolding status_value
ride_to_row r = record {
  id = r.id;
  rider_id = r.rider_id;
  driver_id = r.driver_id;
  pickup_lat = r.pickup_lat;
  pickup_lng = r.pickup_lng;
  dropoff_lat = r.dropoff_lat;
  dropoff_lng = r.dropoff_lng;
  status = status_value r.status;
  estimated_fare = r.estimated_fare;
  fare = r.fare;
  requested_at = r.requested_at;
  completed_at = r.completed_at;
  version = r.version;
}

-- `_ride_from_row(row) if row is not None else None`
unfoldable pub optional_ride : Option RideRow → Result (Option Ride)
optional_ride none = ok none
optional_ride (some row) = elim (ride_from_row row) [ ok r ↦ ok (some r) | err e ↦ err e ]

-- `[_ride_from_row(r) for r in rows]`
unfoldable pub rides_from_rows : List RideRow → Result (List Ride)
rides_from_rows [] = ok []
rides_from_rows (row ∷ rows) =
    let rest = rides_from_rows rows in
    elim (ride_from_row row) [
      | err e ↦ err e
      | ok r ↦ elim rest [ ok rs ↦ ok (r ∷ rs) | err e ↦ err e ]
    ]

-- `RideRow.status.in_([s.value for s in statuses])`
unfoldable pub status_in : String → List RideStatus → Bool
status_in s statuses = contains (map status_value statuses) s

module _ (env : Env) where
  -- The ride that the table shows under a key, as `find_by_id` reads it.
  unfoldable pub read_ride : env.rides.State → String → Result (Option Ride)
  read_ride table k = optional_ride (env.rides.get table k)

  unfoldable pub save : Ride → Exec (World env) Ride
  unfolding ride_from_row ride_to_row
  save r w =
      if env.admits_ride w.rides (ride_to_row r)
      then (
        ride_from_row (ride_to_row r),
        record w { rides = env.rides.put w.rides (ride_to_row r) },
      )
      else (err integrity_error, w)

  unfoldable pub find_by_id : String → Exec (World env) (Option Ride)
  find_by_id ride_id w = (read_ride w.rides ride_id, w)

  unfoldable pub exists_by_rider_id_and_status_in : String → List RideStatus → Exec (World env) Bool
  exists_by_rider_id_and_status_in rider_id statuses w = (
    ok (
        not (
          is_empty (
            env.rides.select w.rides
              (λ row. row.rider_id == rider_id && status_in row.status statuses)))),
    w,
  )

  unfoldable pub find_by_rider_id_ordered : String → Exec (World env) (List Ride)
  find_by_rider_id_ordered rider_id w = (
    rides_from_rows
        (env.rides.ordered w.rides (λ row. row.rider_id == rider_id) (λ row. row.requested_at)),
    w,
  )

  unfoldable pub find_by_driver_id_ordered : String → Exec (World env) (List Ride)
  find_by_driver_id_ordered driver_id w = (
    rides_from_rows (
        env.rides.ordered w.rides (λ row. is_text row.driver_id driver_id)
          (λ row. row.requested_at)),
    w,
  )

  unfoldable pub find_first_by_driver_id_and_status_in :
      String → List RideStatus → Exec (World env) (Option Ride)
  find_first_by_driver_id_and_status_in driver_id statuses w = (
    optional_ride (
        head? (
          env.rides.select w.rides
            (λ row. is_text row.driver_id driver_id && status_in row.status statuses))),
    w,
  )

  unfoldable pub find_by_status_and_requested_at_before :
      RideStatus → DateTime → Exec (World env) (List Ride)
  find_by_status_and_requested_at_before status cutoff w = (
    rides_from_rows (
        env.rides.select w.rides
          (λ row. row.status == status_value status && ltb row.requested_at cutoff)),
    w,
  )

  -- `delta` is 0.01 at every call.
  unfoldable pub count_pending_near : Float → Float → Exec (World env) ℕ
  count_pending_near lat lng w =
      let delta = env.floats.literal 1 2 in
      (
        ok (
            length (
              env.rides.select w.rides (λ row.
                row.status == status_value requested
                && env.between row.pickup_lat (env.floats.sub lat delta) (env.floats.add lat delta)
                && env.between row.pickup_lng (env.floats.sub lng delta)
                    (env.floats.add lng delta)))),
        w,
      )
