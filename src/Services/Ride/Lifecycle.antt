-- ===== src/Services/Ride/Lifecycle.antt =====
-- The life of a ride, as the README describes it: the steps that the methods of RideService may
-- make, and what each step writes.
use uber_clone_python.Base.{◌+◌, ◌≤◌, ◌<◌, String, ◌≡◌, ◌≢◌, true, false, none, some, is_some}
use uber_clone_python.Exec.{ok}
use uber_clone_python.Models.{DateTime, requested, matched, in_progress, completed, cancelled, Ride}
use uber_clone_python.Env.{Env, World}
use uber_clone_python.Repositories.Queries.{is_active}
use uber_clone_python.Repositories.Ride.{read_ride, ride_to_row}

-- A driver accepts, starts and completes; the rider or the driver cancels.
pub data Step (old new : Ride) : Type 0 where
  accept :
      (driver_id : String)
      → old.status ≡ requested
      → new ≡ record old { driver_id = some driver_id; status = matched; version = old.version + 1 }
      → Step old new
  start :
      old.status ≡ matched
      → new ≡ record old { status = in_progress; version = old.version + 1 }
      → Step old new
  complete :
      (now : DateTime)
      → old.status ≡ in_progress
      → new ≡ record old {
        status = completed;
        fare = old.estimated_fare;
        completed_at = some now;
        version = old.version + 1;
      }
      → Step old new
  cancel :
      old.status ≢ in_progress
      → old.status ≢ completed
      → new ≡ record old { status = cancelled; version = old.version + 1 }
      → Step old new

-- A ride as a rider requests it.
pub record IsNew (r : Ride) : Type 0 where
  pub is_requested : r.status ≡ requested
  pub no_driver : r.driver_id ≡ none
  pub has_estimate : is_some r.estimated_fare ≡ true
  pub no_fare : r.fare ≡ none
  pub not_completed : r.completed_at ≡ none
  pub first_version : r.version ≡ 0

-- What one call may do to the table of rides: nothing, or one write, of a new ride under the uuid
-- just drawn by a rider with no active ride, or of one step of a ride that is there.
pub data Effect (env : Env) (before after : World env) : Type 0 where
  unchanged : after.rides ≡ before.rides → before.drawn ≤ after.drawn → Effect env before after
  created :
      (r : Ride)
      → IsNew r
      → r.id ≡ env.uuid before.drawn
      → before.drawn < after.drawn
      → ((k : String) (other : Ride)
          → read_ride env before.rides k ≡ ok (some other)
          → other.rider_id ≡ r.rider_id
          → is_active other.status ≡ false)
      → after.rides ≡ env.rides.put before.rides (ride_to_row r)
      → Effect env before after
  moved :
      (k : String) (old new : Ride)
      → read_ride env before.rides k ≡ ok (some old)
      → Step old new
      → before.drawn ≤ after.drawn
      → after.rides ≡ env.rides.put before.rides (ride_to_row new)
      → Effect env before after
