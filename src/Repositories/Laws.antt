-- ===== src/Repositories/Laws.antt =====
-- What the repositories promise to the services: rows and values translate both ways, and a save is
-- what later reads see.
use uber_clone_python.Base.{
  String, ◌==◌, eq_iff, ◌≡◌, refl, ◌≢◌, ◌⊎◌, inl, inr, Bool, true, false, Option, some, arith,
  if◌then◌else◌, Bool-cases, Option-cases,
}
use uber_clone_python.Exec.{ok}
use uber_clone_python.Models.{
  Role, rider, RideStatus, requested, role_value, status_value, role_of, status_of, User, Driver,
  Ride, UserRow, RideRow,
}
use uber_clone_python.Env.{Env}
use uber_clone_python.Env.Laws.{IsLawful}
use uber_clone_python.Repositories.User.{user_to_row, user_from_row, optional_user, read_user}
use uber_clone_python.Repositories.Driver.{driver_to_row, read_driver}
use uber_clone_python.Repositories.Ride.{ride_to_row, ride_from_row, optional_ride, read_ride}

-- Every status and every role has a text of its own, which is read back.
pub status_of-status_value : (s : RideStatus) → status_of (status_value s) ≡ some s
unfolding status_of status_value
status_of-status_value requested = refl
status_of-status_value _ = refl

pub role_of-role_value : (r : Role) → role_of (role_value r) ≡ some r
unfolding role_of role_value
role_of-role_value rider = refl
role_of-role_value _ = refl

-- The row of a ride reads back as that ride.
pub ride_from_row-ride_to_row : (r : Ride) → ride_from_row (ride_to_row r) ≡ ok r
unfolding ride_from_row ride_to_row
ride_from_row-ride_to_row r = rw status_of-status_value

pub user_from_row-user_to_row : (u : User) → user_from_row (user_to_row u) ≡ ok u
unfolding user_from_row user_to_row
user_from_row-user_to_row u = rw role_of-role_value

optional_ride-if :
    (b : Bool) (r : Ride) (old : Option RideRow)
    → optional_ride (if b then some (ride_to_row r) else old)
      ≡ (if b then ok (some r) else optional_ride old)
unfolding optional_ride
optional_ride-if true r old = ground (arith, ride_from_row-ride_to_row r)
optional_ride-if false r old = refl

optional_user-if :
    (b : Bool) (u : User) (old : Option UserRow)
    → optional_user (if b then some (user_to_row u) else old)
      ≡ (if b then ok (some u) else optional_user old)
unfolding optional_user
optional_user-if true u old = ground (arith, user_from_row-user_to_row u)
optional_user-if false u old = refl

ride_from_row_id : (row : RideRow) (r : Ride) → ride_from_row row ≡ ok r → r.id ≡ row.id
unfolding ride_from_row
ride_from_row_id row r h = ground arith

module _ (env : Env) (L : IsLawful env) where
  -- After a write of `r`, its key shows `r`, and every other key shows what it showed.
  pub read_ride-put :
      (s : env.rides.State) (r : Ride) (k : String)
      → read_ride env (env.rides.put s (ride_to_row r)) k
        ≡ (if r.id == k then ok (some r) else read_ride env s k)
  unfolding read_ride ride_to_row
  read_ride-put s r k = rw L.rides.get-put (optional_ride-if (r.id == k) r (env.rides.get s k))

  pub read_user-put :
      (s : env.users.State) (u : User) (k : String)
      → read_user env (env.users.put s (user_to_row u)) k
        ≡ (if u.id == k then ok (some u) else read_user env s k)
  unfolding read_user user_to_row
  read_user-put s u k = rw L.users.get-put (optional_user-if (u.id == k) u (env.users.get s k))

  pub read_driver-put :
      (s : env.drivers.State) (d : Driver) (k : String)
      → read_driver env (env.drivers.put s (driver_to_row d)) k
        ≡ (if d.user_id == k then some d else read_driver env s k)
  unfolding read_driver driver_to_row
  read_driver-put s d k = rw L.drivers.get-put (ground arith)

  -- What is found under a key has that key.
  pub id-read_ride :
      (s : env.rides.State) (k : String) (r : Ride) → read_ride env s k ≡ ok (some r) → r.id ≡ k
  unfolding read_ride optional_ride
  id-read_ride s k r h = elim (Option-cases (env.rides.get s k)) [
    | inl e ↦ absurd (ground arith)
    | inr (row, e) ↦ ground (arith, L.rides.get_key s k row e, ride_from_row_id row r)
  ]

  pub user_id-read_driver :
      (s : env.drivers.State) (k : String) (d : Driver)
      → read_driver env s k ≡ some d
      → d.user_id ≡ k
  unfolding read_driver
  user_id-read_driver s k d h = elim (Option-cases (env.drivers.get s k)) [
    | inl e ↦ absurd (ground arith)
    | inr (row, e) ↦ ground (arith, L.drivers.get_key s k row e)
  ]

  -- A ride that is read after a write is the one written, or was there before.
  pub read_ride-put_cases :
      (s : env.rides.State) (x : Ride) (j : String) (r : Ride)
      → read_ride env (env.rides.put s (ride_to_row x)) j ≡ ok (some r)
      → ((j ≡ x.id) × (r ≡ x)) ⊎ ((read_ride env s j ≡ ok (some r)) × (j ≢ x.id))
  read_ride-put_cases s x j r h = elim (Bool-cases (x.id == j)) [
    | inl same ↦ inl (ground (arith, eq_iff x.id j), ground (arith, read_ride-put s x j))
    | inr other ↦ inr (ground (arith, read_ride-put s x j), ground (arith, eq_iff x.id j))
  ]
