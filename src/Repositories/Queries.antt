-- ===== src/Repositories/Queries.antt =====
-- What the SELECTs of the ride repository find, in terms of the rides that `find_by_id` shows.
use uber_clone_python.Base.{
  String, ◌==◌, eq_iff, ◌≡◌, refl, ◌∙◌, inl, inr, Bool, true, false, ◌&&◌, some, List, [], ◌∷◌, Mem,
  not-mem-nil, is_empty, arith, Bool-cases, Option-cases,
}
use uber_clone_python.Exec.{ok}
use uber_clone_python.Models.{
  RideStatus, requested, matched, in_progress, status_value, status_of, Ride, RideRow,
}
use uber_clone_python.Env.{Env}
use uber_clone_python.Env.Laws.{IsLawful}
use uber_clone_python.Repositories.Ride.{
  ride_from_row, optional_ride, read_ride, status_in, active_ride_statuses,
}

-- A text that is read as a status is the text of that status.
pub status_of_eq : (s : String) (st : RideStatus) → status_of s ≡ some st → s ≡ status_value st
unfolding status_of status_value
status_of_eq s st h = ground (
  arith,
  eq_iff s "REQUESTED",
  eq_iff s "MATCHED",
  eq_iff s "IN_PROGRESS",
  eq_iff s "COMPLETED",
  eq_iff s "CANCELLED",
)

-- A ride that is requested, matched or in progress.
abbrev pub is_active : RideStatus → Bool
is_active requested = true
is_active matched = true
is_active in_progress = true
is_active _ = false

pub status_in_active :
    (st : RideStatus) → status_in (status_value st) active_ride_statuses ≡ is_active st
unfolding status_in status_value
status_in_active requested = refl
status_in_active _ = refl

-- The row behind a ride that is read.
pub row_of_read :
    (env : Env) (s : env.rides.State) (k : String) (r : Ride)
    → read_ride env s k ≡ ok (some r)
    → (row : RideRow) × (env.rides.get s k ≡ some row)
      × (row.rider_id ≡ r.rider_id)
      × (row.status ≡ status_value r.status)
      × (row.driver_id ≡ r.driver_id)
unfolding read_ride optional_ride ride_from_row
row_of_read env s k r h = elim (Option-cases (env.rides.get s k)) [
  | inl e ↦ absurd (ground arith)
  | inr (row, e) ↦
      (row, e, ground arith, status_of_eq row.status r.status (ground arith), ground arith)
]

abbrev pub active_of : String → RideRow → Bool
active_of rider_id row = row.rider_id == rider_id && status_in row.status active_ride_statuses

pub Mem-is_empty : {A : Type 0} {a : A} (xs : List A) → is_empty xs ≡ true → Mem a xs → ⊥
Mem-is_empty [] h m = not-mem-nil m
Mem-is_empty (_ ∷ _) h m = cc

-- The rider's row with an active status answers the query.
active_row :
    (row : RideRow) (rider_id : String) (st : RideStatus)
    → row.rider_id ≡ rider_id
    → row.status ≡ status_value st
    → is_active st ≡ true
    → active_of rider_id row ≡ true
active_row row rider_id st e_rider e_status active =
    rw (e_status, status_in_active) (ground (arith, eq_iff row.rider_id rider_id))

-- If the query has no row, no ride of the rider is active.
pub none_active :
    (env : Env) (L : IsLawful env) (s : env.rides.State) (rider_id : String)
    → is_empty (env.rides.select s (active_of rider_id)) ≡ true
    → (k : String) (r : Ride) → read_ride env s k ≡ ok (some r)
    → r.rider_id ≡ rider_id
    → is_active r.status ≡ false
none_active env L s rider_id empty k r h same =
    let (row, e, e_rider, e_status, _) = row_of_read env s k r h in
    elim (Bool-cases (is_active r.status)) [
      | inr inactive ↦ inactive
      | inl active ↦ absurd (
          Mem-is_empty (env.rides.select s (active_of rider_id)) empty (
            L.rides.select_complete s (active_of rider_id) k row e
              (active_row row rider_id r.status (e_rider ∙ same) e_status active)))
    ]
