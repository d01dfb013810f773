-- ===== src/Services/Ride/Steps.antt =====
-- What every step of the lifecycle keeps.
use uber_clone_python.Base.{◌+◌, ⊤, ◌≡◌, ap, true, none, is_some, arith}
use uber_clone_python.Models.{
  RideStatus, requested, matched, in_progress, completed, cancelled, Ride,
}
use uber_clone_python.Repositories.Queries.{is_active}
use uber_clone_python.Services.Ride.Lifecycle.{Step, accept, start, complete, cancel, IsNew}

-- The fields that belong to a status.
abbrev pub FieldsOf : RideStatus → Ride → Type 0
FieldsOf requested r = (r.driver_id ≡ none) × (r.fare ≡ none) × (r.completed_at ≡ none)
FieldsOf matched r = (is_some r.driver_id ≡ true) × (r.fare ≡ none) × (r.completed_at ≡ none)
FieldsOf in_progress r = (is_some r.driver_id ≡ true) × (r.fare ≡ none) × (r.completed_at ≡ none)
FieldsOf completed r =
    (is_some r.driver_id ≡ true) × (r.fare ≡ r.estimated_fare) × (is_some r.completed_at ≡ true)
FieldsOf cancelled r = (r.fare ≡ none) × (r.completed_at ≡ none) × ⊤

-- A driver from the match on, a fare and a time exactly on completion, and always an estimate.
pub record HasShape (r : Ride) : Type 0 where
  pub estimate : is_some r.estimated_fare ≡ true
  pub fields : FieldsOf r.status r

pub Step-id : {old new : Ride} → Step old new → new.id ≡ old.id
Step-id (accept d e q) = ap (λ (r : Ride). r.id) q
Step-id (start e q) = ap (λ (r : Ride). r.id) q
Step-id (complete t e q) = ap (λ (r : Ride). r.id) q
Step-id (cancel a b q) = ap (λ (r : Ride). r.id) q

pub Step-rider_id : {old new : Ride} → Step old new → new.rider_id ≡ old.rider_id
Step-rider_id (accept d e q) = ap (λ (r : Ride). r.rider_id) q
Step-rider_id (start e q) = ap (λ (r : Ride). r.rider_id) q
Step-rider_id (complete t e q) = ap (λ (r : Ride). r.rider_id) q
Step-rider_id (cancel a b q) = ap (λ (r : Ride). r.rider_id) q

pub Step-version : {old new : Ride} → Step old new → new.version ≡ old.version + 1
Step-version (accept d e q) = ap (λ (r : Ride). r.version) q
Step-version (start e q) = ap (λ (r : Ride). r.version) q
Step-version (complete t e q) = ap (λ (r : Ride). r.version) q
Step-version (cancel a b q) = ap (λ (r : Ride). r.version) q

-- No step makes a ride active that was not.
pub Step-active :
    {old new : Ride} → Step old new → is_active new.status ≡ true → is_active old.status ≡ true
Step-active (accept d e q) h = ground arith
Step-active (start e q) h = ground arith
Step-active (complete t e q) h = ground arith
Step-active (cancel a b q) h = ground arith

pub Step-HasShape : {old new : Ride} → Step old new → HasShape old → HasShape new
Step-HasShape (accept d e q) h = ground arith
Step-HasShape (start e q) h = ground arith
Step-HasShape (complete t e q) h = ground arith
Step-HasShape (cancel a b q) h = ground arith

-- A completed ride makes no step, and a cancelled one is only cancelled again.
pub Step-completed : {old new : Ride} → Step old new → old.status ≡ completed → ⊥
Step-completed (accept d e q) h = ground arith
Step-completed (start e q) h = ground arith
Step-completed (complete t e q) h = ground arith
Step-completed (cancel a b q) h = b h

pub Step-cancelled :
    {old new : Ride} → Step old new → old.status ≡ cancelled → new.status ≡ cancelled
Step-cancelled (accept d e q) h = ground arith
Step-cancelled (start e q) h = ground arith
Step-cancelled (complete t e q) h = ground arith
Step-cancelled (cancel a b q) h = ground arith

pub IsNew-HasShape : {r : Ride} → IsNew r → HasShape r
IsNew-HasShape n = ground arith
