-- ===== src/Services/Rating.antt =====
-- src/ride_service/services/rating.py
pub mod Once
use uber_clone_python.Base.{
  ℕ, zero, suc, ◌+◌, ◌≤◌, ◌<◌, ⊤, String, ◌==◌, eq_iff, eq_refl, ◌≡◌, refl, sym, ap, ◌∙◌, ◌≢◌, ◌↔◌,
  ◌⊎◌, inl, inr, Bool, true, false, not, ◌&&◌, ◌||◌, Option, none, some, List, [], ◌∷◌, ◌++◌, map,
  Mem, not-mem-nil, All, length, is_empty, is_some, is_text, head?, contains, arith, ltb, leb, eqb,
  if◌then◌else◌, Bool-cases, Option-cases,
}
use uber_clone_python.Exec.{
  Error, http, integrity_error, value_error, decimal_error, redis_error, Result, ok, err, Exec,
  pure, raise, lift, gets, or_raise, ◌>>=◌, ◌>>◌, raise_if, modify,
}
use uber_clone_python.Models.{
  Float, DateTime, Role, rider, driver, RideStatus, requested, matched, in_progress, completed,
  cancelled, role_value, status_value, role_of, status_of, is_role, is_status, User, Driver, Ride,
  Rating, UserRow, DriverRow, RideRow, RatingRow,
}
use uber_clone_python.Decimal.{Decimal}
use uber_clone_python.Env.{Env, World, Table}
use uber_clone_python.Base.{ℤ, pos, negsuc}
use uber_clone_python.Env.{FloatOps}
use uber_clone_python.Decimal.{quantize}
use uber_clone_python.Repositories.Driver as DriverRepository
use uber_clone_python.Repositories.Ride as RideRepository
use uber_clone_python.Repositories.Rating as RatingRepository
use uber_clone_python.Repositories.User as UserRepository
use uber_clone_python.Services.Ride.{ride_not_found, not_participant}

-- `1 <= score <= 5`
abbrev pub in_range : ℤ → Bool
in_range (pos n) = leb 1 n && leb n 5
in_range (negsuc _) = false

old_or_zero : FloatOps → Option Float → Float
old_or_zero fl none = fl.literal 0 1
old_or_zero fl (some avg) = avg

-- `_incremental_avg` and `_round_to_2`
unfoldable pub incremental_avg : FloatOps → Option Float → ℕ → ℤ → Float
unfolding old_or_zero
incremental_avg fl old_avg old_count new_score =
    fl.div
      (fl.add (fl.mul (old_or_zero fl old_avg) (fl.of_int (pos old_count))) (fl.of_int new_score))
      (fl.of_int (pos (old_count + 1)))

unfoldable pub round_to_2 : FloatOps → Float → Result Float
round_to_2 fl value = elim (quantize (fl.to_decimal value)) [
  | ok d ↦ ok (fl.of_decimal d)
  | err e ↦ err e
]

-- The counterpart whom the caller rates, or the refusal.
unfoldable pub rated_user : Ride → String → Result String
rated_user ride from_user_id =
    if from_user_id == ride.rider_id
    then elim ride.driver_id [ none ↦ err (http 409 "Ride has no assigned driver") | some d ↦ ok d ]
    else if is_text ride.driver_id from_user_id
    then ok ride.rider_id
    else err not_participant

module _ (env : Env) where
  -- `if driver is not None`: the average and the count of the driver profile.
  unfoldable pub rate_driver : ℤ → Option Driver → Exec (World env) ⊤
  unfolding round_to_2
  rate_driver score none = pure tt
  rate_driver score (some d) = do
    new_avg ←
        lift (round_to_2 env.floats (incremental_avg env.floats d.avg_rating d.rating_count score))
    DriverRepository.save env
        (record d { avg_rating = some new_avg; rating_count = d.rating_count + 1 })
    pure tt

  -- `if user is not None`: the same on the user.
  unfoldable pub rate_user : ℤ → Option User → Exec (World env) ⊤
  unfolding round_to_2
  rate_user score none = pure tt
  rate_user score (some u) = do
    new_avg ←
        lift (round_to_2 env.floats (incremental_avg env.floats u.avg_rating u.rating_count score))
    UserRepository.save env
        (record u { avg_rating = some new_avg; rating_count = u.rating_count + 1 })
    pure tt

  -- The last part of `rate`: the driver profile of the counterpart, then the user.
  unfoldable pub update_averages : String → ℤ → Exec (World env) ⊤
  unfolding DriverRepository.find_by_id UserRepository.find_by_id
  update_averages to_user_id score = do
    d ← DriverRepository.find_by_id env to_user_id
    rate_driver score d
    u ← UserRepository.find_by_id env to_user_id
    rate_user score u

  -- `Rating(...)` with its default fields.
  unfoldable pub new_rating : String → String → String → ℤ → Option String → Exec (World env) Rating
  new_rating ride_id from_user_id to_user_id score comment w = (
    ok (record {
      ride_id = ride_id;
      from_user_id = from_user_id;
      to_user_id = to_user_id;
      score = score;
      comment = comment;
      id = env.uuid w.drawn;
      created_at = w.now;
    }),
    record w { drawn = w.drawn + 1 },
  )

  unfoldable pub rate : String → String → ℤ → Option String → Exec (World env) ⊤
  unfolding new_rating RideRepository.find_by_id RatingRepository.exists_by_ride_id_and_from_user_id
      RatingRepository.save
  rate ride_id from_user_id score comment = do
    raise_if (not (in_range score)) (http 400 "Score must be between 1 and 5")
    found ← RideRepository.find_by_id env ride_id
    ride ← or_raise found ride_not_found
    raise_if (not (is_status ride.status completed)) (http 409 "Can only rate a completed ride")
    to_user_id ← lift (rated_user ride from_user_id)
    rated ← RatingRepository.exists_by_ride_id_and_from_user_id env ride_id from_user_id
    raise_if rated (http 409 "Already rated this ride")
    rating ← new_rating ride_id from_user_id to_user_id score comment
    RatingRepository.save env rating
    update_averages to_user_id score
