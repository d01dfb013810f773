-- ===== src/Repositories/Rating.antt =====
-- src/ride_service/repositories/rating.py
use uber_clone_python.Base.{String, ◌==◌, Bool, not, ◌&&◌, is_empty, if◌then◌else◌}
use uber_clone_python.Exec.{integrity_error, ok, err, Exec}
use uber_clone_python.Models.{Rating, RatingRow}
use uber_clone_python.Env.{Env, World}

unfoldable pub rating_from_row : RatingRow → Rating
rating_from_row row = record {
  ride_id = row.ride_id;
  from_user_id = row.from_user_id;
  to_user_id = row.to_user_id;
  score = row.score;
  comment = row.comment;
  id = row.id;
  created_at = row.created_at;
}

unfoldable pub rating_to_row : Rating → RatingRow
rating_to_row r = record {
  id = r.id;
  ride_id = r.ride_id;
  from_user_id = r.from_user_id;
  to_user_id = r.to_user_id;
  score = r.score;
  comment = r.comment;
  created_at = r.created_at;
}

module _ (env : Env) where
  unfoldable pub save : Rating → Exec (World env) Rating
  save r w =
      if env.admits_rating w.ratings (rating_to_row r)
      then (
        ok (rating_from_row (rating_to_row r)),
        record w { ratings = env.ratings.put w.ratings (rating_to_row r) },
      )
      else (err integrity_error, w)

  unfoldable pub exists_by_ride_id_and_from_user_id : String → String → Exec (World env) Bool
  exists_by_ride_id_and_from_user_id ride_id from_user_id w = (
    ok (
        not (
          is_empty (
            env.ratings.select w.ratings
              (λ row. row.ride_id == ride_id && row.from_user_id == from_user_id)))),
    w,
  )
