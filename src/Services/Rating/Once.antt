-- ===== src/Services/Rating/Once.antt =====
-- `RatingService.rate`: who may rate, and that nobody rates a ride twice.
use uber_clone_python.Base.{
  ◌+◌, String, ◌==◌, eq_refl, ◌≡◌, refl, inl, inr, Bool, true, false, ◌&&◌, Option, none, some,
  is_empty, arith, Bool-cases,
}
use uber_clone_python.Exec.{http, ok, err, Result-cases, ok-or-err, lift_keeps, pure, ◌>>◌}
use uber_clone_python.Models.{completed, User, Driver, Ride, Rating, RatingRow}
use uber_clone_python.Env.{Env, World}
use uber_clone_python.Base.{ℤ, pos, negsuc, ℕ, ◌≤◌, ◌⊎◌, ◌≢◌, eq_iff, Option-cases}
use uber_clone_python.Env.Laws.{IsLawful}
use uber_clone_python.Repositories.Driver as DriverRepository
use uber_clone_python.Repositories.User as UserRepository
use uber_clone_python.Repositories.Rating.{rating_to_row}
use uber_clone_python.Repositories.Ride.{read_ride}
use uber_clone_python.Repositories.Queries.{Mem-is_empty}
use uber_clone_python.Services.Rating.{
  in_range, rated_user, round_to_2, incremental_avg, rate_driver, rate_user, update_averages, rate,
}

-- The averages do not touch the rides and the ratings.
abbrev Leaves : (env : Env) → World env → World env → Type 0
Leaves env before after = (after.rides ≡ before.rides) × (after.ratings ≡ before.ratings)

module _ (env : Env) (w : World env) where
  save_driver-Leaves : (d : Driver) → Leaves env w (DriverRepository.save env d w).1
  unfolding DriverRepository.save
  save_driver-Leaves d = ground arith

  save_user-Leaves : (u : User) → Leaves env w (UserRepository.save env u w).1
  unfolding UserRepository.save
  save_user-Leaves u = ground arith

  rate_driver-Leaves : (n : ℤ) (d : Option Driver) → Leaves env w (rate_driver env n d w).1
  unfolding rate_driver
  rate_driver-Leaves n none = (refl, refl)
  rate_driver-Leaves n (some d) =
      lift_keeps (Leaves env w)
        (round_to_2 env.floats (incremental_avg env.floats d.avg_rating d.rating_count n))
        (λ a.
          DriverRepository.save env
            (record d { avg_rating = some a; rating_count = d.rating_count + 1 })
          >> pure tt)
        w (refl, refl)
        (λ a. ground (
          arith,
          save_driver-Leaves (record d { avg_rating = some a; rating_count = d.rating_count + 1 }),
        ))

  rate_user-Leaves : (n : ℤ) (u : Option User) → Leaves env w (rate_user env n u w).1
  unfolding rate_user
  rate_user-Leaves n none = (refl, refl)
  rate_user-Leaves n (some u) =
      lift_keeps (Leaves env w)
        (round_to_2 env.floats (incremental_avg env.floats u.avg_rating u.rating_count n))
        (λ a.
          UserRepository.save env
            (record u { avg_rating = some a; rating_count = u.rating_count + 1 })
          >> pure tt)
        w (refl, refl)
        (λ a. ground (
          arith,
          save_user-Leaves (record u { avg_rating = some a; rating_count = u.rating_count + 1 }),
        ))

update_averages-Leaves :
    (env : Env) (w : World env) (u : String) (n : ℤ) → Leaves env w (update_averages env u n w).1
unfolding update_averages
update_averages-Leaves env w u n = grind (arith, rate_driver-Leaves, rate_user-Leaves)

module _ (env : Env) where
  -- The rating that a call draws.
  abbrev drawn_rating : World env → String → String → String → ℤ → Option String → Rating
  drawn_rating w ride_id from_user_id to_user_id n comment = record {
    ride_id = ride_id;
    from_user_id = from_user_id;
    to_user_id = to_user_id;
    score = n;
    comment = comment;
    id = env.uuid w.drawn;
    created_at = w.now;
  }

  -- The caller is one of the ride's two participants and the other one is rated.
  abbrev pub Counterpart : Ride → String → String → Type 0
  Counterpart ride from_user_id to_user_id =
      ((from_user_id ≡ ride.rider_id) × (ride.driver_id ≡ some to_user_id))
      ⊎ ((from_user_id ≢ ride.rider_id)
          × (ride.driver_id ≡ some from_user_id)
          × (to_user_id ≡ ride.rider_id))

  rated_user-Counterpart :
      (ride : Ride) (u to : String) → rated_user ride u ≡ ok to → Counterpart ride u to
  unfolding rated_user
  rated_user-Counterpart ride u to h = elim (Bool-cases (u == ride.rider_id)) [
    | inl same ↦ elim (Option-cases ride.driver_id) [
      | inl missing ↦ absurd (ground arith)
      | inr (d, there) ↦ inl (ground (arith, eq_iff u ride.rider_id), ground arith)
    ]
    | inr other ↦ elim (Option-cases ride.driver_id) [
      | inl missing ↦ absurd (ground arith)
      | inr (d, there) ↦ inr (
        λ e. ground (arith, eq_iff u ride.rider_id),
        ground (arith, eq_iff d u),
        ground (arith, eq_iff d u),
      )
    ]
  ]

  in_range-bounds : (n : ℤ) → in_range n ≡ true → (k : ℕ) × (n ≡ pos k) × (1 ≤ k) × (k ≤ 5)
  in_range-bounds (pos k) h = (k, refl, ground arith, ground arith)
  in_range-bounds (negsuc k) h = absurd (ground arith)

  -- What a successful rating had before it, and what it stored.
  pub record Rated (w : World env) (ride_id from_user_id : String) (n : ℤ) (comment : Option String)
      (w' : World env) : Type 0 where
    pub ride : Ride
    pub to_user_id : String
    pub stars : ℕ
    pub score : n ≡ pos stars
    pub bounds : (1 ≤ stars) × (stars ≤ 5)
    pub found : read_ride env w.rides ride_id ≡ ok (some ride)
    pub was_completed : ride.status ≡ completed
    pub counterpart : Counterpart ride from_user_id to_user_id
    pub rides_same : w'.rides ≡ w.rides
    pub stored :
        w'.ratings
        ≡ env.ratings.put w.ratings
            (rating_to_row (drawn_rating w ride_id from_user_id to_user_id n comment))

  -- If a rating succeeds, the score was from 1 to 5, the ride was there and completed, and the
  -- caller was one of its two participants; it stored one rating of the other participant, with
  -- that score and comment, and left the rides alone.
  pub rate-Rated :
      (w : World env) (ride_id from_user_id : String) (n : ℤ) (comment : Option String)
      → (rate env ride_id from_user_id n comment w).0 ≡ ok tt
      → Rated w ride_id from_user_id n comment (rate env ride_id from_user_id n comment w).1
  unfolding rate
  rate-Rated w ride_id u n comment h = elim (Result-cases (read_ride env w.rides ride_id)) [
    | inl (e, missing) ↦ absurd (ground arith)
    | inr (inl missing) ↦ absurd (ground arith)
    | inr (inr (ride, found)) ↦ elim (ok-or-err (rated_user ride u)) [
      | inl (e, refused) ↦ absurd (ground arith)
      | inr (to, allowed) ↦
          let (stars, score, low, high) = in_range-bounds n (ground arith) in
          record {
            ride = ride;
            to_user_id = to;
            stars = stars;
            score = score;
            bounds = (low, high);
            found = found;
            was_completed = ground arith;
            counterpart = rated_user-Counterpart ride u to allowed;
            rides_same = grind (arith, update_averages-Leaves);
            stored = grind (arith, update_averages-Leaves);
          }
    ]
  ]

  -- The rating that a success stored answers the query for the caller's ratings of the ride.
  rated_already :
      (L : IsLawful env) (w w' : World env) (ride_id u to : String) (n : ℤ)
      (comment : Option String)
      → w'.ratings
        ≡ env.ratings.put w.ratings (rating_to_row (drawn_rating w ride_id u to n comment))
      → is_empty
          (env.ratings.select w'.ratings (λ row. row.ride_id == ride_id && row.from_user_id == u))
        ≡ false
  rated_already L w w' ride_id u to n comment stored =
      let clause : RatingRow → Bool = λ row. row.ride_id == ride_id && row.from_user_id == u in
      let row = rating_to_row (drawn_rating w ride_id u to n comment) in
      let there : env.ratings.get w'.ratings row.id ≡ some row =
        rw stored (rw L.ratings.get-put (ground (arith, eq_refl row.id))) in
      let fits : clause row ≡ true =
        unfold rating_to_row in ground (arith, eq_refl ride_id, eq_refl u) in
      elim (Bool-cases (is_empty (env.ratings.select w'.ratings clause))) [
        | inr some_row ↦ some_row
        | inl no_row ↦ absurd (
            Mem-is_empty (env.ratings.select w'.ratings clause) no_row
              (L.ratings.select_complete w'.ratings clause row.id row there fits))
      ]

  Counterpart-rated_user :
      (ride : Ride) (u to : String) → Counterpart ride u to → rated_user ride u ≡ ok to
  unfolding rated_user
  Counterpart-rated_user ride u to (inl (same, there)) = ground (arith, eq_iff u ride.rider_id)
  Counterpart-rated_user ride u to (inr (other, there, is)) =
      ground (arith, eq_iff u ride.rider_id, eq_refl u)

  -- Who has rated the ride is refused.
  rated_refused :
      (w : World env) (ride_id u to : String) (ride : Ride) (n : ℤ) (comment : Option String)
      → in_range n ≡ true
      → read_ride env w.rides ride_id ≡ ok (some ride)
      → ride.status ≡ completed
      → rated_user ride u ≡ ok to
      → is_empty
          (env.ratings.select w.ratings (λ row. row.ride_id == ride_id && row.from_user_id == u))
        ≡ false
      → rate env ride_id u n comment w ≡ (err (http 409 "Already rated this ride"), w)
  unfolding rate
  rated_refused w ride_id u to ride n comment h1 h2 h3 h4 h5 = ground arith

  -- In a lawful environment, after a user has rated a ride with success, that user's next rating
  -- of the ride, with any score from 1 to 5 and any comment, is refused with 409 and changes
  -- nothing.
  pub rate_once :
      (L : IsLawful env) (w : World env) (ride_id from_user_id : String) (n : ℤ)
      (comment : Option String)
      → (rate env ride_id from_user_id n comment w).0 ≡ ok tt
      → (again : ℤ) (other : Option String) → in_range again ≡ true
      → rate env ride_id from_user_id again other (rate env ride_id from_user_id n comment w).1
        ≡ (err (http 409 "Already rated this ride"), (rate env ride_id from_user_id n comment w).1)
  rate_once L w ride_id u n comment h again other fits =
      let w' = (rate env ride_id u n comment w).1 in
      let r = rate-Rated w ride_id u n comment h in
      let found : read_ride env w'.rides ride_id ≡ ok (some r.ride) = rw r.rides_same r.found in
      let rated = rated_already L w w' ride_id u r.to_user_id n comment r.stored in
      rated_refused w' ride_id u r.to_user_id r.ride again other fits found r.was_completed
        (Counterpart-rated_user r.ride u r.to_user_id r.counterpart) rated
