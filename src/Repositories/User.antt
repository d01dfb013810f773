-- ===== src/Repositories/User.antt =====
-- src/ride_service/repositories/user.py
use uber_clone_python.Base.{
  String, ◌==◌, Bool, not, Option, none, some, List, [], ◌∷◌, is_empty, if◌then◌else◌,
}
use uber_clone_python.Exec.{
  multiple_results_found, integrity_error, value_error, Result, ok, err, Exec,
}
use uber_clone_python.Models.{Role, role_value, role_of, User, UserRow}
use uber_clone_python.Env.{Env, World}

unfoldable pub user_to_row : User → UserRow
unfolding role_value
user_to_row u = record {
  id = u.id;
  username = u.username;
  password_hash = u.password_hash;
  role = role_value u.role;
  avg_rating = u.avg_rating;
  rating_count = u.rating_count;
}

user_with_role : UserRow → Option Role → Result User
user_with_role row none = err value_error
user_with_role row (some role) = ok (record {
  username = row.username;
  password_hash = row.password_hash;
  id = row.id;
  role = role;
  avg_rating = row.avg_rating;
  rating_count = row.rating_count;
})

-- `Role(row.role)` raises on an unknown text.
unfoldable pub user_from_row : UserRow → Result User
unfolding user_with_role role_of
user_from_row row = user_with_role row (role_of row.role)

-- `_user_from_row(row) if row is not None else None`
unfoldable pub optional_user : Option UserRow → Result (Option User)
optional_user none = ok none
optional_user (some row) = elim (user_from_row row) [ ok u ↦ ok (some u) | err e ↦ err e ]

-- `scalar_one_or_none()`
unfoldable pub one_or_none : List UserRow → Result (Option UserRow)
one_or_none [] = ok none
one_or_none (row ∷ []) = ok (some row)
one_or_none (_ ∷ _ ∷ _) = err multiple_results_found

module _ (env : Env) where
  -- The user that the table shows under a key, as `find_by_id` reads it.
  unfoldable pub read_user : env.users.State → String → Result (Option User)
  read_user table k = optional_user (env.users.get table k)

  unfoldable pub save : User → Exec (World env) User
  unfolding user_from_row user_to_row
  save u w =
      if env.admits_user w.users (user_to_row u)
      then (
        user_from_row (user_to_row u),
        record w { users = env.users.put w.users (user_to_row u) },
      )
      else (err integrity_error, w)

  unfoldable pub find_by_id : String → Exec (World env) (Option User)
  find_by_id user_id w = (read_user w.users user_id, w)

  unfoldable pub find_by_username : String → Exec (World env) (Option User)
  unfolding one_or_none
  find_by_username username w = (
    elim (one_or_none (env.users.select w.users (λ row. row.username == username))) [
      | ok row ↦ optional_user row
      | err e ↦ err e
    ],
    w,
  )

  unfoldable pub exists_by_username : String → Exec (World env) Bool
  exists_by_username username w =
      (ok (not (is_empty (env.users.select w.users (λ row. row.username == username)))), w)
