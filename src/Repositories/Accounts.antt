-- ===== src/Repositories/Accounts.antt =====
-- The only account of a name: what `find_by_username` reads after a user was saved.
use uber_clone_python.Base.{
  String, ◌==◌, eq_refl, ◌≡◌, refl, sym, ap, ◌∙◌, inl, inr, Bool, true, some, List, [], ◌∷◌, All,
  is_empty, arith, Bool-cases,
}
use uber_clone_python.Exec.{ok}
use uber_clone_python.Models.{User, UserRow}
use uber_clone_python.Env.{Env, World, Table}
use uber_clone_python.Env.Laws.{IsTable, IsLawful, Distinct}
use uber_clone_python.Repositories.Laws.{user_from_row-user_to_row}
use uber_clone_python.Repositories.Queries.{Mem-is_empty}
use uber_clone_python.Repositories.User.{user_to_row, optional_user, one_or_none, find_by_username}

module _ {Row : Type 0} (t : Table Row) (key : Row → String) (T : IsTable t key) where
  -- A row that no row matched before is the only one that matches after it is put.
  only_match :
      (s : t.State) (row : Row) (p : Row → Bool)
      → is_empty (t.select s p) ≡ true
      → (r : Row) → (p r ≡ true) × (t.get (t.put s row) (key r) ≡ some r)
      → r ≡ row
  only_match s row p alone r (fits, there) = elim (Bool-cases (key row == key r)) [
    | inl same ↦ ground (arith, T.get-put s row (key r))
    | inr other ↦ absurd (
        Mem-is_empty (t.select s p) alone
          (T.select_complete s p (key r) r (ground (arith, T.get-put s row (key r))) fits))
  ]

  -- Of rows that are all the same one and stand there once, there is one.
  one_row :
      (row : Row) (found : List Row)
      → All (λ r. r ≡ row) found
      → Distinct key found
      → (is_empty found ≡ true → ⊥)
      → found ≡ row ∷ []
  one_row row [] same apart some_row = absurd (some_row refl)
  one_row row (r ∷ []) same apart some_row = ap (λ x. x ∷ []) same.0
  one_row row (r ∷ x ∷ rs) same apart some_row = absurd (apart.0.0 (ap key (same.1.0 ∙ sym same.0)))

  matches_same :
      (s : t.State) (row : Row) (p : Row → Bool)
      → is_empty (t.select s p) ≡ true
      → (found : List Row) → All (λ r. (p r ≡ true) × (t.get (t.put s row) (key r) ≡ some r)) found
      → All (λ r. r ≡ row) found
  matches_same s row p alone [] fit = tt
  matches_same s row p alone (r ∷ rs) fit =
      (only_match s row p alone r fit.0, matches_same s row p alone rs fit.1)

  pub select-put :
      (s : t.State) (row : Row) (p : Row → Bool)
      → is_empty (t.select s p) ≡ true
      → p row ≡ true
      → t.select (t.put s row) p ≡ row ∷ []
  select-put s row p alone fits =
      let there : t.get (t.put s row) (key row) ≡ some row =
        ground (arith, T.get-put s row (key row), eq_refl (key row)) in
      one_row row (t.select (t.put s row) p)
        (matches_same s row p alone (t.select (t.put s row) p) (T.select_sound (t.put s row) p))
        (T.select_distinct (t.put s row) p)
        (λ none_there.
          Mem-is_empty (t.select (t.put s row) p) none_there
            (T.select_complete (t.put s row) p (key row) row there fits))

pub find_by_username-put :
    (env : Env) (L : IsLawful env) (w after : World env) (u : User)
    → is_empty (env.users.select w.users (λ row. row.username == u.username)) ≡ true
    → after.users ≡ env.users.put w.users (user_to_row u)
    → find_by_username env u.username after ≡ (ok (some u), after)
unfolding find_by_username optional_user one_or_none
find_by_username-put env L w after u alone e =
    let p : UserRow → Bool = λ row. row.username == u.username in
    let fits : p (user_to_row u) ≡ true = unfold user_to_row in eq_refl u.username in
    let first = select-put env.users (λ r. r.id) L.users w.users (user_to_row u) p alone fits in
    rw (e, first) (ground (arith, user_from_row-user_to_row u))
