-- ===== src/Migrations/Undone.antt =====
-- migrations/versions: what a downgrade makes of an upgraded database.
use uber_clone_python.Base.{
  arith, eq_iff, String, ◌≡◌, refl, ap, ◌∙◌, ◌≢◌, Option, none, some, List,
}
use uber_clone_python.Migrations.{Column, TableDefinition, Recount, Database, ◌then_do◌}
use uber_clone_python.Migrations.Versions.{
  users, drivers, rides, ratings, rating_count, users_recount, drivers_recount, upgrade_1,
  downgrade_1, upgrade_2, downgrade_2, upgrade_3, downgrade_3, upgrade_head, downgrade_base,
}

-- What is relied on of the database: a new table, index or column can be dropped, which leaves what
-- there was; a column is dropped with its values; and what is computed for a column of one table does
-- not depend on a column of another table that it does not read.
pub record IsTransactional (db : Database) : Type 0 where
  pub drop_table-create_table :
      (t : TableDefinition) (s u : db.State)
      → db.create_table t s ≡ some u
      → db.drop_table t.name u ≡ some s
  pub drop_index-create_index :
      (name table : String) (columns : List String) (s u : db.State)
      → db.create_index name table columns s ≡ some u
      → db.drop_index name table u ≡ some s
  pub drop_column-add_column :
      (table : String) (c : Column) (s u : db.State)
      → db.add_column table c s ≡ some u
      → db.drop_column table c.name u ≡ some s
  pub drop_column-recount :
      (r : Recount) (s u : db.State)
      → db.recount r s ≡ some u
      → db.drop_column r.table r.column u ≡ db.drop_column r.table r.column s
  pub drop_column-recount_other :
      (r : Recount) (table name : String) (s u v : db.State)
      → r.table ≢ table
      → r.counted ≢ table
      → db.recount r s ≡ some u
      → db.drop_column table name s ≡ some v
      → (w : db.State) × (db.recount r v ≡ some w) × (db.drop_column table name u ≡ some w)

module _ {S : Type 0} where
  -- A step back.
  abbrev Undoes : (S → Option S) → (S → Option S) → Type 0
  Undoes back step = (s t : S) → step s ≡ some t → back t ≡ some s

  then_do_some : (f g : S → Option S) (s t : S) → f s ≡ some t → (f then_do g) s ≡ g t
  then_do_some f g s t h =
      ap (λ (o : Option S). elim o as (λ _. Option S) [ none ↦ none | some b ↦ g b ]) h

  then_do_cases :
      (f g : S → Option S) (s u : S)
      → (f then_do g) s ≡ some u
      → (t : S) × (f s ≡ some t) × (g t ≡ some u)
  then_do_cases f g s u h = halfway (f s) refl h
    where
      halfway :
          (o : Option S)
          → f s ≡ o
          → (elim o as (λ _. Option S) [ none ↦ none | some b ↦ g b ]) ≡ some u
          → (t : S) × (f s ≡ some t) × (g t ≡ some u)
      halfway none e h = absurd (ground arith)
      halfway (some t) e h = (t, e, h)

  -- Four steps and the steps back in the opposite order.
  Undoes-four :
      (a b c d a' b' c' d' : S → Option S)
      → Undoes a' a
      → Undoes b' b
      → Undoes c' c
      → Undoes d' d
      → Undoes (d' then_do c' then_do b' then_do a') (a then_do b then_do c then_do d)
  Undoes-four a b c d a' b' c' d' one two three four s t h =
      let (s3, first3, last) = then_do_cases (a then_do b then_do c) d s t h in
      let (s2, first2, third) = then_do_cases (a then_do b) c s s3 first3 in
      let (s1, first, second) = then_do_cases a b s s2 first2 in
      let back2 = then_do_some d' c' t s3 (four s3 t last) ∙ three s2 s3 third in
      let back1 = then_do_some (d' then_do c') b' t s2 back2 ∙ two s1 s2 second in
      then_do_some (d' then_do c' then_do b') a' t s1 back1 ∙ one s s1 first

  Undoes-three :
      (a b c a' b' c' : S → Option S)
      → Undoes a' a
      → Undoes b' b
      → Undoes c' c
      → Undoes (c' then_do b' then_do a') (a then_do b then_do c)
  Undoes-three a b c a' b' c' one two three s t h =
      let (s2, first2, third) = then_do_cases (a then_do b) c s t h in
      let (s1, first, second) = then_do_cases a b s s2 first2 in
      let back1 = then_do_some c' b' t s2 (three s2 t third) ∙ two s1 s2 second in
      then_do_some (c' then_do b') a' t s1 back1 ∙ one s s1 first

module _ (db : Database) (is : IsTransactional db) where
  baseline_undone : Undoes (downgrade_1 db) (upgrade_1 db)
  unfolding downgrade_1 upgrade_1
  baseline_undone =
      Undoes-four (db.create_table users) (db.create_table drivers) (db.create_table rides)
        (db.create_table ratings) (db.drop_table "users") (db.drop_table "drivers")
        (db.drop_table "rides") (db.drop_table "ratings") (is.drop_table-create_table users)
        (is.drop_table-create_table drivers) (is.drop_table-create_table rides)
        (is.drop_table-create_table ratings)

  indexes_undone : Undoes (downgrade_2 db) (upgrade_2 db)
  unfolding downgrade_2 upgrade_2
  indexes_undone =
      Undoes-four _ _ _ _ _ _ _ _ (is.drop_index-create_index "idx_rides_rider_requested" "rides" _)
        (is.drop_index-create_index "idx_rides_driver_requested" "rides" _)
        (is.drop_index-create_index "idx_rides_driver_status" "rides" _)
        (is.drop_index-create_index "idx_rides_status_location" "rides" _)

  users_apart : users_recount.table ≢ "drivers"
  users_apart same = absurd (ground (arith, eq_iff "users" "drivers"))

  ratings_apart : users_recount.counted ≢ "drivers"
  ratings_apart same = absurd (ground (arith, eq_iff "ratings" "drivers"))

  -- The counts that were filled in go with their columns.
  counts_undone : Undoes (downgrade_3 db) (upgrade_3 db)
  unfolding downgrade_3 upgrade_3
  counts_undone s t h =
      let (s3, first3, last) =
        then_do_cases
          (db.add_column "users" rating_count
            then_do db.add_column "drivers" rating_count
            then_do db.recount users_recount)
          (db.recount drivers_recount) s t h in
      let (s2, first2, third) =
        then_do_cases
          (db.add_column "users" rating_count then_do db.add_column "drivers" rating_count)
          (db.recount users_recount) s s3 first3 in
      let (s1, first, second) =
        then_do_cases (db.add_column "users" rating_count) (db.add_column "drivers" rating_count) s
          s2 first2 in
      let (w, counted, dropped) =
        is.drop_column-recount_other users_recount "drivers" "rating_count" s2 s3 s1 users_apart
          ratings_apart third (is.drop_column-add_column "drivers" rating_count s1 s2 second) in
      then_do_some (db.drop_column "drivers" "rating_count") (db.drop_column "users" "rating_count")
        t w (is.drop_column-recount drivers_recount s3 t last ∙ dropped)
      ∙ is.drop_column-recount users_recount s1 w counted
      ∙ is.drop_column-add_column "users" rating_count s s1 first

  -- For a database where what was created can be dropped again, a column is dropped with its
  -- values, and the counts for one table do not depend on a column of another: if the three
  -- migrations run on a state from the first to the last without an exception, their downgrades
  -- from the last to the first run without one and lead back to that state.
  pub downgrade_base-upgrade_head :
      (s t : db.State) → upgrade_head db s ≡ some t → downgrade_base db t ≡ some s
  unfolding downgrade_base upgrade_head
  downgrade_base-upgrade_head =
      Undoes-three (upgrade_1 db) (upgrade_2 db) (upgrade_3 db) (downgrade_1 db) (downgrade_2 db)
        (downgrade_3 db) baseline_undone indexes_undone counts_undone
