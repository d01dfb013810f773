-- ===== src/Tests/Migrations.antt =====
-- A database that keeps what is there as a stack, and the migrations run on it.
use uber_clone_python.Base.{
  arith, String, ◌==◌, eq_iff, eq_refl, ◌≡◌, ◌≢◌, refl, ap, ◌∙◌, inl, inr, Bool, true, false, ◌&&◌,
  Option, none, some, List, [], ◌∷◌, if◌then◌else◌, Bool-cases,
}
use uber_clone_python.Migrations.{Column, TableDefinition, Recount, Database}
use uber_clone_python.Migrations.Versions.{upgrade_head, downgrade_base}
use uber_clone_python.Migrations.Undone.{IsTransactional, downgrade_base-upgrade_head}

-- What was added to the database; a column knows whether it was filled in.
data Item : Type 0 where
  table : TableDefinition → Item
  index : String → String → List String → Item
  extra : String → Column → Bool → Item

unfoldable drop_last_table : String → List Item → Option (List Item)
drop_last_table name (table t ∷ items) = if t.name == name then some items else none
drop_last_table name (index n t cs ∷ items) = none
drop_last_table name (extra t c b ∷ items) = none
drop_last_table name [] = none

unfoldable drop_last_index : String → String → List Item → Option (List Item)
drop_last_index name of (index n t cs ∷ items) = if n == name && t == of then some items else none
drop_last_index name of (table t ∷ items) = none
drop_last_index name of (extra t c b ∷ items) = none
drop_last_index name of [] = none

unfoldable drop_last_column : String → String → List Item → Option (List Item)
drop_last_column of name (extra t c b ∷ items) =
    if t == of && c.name == name then some items else none
drop_last_column of name (index n t cs ∷ items) = none
drop_last_column of name (table t ∷ items) = none
drop_last_column of name [] = none

-- The column that is filled in is the newest of its name.
unfoldable fill : Recount → List Item → List Item
fill r [] = []
fill r (table t ∷ items) = table t ∷ fill r items
fill r (index n t cs ∷ items) = index n t cs ∷ fill r items
fill r (extra t c b ∷ items) =
    let rest = fill r items in
    if t == r.table && c.name == r.column then extra t c true ∷ items else extra t c b ∷ rest

abbrev stack : Database
stack = record {
  State = List Item;
  create_table = λ t s. some (table t ∷ s);
  drop_table = λ name s. drop_last_table name s;
  create_index = λ name of columns s. some (index name of columns ∷ s);
  drop_index = λ name of s. drop_last_index name of s;
  add_column = λ of c s. some (extra of c false ∷ s);
  drop_column = λ of name s. drop_last_column of name s;
  recount = λ r s. some (fill r s);
}

dropped_table :
    (t : TableDefinition) (s : List Item) → drop_last_table t.name (table t ∷ s) ≡ some s
unfolding drop_last_table
dropped_table t s = ground (arith, eq_refl t.name)

dropped_index :
    (name of : String) (columns : List String) (s : List Item)
    → drop_last_index name of (index name of columns ∷ s) ≡ some s
unfolding drop_last_index
dropped_index name of columns s = ground (arith, eq_refl name, eq_refl of)

dropped_column :
    (of : String) (c : Column) (s : List Item)
    → drop_last_column of c.name (extra of c false ∷ s) ≡ some s
unfolding drop_last_column
dropped_column of c s = ground (arith, eq_refl of, eq_refl c.name)

filled_column :
    (r : Recount) (s : List Item)
    → drop_last_column r.table r.column (fill r s) ≡ drop_last_column r.table r.column s
unfolding fill drop_last_column
filled_column r [] = refl
filled_column r (table t ∷ s) = refl
filled_column r (index n t cs ∷ s) = refl
filled_column r (extra t c b ∷ s) = elim (Bool-cases (t == r.table && c.name == r.column)) [
  | inl this ↦ ground arith
  | inr other ↦ ground arith
]

filled_other :
    (r : Recount) (of name : String) (s v : List Item)
    → r.table ≢ of
    → drop_last_column of name s ≡ some v
    → drop_last_column of name (fill r s) ≡ some (fill r v)
unfolding fill drop_last_column
filled_other r of name [] v apart h = absurd (ground arith)
filled_other r of name (table t ∷ s) v apart h = absurd (ground arith)
filled_other r of name (index n t cs ∷ s) v apart h = absurd (ground arith)
filled_other r of name (extra t c b ∷ s) v apart h = ground (arith, eq_iff t of, eq_iff t r.table)

stack-IsTransactional : IsTransactional stack
stack-IsTransactional = record {
  drop_table-create_table =
      λ t s u h. ap (drop_last_table t.name) (ground arith) ∙ dropped_table t s;
  drop_index-create_index = λ name of columns s u h.
      ap (drop_last_index name of) (ground arith) ∙ dropped_index name of columns s;
  drop_column-add_column =
      λ of c s u h. ap (drop_last_column of c.name) (ground arith) ∙ dropped_column of c s;
  drop_column-recount =
      λ r s u h. ap (drop_last_column r.table r.column) (ground arith) ∙ filled_column r s;
  drop_column-recount_other = λ r of name s u v apart reads h was. (
    fill r v,
    refl,
    ap (drop_last_column of name) (ground arith) ∙ filled_other r of name s v apart was,
  );
}

abbrev upgraded : List Item
upgraded = elim (upgrade_head stack []) [ none ↦ [] | some t ↦ t ]

upgrades : upgrade_head stack [] ≡ some upgraded
unfolding upgrade_head
upgrades = refl

downgrade_base-upgrade_head_example : downgrade_base stack upgraded ≡ some []
downgrade_base-upgrade_head_example =
    downgrade_base-upgrade_head stack stack-IsTransactional [] upgraded upgrades
