-- ===== src/Migrations.antt =====
-- migrations: what a migration asks of the database through Alembic's `op`.
pub mod Versions
pub mod Undone
use uber_clone_python.Base.{ℕ, String, Bool, true, false, Option, none, some, List, [], ◌∷◌}

-- The column types of SQLAlchemy; every timestamp is one with a time zone.
pub data ColumnType : Type 0 where
  string : ℕ → ColumnType
  text double boolean integer big_integer timestamp : ColumnType
  numeric : ℕ → ℕ → ColumnType

-- `sa.Column(...)`
pub record Column : Type 0 where
  pub name : String
  pub type : ColumnType
  pub foreign_key : Option String
  pub primary_key : Bool
  pub nullable : Bool
  pub unique : Bool
  pub server_default : Option String

-- The arguments of `op.create_table`.
pub record TableDefinition : Type 0 where
  pub name : String
  pub columns : List Column
  pub unique_constraints : List (String × List String)

-- `UPDATE table SET column = (SELECT COUNT(*) FROM counted r WHERE r.reference = table.key)`
pub record Recount : Type 0 where
  pub table : String
  pub column : String
  pub counted : String
  pub reference : String
  pub key : String

-- Alembic's operations on a database; `none` is an exception.
pub record Database : Type 1 where
  pub State : Type 0
  pub create_table : TableDefinition → State → Option State
  pub drop_table : String → State → Option State
  pub create_index : String → String → List String → State → Option State
  pub drop_index : String → String → State → Option State
  pub add_column : String → Column → State → Option State
  pub drop_column : String → String → State → Option State
  pub recount : Recount → State → Option State

-- A column that is neither a key nor unique and has no default.
abbrev pub column : String → ColumnType → Bool → Column
column name type nullable = record {
  name = name;
  type = type;
  foreign_key = none;
  primary_key = false;
  nullable = nullable;
  unique = false;
  server_default = none;
}

-- One operation after the other.
infixl 5 ◌then_do◌
abbrev pub ◌then_do◌ : {A B C : Type 0} → (A → Option B) → (B → Option C) → A → Option C
(f then_do g) a = elim (f a) [ none ↦ none | some b ↦ g b ]
