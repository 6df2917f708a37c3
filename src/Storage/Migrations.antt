-- ===== src/Storage/Migrations.antt =====
-- What the migrations of alembic/versions/ do to the schema of the database. A statement of Alembic is
-- an operation on the catalogue; PostgreSQL refuses one whose names are taken, missing or in use, and
-- what is raised is one error here. A run is one transaction, as alembic/env.py begins it.
pub mod Versions
pub mod Runs
pub mod Catalogs
pub mod Undo
pub mod Again
use jenezis.Prelude.{
  ℕ, Bool, true, false, not, ◌&&◌, ◌||◌, List, [], ◌∷◌, ◌++◌, map, filter, is_empty, elem, Option,
  none, some, Text, Text_eq, codes, ◌==◌, Result, ok, raise, ◌>>=◌, query_error, if◌then◌else◌,
}

pub data ColumnType : Type 0 where
  integer text boolean json float : ColumnType
  string : Option ℕ → ColumnType
  date_time : (timezone : Bool) → ColumnType
  vector : ℕ → ColumnType
  enum : Text → List Text → ColumnType

pub record Column : Type 0 where
  pub name : Text
  pub type : ColumnType
  pub nullable : Bool

-- The columns of a constraint; a foreign key has the table that it refers to.
pub data ConstraintKind : Type 0 where
  primary : List Text → ConstraintKind
  unique : List Text → ConstraintKind
  foreign : List Text → Text → ConstraintKind

pub record Constraint : Type 0 where
  pub name : Text
  pub kind : ConstraintKind

pub record Table : Type 0 where
  pub name : Text
  pub columns : List Column
  pub constraints : List Constraint

pub record Index : Type 0 where
  pub name : Text
  pub table : Text
  pub columns : List Text
  pub is_unique : Bool

pub record Catalog : Type 0 where
  pub tables : List Table
  pub indexes : List Index
  pub types : List Text
  pub extensions : List Text

-- The statements; a constraint without a name gets PostgreSQL's.
pub data Operation : Type 0 where
  create_table : Text → List Column → List (Option Text × ConstraintKind) → Operation
  drop_table : Text → Operation
  create_index : Text → Text → List Text → Bool → Operation
  drop_index : Text → Operation
  add_column : Text → Column → Operation
  drop_column : Text → Text → Operation
  create_foreign_key : Option Text → Text → Text → List Text → Operation
  drop_constraint : Option Text → Text → Operation
  create_extension : Text → Operation
  drop_extension : Text → Operation

abbrev pub columns_of : ConstraintKind → List Text
columns_of (primary columns) = columns
columns_of (unique columns) = columns
columns_of (foreign columns table) = columns

abbrev joined : List Text → Text
joined [] = []
joined (c ∷ cs) = b'_' ∷ (c ++ joined cs)

abbrev pub default_name : Text → ConstraintKind → Text
default_name table (primary columns) = table ++ codes "_pkey"
default_name table (unique columns) = table ++ (joined columns ++ codes "_key")
default_name table (foreign columns target) = table ++ (joined columns ++ codes "_fkey")

abbrev pub named : Text → Option Text × ConstraintKind → Constraint
named table (none, kind) = record { name = default_name table kind; kind = kind }
named table (some name, kind) = record { name = name; kind = kind }

-- A column of an enumeration makes the type with the table.
abbrev pub enums : List Column → List Text
enums [] = []
enums (c ∷ cs) = elim c.type [ enum name values ↦ name ∷ enums cs | _ ↦ enums cs ]

abbrev pub any : {A : Type 0} → (A → Bool) → List A → Bool
any p xs = not (is_empty (filter p xs))

abbrev pub table_names : List Table → List Text
table_names = map (λ t. t.name)

abbrev pub refers_to : Text → Constraint → Bool
refers_to table c = elim c.kind [
  | primary columns ↦ false
  | unique columns ↦ false
  | foreign columns target ↦ target == table
]

-- The tables that the foreign keys refer to are there.
abbrev pub is_known : List Text → Constraint → Bool
is_known names c = elim c.kind [
  | primary columns ↦ true
  | unique columns ↦ true
  | foreign columns target ↦ elem target names
]

abbrev pub has_targets : List Text → List Constraint → Bool
has_targets names cs = not (any (λ c. not (is_known names c)) cs)

-- Another table has a foreign key to this one.
abbrev pub is_referred : Text → List Table → Bool
is_referred name = any (λ t. not (t.name == name) && any (refers_to name) t.constraints)

abbrev pub on_table : Text → (Table → Table) → List Table → List Table
on_table name f = map (λ t. if t.name == name then f t else t)

abbrev pub has_column : Text → Text → List Table → Bool
has_column table column = any (λ t. t.name == table && elem column (map (λ c. c.name) t.columns))

abbrev has_constraint : Text → Text → List Table → Bool
has_constraint table name =
    any (λ t. t.name == table && elem name (map (λ c. c.name) t.constraints))

abbrev pub guard : Bool → Catalog → Result Catalog
guard b s = if b then ok s else raise query_error

-- `is_filled` says which tables have rows: a column that is not nullable cannot be added to one.
module _ (is_filled : Text → Bool) where
  unfoldable pub apply : Operation → Catalog → Result Catalog
  apply (create_table name columns constraints) s =
      guard
        (not (elem name (table_names s.tables))
          && not (any (λ e. elem e s.types) (enums columns))
          && has_targets (name ∷ table_names s.tables) (map (named name) constraints))
        (record s {
          tables =
              s.tables
              ++ record {
                name = name;
                columns = columns;
                constraints = map (named name) constraints;
              }
                ∷ [];
          types = s.types ++ enums columns;
        })
  apply (drop_table name) s =
      guard (elem name (table_names s.tables) && not (is_referred name s.tables)) (record s {
        tables = filter (λ t. not (t.name == name)) s.tables;
        indexes = filter (λ i. not (i.table == name)) s.indexes;
      })
  apply (create_index name table columns is_unique) s =
      guard (elem table (table_names s.tables) && not (elem name (map (λ i. i.name) s.indexes)))
        (record s {
          indexes =
              s.indexes
              ++ record { name = name; table = table; columns = columns; is_unique = is_unique }
                ∷ [];
        })
  apply (drop_index name) s =
      guard (elem name (map (λ i. i.name) s.indexes))
        (record s { indexes = filter (λ i. not (i.name == name)) s.indexes })
  apply (add_column table column) s =
      guard
        (elem table (table_names s.tables)
          && not (has_column table column.name s.tables)
          && (column.nullable || not (is_filled table)))
        (record s {
          tables = on_table table (λ t. record t { columns = t.columns ++ column ∷ [] }) s.tables;
        })
  apply (drop_column table column) s = guard (has_column table column s.tables) (record s {
    tables =
        on_table table
          (λ t. record t {
            columns = filter (λ c. not (c.name == column)) t.columns;
            constraints = filter (λ c. not (elem column (columns_of c.kind))) t.constraints;
          })
          s.tables;
  })
  apply (create_foreign_key name table target columns) s =
      guard (elem table (table_names s.tables) && elem target (table_names s.tables)) (record s {
        tables =
            on_table table
              (λ t. record t {
                constraints = t.constraints ++ named table (name, foreign columns target) ∷ [];
              })
              s.tables;
      })
  apply (drop_constraint none table) s = raise query_error
  apply (drop_constraint (some name) table) s =
      guard (has_constraint table name s.tables) (record s {
        tables =
            on_table table
              (λ t. record t { constraints = filter (λ c. not (c.name == name)) t.constraints })
              s.tables;
      })
  apply (create_extension name) s =
      ok (if elem name s.extensions then s else record s { extensions = s.extensions ++ name ∷ [] })
  apply (drop_extension name) s =
      ok (record s { extensions = filter (λ e. not (e == name)) s.extensions })

  unfoldable pub run : List Operation → Catalog → Result Catalog
  unfolding apply
  run [] s = ok s
  run (operation ∷ operations) s = apply operation s >>= run operations
