-- ===== src/Migrations.antt =====
-- app/db/migrations: the operations of Alembic that the two migrations use, on a catalog of tables
-- and enumeration types. An operation that the database refuses gives `none`. The name of an index
-- is compared with those of its table. A table that another refers to is not dropped, nor a type that
-- a column has.
pub mod Initial
pub mod Paystack
pub mod Restore
pub mod Declarations
pub mod Agreement
mod Examples
use saas_backend_fastapi.Prelude.{
  ℕ, String, Bool, true, false, not, ◌||◌, Option, none, some, List, [], ◌∷◌, ◌==◌, is_some,
  if◌then◌else◌,
}
use mathlib.Core.List.{◌++◌ as append}
use saas_backend_fastapi.Prelude.Rows.{any, insert, delete_where}

pub data ColumnType : Type 0 where
  string : ℕ → ColumnType
  boolean date_time json : ColumnType
  enum : String → List String → ColumnType  -- name, labels

pub data OnDelete : Type 0 where
  cascade set_null : OnDelete

pub record ForeignKey : Type 0 where
  pub table : String
  pub column : String
  pub on_delete : OnDelete

pub record Column : Type 0 where
  pub name : String
  pub type : ColumnType
  pub nullable : Bool
  pub primary_key : Bool
  pub unique : Bool
  pub foreign_key : Option ForeignKey
  pub server_default : Option String

pub record Index : Type 0 where
  pub name : String
  pub columns : List String
  pub unique : Bool

pub record Table : Type 0 where
  pub columns : List Column
  pub constraints : List (String × List String)  -- UNIQUE: name, columns
  pub indexes : List Index

pub record Catalog : Type 0 where
  pub tables : String → Option Table
  pub types : String → Option (List String)
  pub users : String → List String  -- of a table or a type: the tables that refer to it

pub data Operation : Type 0 where
  create_table : String → List Column → List (String × List String) → Operation
  drop_table : String → Operation
  create_index : String → String → List String → Bool → Operation  -- name, table, columns, unique
  drop_index : String → String → Operation  -- name, table
  rename_column : String → String → String → Operation  -- table, old name, new name
  drop_type : String → Operation  -- DROP TYPE IF EXISTS

abbrev pub set {ℓ} : {A : Type ℓ} → String → A → (String → A) → String → A
set key value f name = if name == key then value else f name

-- the types of the columns, which CREATE TABLE creates
unfoldable pub create_type :
    ColumnType → (String → Option (List String)) → Option (String → Option (List String))
create_type (enum name labels) types =
    if is_some (types name) then none else some (set name (some labels) types)
create_type _ types = some types

unfoldable pub create_types :
    List Column → (String → Option (List String)) → Option (String → Option (List String))
unfolding create_type
create_types [] types = some types
create_types (c ∷ cs) types = elim (create_type c.type types) [
  | none ↦ none
  | some types' ↦ create_types cs types'
]

abbrev key_table : Option ForeignKey → List String
key_table none = []
key_table (some key) = key.table ∷ []

abbrev type_name : ColumnType → List String
type_name (enum name labels) = name ∷ []
type_name _ = []

abbrev refers_to : (String → Option Table) → Option ForeignKey → Bool
refers_to tables none = true
refers_to tables (some key) = is_some (tables key.table)

unfoldable pub keys_exist : (String → Option Table) → List Column → Bool
keys_exist tables [] = true
keys_exist tables (c ∷ cs) =
    let rest = keys_exist tables cs in if refers_to tables c.foreign_key then rest else false

abbrev has_column : String → List Column → Bool
has_column name columns = any (λ c. c.name == name) columns

unfoldable pub all_columns : List String → List Column → Bool
all_columns [] columns = true
all_columns (name ∷ names) columns =
    let rest = all_columns names columns in if has_column name columns then rest else false

-- what a column refers to: a table by its foreign key, and a type
abbrev referred : Column → List String
referred c = append (key_table c.foreign_key) (type_name c.type)

-- the references of a table's columns, noted or forgotten
unfoldable pub change_users :
    (List String → List String) → List String → (String → List String) → String → List String
change_users change [] users = users
change_users change (name ∷ names) users =
    change_users change names (set name (change (users name)) users)

unfoldable pub all_referred : List Column → List String
all_referred [] = []
all_referred (c ∷ cs) = append (referred c) (all_referred cs)

abbrev is_unused : List String → Bool
is_unused [] = true
is_unused (name ∷ names) = false

unfoldable pub renamed : String → String → List String → List String
renamed old new [] = []
renamed old new (name ∷ names) = (if name == old then new else name) ∷ renamed old new names

unfoldable pub rename_columns : String → String → List Column → List Column
rename_columns old new [] = []
rename_columns old new (c ∷ cs) =
    (if c.name == old then record c { name = new } else c) ∷ rename_columns old new cs

unfoldable pub rename_indexes : String → String → List Index → List Index
unfolding renamed
rename_indexes old new [] = []
rename_indexes old new (i ∷ is) =
    record i { columns = renamed old new i.columns } ∷ rename_indexes old new is

unfoldable pub rename_constraints :
    String → String → List (String × List String) → List (String × List String)
unfolding renamed
rename_constraints old new [] = []
rename_constraints old new ((name, columns) ∷ cs) =
    (name, renamed old new columns) ∷ rename_constraints old new cs

module _ (c : Catalog) where
  -- the same catalog with another definition of one table
  abbrev put_table : String → Option Table → Catalog
  put_table name table = record c { tables = set name table c.tables }

  unfoldable pub apply : Operation → Option Catalog
  unfolding create_types keys_exist all_columns change_users all_referred rename_columns
      rename_indexes rename_constraints any insert delete_where
  apply (create_table name columns constraints) =
      if is_some (c.tables name)
      then none
      else if keys_exist c.tables columns
      then elim (create_types columns c.types) [
        | none ↦ none
        | some types ↦ some (record {
          tables =
              set name
                (some (record { columns = columns; constraints = constraints; indexes = [] }))
                c.tables;
          types = types;
          users = change_users (λ names. name ∷ names) (all_referred columns) c.users;
        })
      ]
      else none
  apply (drop_table name) = elim (c.tables name) [
    | none ↦ none
    | some t ↦
        if any (λ user. not (user == name)) (c.users name)
        then none
        else some (record {
          tables = set name none c.tables;
          types = c.types;
          users =
              change_users (delete_where (λ user. user == name)) (all_referred t.columns) c.users;
        })
  ]
  apply (create_index name table columns unique) = elim (c.tables table) [
    | none ↦ none
    | some t ↦
        if any (λ i. i.name == name) t.indexes
        then none
        else if all_columns columns t.columns
        then some (
            put_table table (
              some (record t {
                indexes =
                    insert (record { name = name; columns = columns; unique = unique }) t.indexes;
              })))
        else none
  ]
  apply (drop_index name table) = elim (c.tables table) [
    | none ↦ none
    | some t ↦
        if any (λ i. i.name == name) t.indexes
        then some (
            put_table table
              (some (record t { indexes = delete_where (λ i. i.name == name) t.indexes })))
        else none
  ]
  apply (rename_column table old new) = elim (c.tables table) [
    | none ↦ none
    | some t ↦
        if has_column new t.columns
        then none
        else if has_column old t.columns
        then some (
            put_table table (
              some (record t {
                columns = rename_columns old new t.columns;
                constraints = rename_constraints old new t.constraints;
                indexes = rename_indexes old new t.indexes;
              })))
        else none
  ]
  apply (drop_type name) =
      if is_unused (c.users name) then some (record c { types = set name none c.types }) else none

-- a migration: its operations in order, in one transaction
unfoldable pub migrate : List Operation → Catalog → Option Catalog
unfolding apply
migrate [] c = some c
migrate (o ∷ os) c = elim (apply c o) [ none ↦ none | some c' ↦ migrate os c' ]
