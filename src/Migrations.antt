-- ===== src/Migrations.antt =====
-- backend/migrations: the statements that the revisions give to Alembic, and a schema as they build
-- it. A schema is what the database keeps of tables and indexes; rows are left out, and a statement
-- that the database refuses is `none`.
pub mod Names
pub mod Columns
pub mod Seeding
pub mod Initial
pub mod AddTwoFactor
pub mod AddSessions
pub mod AddEmailTokens
pub mod AddOauthAccounts
pub mod CompositeIndexes
pub mod Revisions
pub mod Closed
pub mod Undo
pub mod Downgrades
pub mod Mapping
pub mod Declared
pub mod Onto
pub mod Head
pub mod Keys
pub mod Adds
use enterprise_auth_server.Common.{
  ℕ, Bool, true, false, not, ◌&&◌, Option, none, some, List, [], ◌∷◌, ◌++◌, any, find, select, ◌==◌,
  if◌then◌else◌, Text,
}
use enterprise_auth_server.Common.Partial.{◌>>=◌}
use enterprise_auth_server.Migrations.Names.{Name, name_eq, contains, covers}

-- GUID(), String(length), Boolean(), Integer(), DateTime(timezone=True)
pub data ColumnType : Type 0 where
  guid : ColumnType
  string : ℕ → ColumnType
  boolean : ColumnType
  integer : ColumnType
  timestamp : ColumnType

-- Column. The flag is set where the server's default is CURRENT_TIMESTAMP.
pub record Column : Type 0 where
  pub name : Name
  pub type : ColumnType
  pub nullable : Bool
  pub defaults_to_now : Bool

-- ForeignKeyConstraint(ondelete="CASCADE") of one column
pub record ForeignKey : Type 0 where
  pub column : Name
  pub table : Name
  pub target : Name

-- UniqueConstraint
pub record UniqueConstraint : Type 0 where
  pub name : Name
  pub columns : List Name

-- op.create_table
pub record Table : Type 0 where
  pub name : Name
  pub columns : List Column
  pub foreign_keys : List ForeignKey
  pub primary_key : List Name
  pub uniques : List UniqueConstraint

-- op.create_index
pub record Index : Type 0 where
  pub name : Name
  pub table : Name
  pub columns : List Name
  pub unique : Bool

pub data Value : Type 0 where
  uuid : ℕ → Value
  str : Text → Value

-- The calls of alembic's `op`.
pub data Operation : Type 0 where
  create_table : Table → Operation
  drop_table : Name → Operation
  create_index : Index → Operation
  drop_index : Name → Operation
  bulk_insert : Name → List Name → List (List Value) → Operation

pub record Schema : Type 0 where
  pub tables : List Table
  pub indexes : List Index

abbrev pub empty : Schema
empty = record { tables = []; indexes = [] }

abbrev pub names_table : Name → Table → Bool
names_table n t = t.name == n

abbrev pub names_index : Name → Index → Bool
names_index n i = i.name == n

-- A table has a foreign key to the table of this name.
unfoldable pub refers_to : Name → Table → Bool
unfolding any
refers_to n t = any (λ k. k.table == n) t.foreign_keys

-- The tables that the foreign keys name are there.
unfoldable pub targets_exist : List ForeignKey → List Table → Bool
unfolding any
targets_exist [] ts = true
targets_exist (k ∷ ks) ts = if any (names_table k.table) ts then targets_exist ks ts else false

unfoldable pub names_of : List Column → List Name
names_of [] = []
names_of (c ∷ cs) = c.name ∷ names_of cs

-- The table of this name has these columns.
unfoldable pub has_columns : Name → List Name → List Table → Bool
unfolding find covers names_of
has_columns n cs ts = elim (find (names_table n) ts) [
  | none ↦ false
  | some t ↦ covers (names_of t.columns) cs
]

-- What a statement makes of the schema, and when the database refuses it: a name that is taken or
-- missing, a foreign key to a table that is not there, a column that the table does not have, and a
-- drop of a table that another one refers to. A table's indexes go with it.
unfoldable pub apply : Operation → Schema → Option Schema
unfolding any select targets_exist has_columns refers_to
apply (create_table t) s =
    if any (names_table t.name) s.tables
    then none
    else if targets_exist t.foreign_keys (s.tables ++ t ∷ [])
    then some (record s { tables = s.tables ++ t ∷ [] })
    else none
apply (drop_table n) s =
    if any (λ t. not (t.name == n) && refers_to n t) s.tables
    then none
    else if any (names_table n) s.tables
    then some (record {
      tables = select (λ t. not (t.name == n)) s.tables;
      indexes = select (λ i. not (i.table == n)) s.indexes;
    })
    else none
apply (create_index i) s =
    if any (names_index i.name) s.indexes
    then none
    else if has_columns i.table i.columns s.tables
    then some (record s { indexes = s.indexes ++ i ∷ [] })
    else none
apply (drop_index n) s =
    if any (names_index n) s.indexes
    then some (record s { indexes = select (λ i. not (i.name == n)) s.indexes })
    else none
apply (bulk_insert n cs rows) s = if has_columns n cs s.tables then some s else none

-- The statements of a revision, in order.
abbrev pub Script : Type 0
Script = List Operation

-- A script runs in one transaction: where a statement is refused, there is no result.
unfoldable pub run : Script → Schema → Option Schema
unfolding apply
run [] s = some s
run (o ∷ ops) s = do t ← apply o s; run ops t
