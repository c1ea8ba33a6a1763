-- ===== src/Migrations/Mapping.antt =====
-- backend/app/db/base.py and the columns of backend/app/models: how a class declares its table, and
-- the table and the indexes that SQLAlchemy derives from it.
use Prim.Native.String.{◌++◌ as ◌<>◌}
use enterprise_auth_server.Common.{
  Bool, true, false, Option, none, some, List, [], ◌∷◌, ◌++◌, if◌then◌else◌,
}
use enterprise_auth_server.Migrations.Names.{Name}
use enterprise_auth_server.Migrations.{
  Column, ColumnType, guid, timestamp, ForeignKey, UniqueConstraint, Table, Index,
}
use enterprise_auth_server.Migrations.Columns.{to_id_of}

-- mapped_column, with the table whose `id` its ForeignKey names
pub record Mapped : Type 0 where
  pub name : Name
  pub type : ColumnType
  pub nullable : Bool
  pub defaults_to_now : Bool
  pub primary_key : Bool
  pub references : Option Name
  pub unique : Bool
  pub index : Bool

-- A class that is mapped to a table: its columns and __table_args__.
pub record Mapping : Type 0 where
  pub tablename : Name
  pub columns : List Mapped
  pub uniques : List UniqueConstraint
  pub indexes : List (Name × List Name)

-- mapped_column(type, nullable=False)
abbrev pub plain : Name → ColumnType → Mapped
plain n t = record {
  name = n;
  type = t;
  nullable = false;
  defaults_to_now = false;
  primary_key = false;
  references = none;
  unique = false;
  index = false;
}

abbrev pub nullable : Name → ColumnType → Mapped
nullable n t = record (plain n t) { nullable = true }

-- index=True
abbrev pub indexed : Mapped → Mapped
indexed c = record c { index = true }

-- unique=True, index=True
abbrev pub unique : Mapped → Mapped
unique c = record c { unique = true; index = true }

-- ForeignKey(table.id, ondelete="CASCADE")
abbrev pub refers : Name → Mapped → Mapped
refers table c = record c { references = some table }

-- primary_key=True
abbrev pub key : Mapped → Mapped
key c = record c { primary_key = true }

-- server_default=func.now()
abbrev pub now : Name → Mapped
now n = record (plain n timestamp) { defaults_to_now = true }

-- UUIDMixin
abbrev pub uuid_mixin : List Mapped
uuid_mixin = key (plain "id" guid) ∷ []

-- TimestampMixin
abbrev pub timestamp_mixin : List Mapped
timestamp_mixin = now "created_at" ∷ now "updated_at" ∷ []

abbrev pub mixins : List Mapped
mixins = uuid_mixin ++ timestamp_mixin

-- The columns that the statements name.
unfoldable pub columns_of : List Mapped → List Column
columns_of [] = []
columns_of (c ∷ cs) =
    record {
      name = c.name;
      type = c.type;
      nullable = c.nullable;
      defaults_to_now = c.defaults_to_now;
    }
    ∷ columns_of cs

unfoldable pub foreign_keys_of : List Mapped → List ForeignKey
foreign_keys_of [] = []
foreign_keys_of (c ∷ cs) = elim c.references [
  | none ↦ foreign_keys_of cs
  | some table ↦ to_id_of table c.name ∷ foreign_keys_of cs
]

unfoldable pub keys_of : List Mapped → List Name
keys_of [] = []
keys_of (c ∷ cs) = let rest = keys_of cs in if c.primary_key then c.name ∷ rest else rest

-- A column with index=True has an index of its own, which is unique with unique=True.
unfoldable pub column_indexes : Name → List Mapped → List Index
column_indexes table [] = []
column_indexes table (c ∷ cs) =
    let rest = column_indexes table cs in
    if c.index
    then record {
      name = "ix_" <> table <> "_" <> c.name;
      table = table;
      columns = c.name ∷ [];
      unique = c.unique;
    }
      ∷ rest
    else rest

unfoldable pub composite_indexes : Name → List (Name × List Name) → List Index
composite_indexes table [] = []
composite_indexes table ((name, columns) ∷ more) =
    record { name = name; table = table; columns = columns; unique = false }
    ∷ composite_indexes table more

unfoldable pub table_of : Mapping → Table
unfolding columns_of foreign_keys_of keys_of
table_of m = record {
  name = m.tablename;
  columns = columns_of m.columns;
  foreign_keys = foreign_keys_of m.columns;
  primary_key = keys_of m.columns;
  uniques = m.uniques;
}

unfoldable pub indexes_of : Mapping → List Index
unfolding column_indexes composite_indexes
indexes_of m = column_indexes m.tablename m.columns ++ composite_indexes m.tablename m.indexes

unfoldable pub tables_of : List Mapping → List Table
unfolding table_of
tables_of [] = []
tables_of (m ∷ ms) = table_of m ∷ tables_of ms

unfoldable pub all_indexes_of : List Mapping → List Index
unfolding indexes_of
all_indexes_of [] = []
all_indexes_of (m ∷ ms) = indexes_of m ++ all_indexes_of ms
