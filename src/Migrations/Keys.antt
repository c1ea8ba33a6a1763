-- ===== src/Migrations/Keys.antt =====
-- The keys of a table in the schema that backend/migrations builds, when a row breaks one, and when its
-- foreign keys and the lengths of its columns admit a row.
use enterprise_auth_server.Common.{
  ℕ, Bool, true, false, ◌&&◌, Option, none, some, List, [], ◌∷◌, ◌++◌, Text, any, find, leb, length,
  ◌==◌, nat_eq, text_eq, if◌then◌else◌,
}
use enterprise_auth_server.Migrations.Names.{Name, name_eq}
use enterprise_auth_server.Models.{Database}
use enterprise_auth_server.Migrations.{
  Column, ColumnType, string, ForeignKey, Table, Index, UniqueConstraint, Schema, names_table,
}

-- What stands in a column of a row.
pub data Cell : Type 0 where
  number : ℕ → Cell
  characters : Text → Cell

abbrev pub same_cell : Cell → Cell → Bool
same_cell (number a) (number b) = a == b
same_cell (characters s) (characters t) = s == t
same_cell _ _ = false

-- The cell of a column, where the row has one.
unfoldable pub cell : Name → List (Name × Cell) → Option Cell
cell n [] = none
cell n ((m, c) ∷ row) = if m == n then some c else cell n row

abbrev pub same : Option Cell → Option Cell → Bool
same (some c) (some d) = same_cell c d
same _ _ = false

-- Two rows have the same cells in these columns.
unfoldable pub agree : List Name → List (Name × Cell) → List (Name × Cell) → Bool
unfolding cell
agree [] r s = true
agree (n ∷ []) r s = same (cell n r) (cell n s)
agree (n ∷ m ∷ ns) r s = same (cell n r) (cell n s) && agree (m ∷ ns) r s

unfoldable pub constrained : List UniqueConstraint → List (List Name)
constrained [] = []
constrained (u ∷ us) = u.columns ∷ constrained us

-- The columns of the unique indexes of a table.
unfoldable pub indexed : Name → List Index → List (List Name)
indexed n [] = []
indexed n (i ∷ is) =
    let rest = indexed n is in
    if i.table == n then (if i.unique then i.columns ∷ rest else rest) else rest

abbrev table_keys : Option Table → List (List Name)
table_keys none = []
table_keys (some t) = t.primary_key ∷ constrained t.uniques

-- The keys of a table: its primary key, its unique constraints and its unique indexes.
unfoldable pub keys : Name → Schema → List (List Name)
unfolding find constrained indexed
keys n s = table_keys (find (names_table n) s.tables) ++ indexed n s.indexes

-- A row has the same cells in a key as a row of the table.
unfoldable pub breaks_key {ℓ} :
    {A : Type ℓ} → List (List Name) → (A → List (Name × Cell)) → A → List A → Bool
unfolding agree any
breaks_key [] cells x rows = false
breaks_key (k ∷ ks) cells x rows =
    if any (λ y. agree k (cells y) (cells x)) rows then true else breaks_key ks cells x rows

-- A table has a row with an id. The foreign keys of the tables that are inserted into name users.
abbrev has_row : Name → Option Cell → Database → Bool
has_row n (some (number k)) db = if n == "users" then any (λ u. u.id == k) db.users else false
has_row n _ db = false

unfoldable pub refers : List ForeignKey → List (Name × Cell) → Database → Bool
unfolding cell any
refers [] row db = true
refers (k ∷ ks) row db = has_row k.table (cell k.column row) db && refers ks row db

abbrev has_room : ColumnType → Option Cell → Bool
has_room (string n) (some (characters t)) = leb (length t) n
has_room _ _ = true

unfoldable fits : List Column → List (Name × Cell) → Bool
unfolding cell
fits [] row = true
fits (c ∷ cs) row = has_room c.type (cell c.name row) && fits cs row

-- The rows that a row of the table refers to are there.
unfoldable pub has_parents : Name → Schema → List (Name × Cell) → Database → Bool
unfolding find refers
has_parents n s row db = elim (find (names_table n) s.tables) [
  | none ↦ false
  | some t ↦ refers t.foreign_keys row db
]

-- The texts of a row of the table have room in their columns.
unfoldable pub has_rooms : Name → Schema → List (Name × Cell) → Bool
unfolding find fits
has_rooms n s row = elim (find (names_table n) s.tables) [
  | none ↦ false
  | some t ↦ fits t.columns row
]
