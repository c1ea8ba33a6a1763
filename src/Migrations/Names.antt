-- ===== src/Migrations/Names.antt =====
-- The names of tables, columns and indexes, which are compared as the database compares them.
use Prim.Native.String.{String}
use text.Mathlib.Text.{◌==◌ as ◌is◌}
use text.Mathlib.TextEquality.{eq_iff}
use enterprise_auth_server.Common.{Eq, Bool, true, false, List, [], ◌∷◌, if◌then◌else◌, ◌==◌}

-- The name of a table, a column, a constraint or an index.
abbrev pub Name : Type 0
Name = String

instance abbrev pub name_eq : Eq Name
name_eq = record { same = ◌is◌; same_iff = eq_iff }

-- `n in names`
unfoldable pub contains : List Name → Name → Bool
contains [] n = false
contains (m ∷ names) n = if m == n then true else contains names n

-- Every name of the second list is in the first.
unfoldable pub covers : List Name → List Name → Bool
unfolding contains
covers names [] = true
covers names (n ∷ ns) = if contains names n then covers names ns else false
