-- ===== src/Migrations/Onto.antt =====
-- A script of backend/migrations that runs in a schema where other tables are already there, such as
-- Alembic's own.
use mathlib.Core.Option.{some-injective}
use mathlib.Core.List.{append_assoc}
use enterprise_auth_server.Common.{
  true, false, some, List, [], ◌∷◌, ◌++◌, ◌≡◌, refl, ap, subst, arith, any, All, any-append_right,
  any-append_none, find-append_right, find-none_of_any,
}
use enterprise_auth_server.Common.Partial.{passed_unless, passed_if, >>=-eq-some}
use enterprise_auth_server.Migrations.Names.{Name, name_eq}
use enterprise_auth_server.Migrations.{
  Table, ForeignKey, Schema, Operation, create_table, drop_table, create_index, drop_index,
  bulk_insert, names_table, names_index, targets_exist, has_columns, apply, run, Script,
}
use enterprise_auth_server.Migrations.Undo.{Adds}

abbrev pub onto : Schema → Schema → Schema
onto s u = record { tables = s.tables ++ u.tables; indexes = s.indexes ++ u.indexes }

-- The names that a statement adds or looks up are not in the schema.
abbrev pub New : Schema → Operation → Type 0
New s (create_table t) = any (names_table t.name) s.tables ≡ false
New s (create_index i) =
    (any (names_index i.name) s.indexes ≡ false) × (any (names_table i.table) s.tables ≡ false)
New s (bulk_insert n cs rows) = any (names_table n) s.tables ≡ false
New s _ = Unit

targets_exist-onto :
    (ks : List ForeignKey) (ss ts : List Table)
    → targets_exist ks ts ≡ true
    → targets_exist ks (ss ++ ts) ≡ true
unfolding targets_exist
targets_exist-onto [] ss ts h = refl
targets_exist-onto (k ∷ ks) ss ts h =
    ground (arith, targets_exist-onto ks ss ts, any-append_right (names_table k.table) ss ts)

has_columns-onto :
    (n : Name) (cs : List Name) (ss ts : List Table)
    → any (names_table n) ss ≡ false
    → has_columns n cs ts ≡ true
    → has_columns n cs (ss ++ ts) ≡ true
unfolding has_columns
has_columns-onto n cs ss ts h k =
    rw
      (find-append_right (names_table n) ss ts (find-none_of_any (names_table n) ss h), has_columns)
      k

apply-onto :
    (o : Operation) (s u v : Schema)
    → Adds o
    → New s o
    → apply o u ≡ some v
    → apply o (onto s u) ≡ some (onto s v)
unfolding apply
apply-onto (create_table t) s u v a n h =
    let p = passed_unless _ _ v h in
    let q = passed_if _ _ v p.1 in
    let ts = targets_exist-onto t.foreign_keys s.tables (u.tables ++ t ∷ []) q.0 in
    subst (λ (w : Schema). apply (create_table t) (onto s u) ≡ some (onto s w))
      (some-injective _ v q.1)
      (rw
        (
          any-append_none (names_table t.name) s.tables u.tables n p.0,
          append_assoc s.tables u.tables (t ∷ []),
          ts,
        )
        refl)
apply-onto (create_index i) s u v a n h =
    let p = passed_unless _ _ v h in
    let q = passed_if _ _ v p.1 in
    subst (λ (w : Schema). apply (create_index i) (onto s u) ≡ some (onto s w))
      (some-injective _ v q.1)
      (rw
        (
          any-append_none (names_index i.name) s.indexes u.indexes n.0 p.0,
          has_columns-onto i.table i.columns s.tables u.tables n.1 q.0,
          append_assoc s.indexes u.indexes (i ∷ []),
        )
        refl)
apply-onto (bulk_insert n cs rows) s u v a m h =
    let q = passed_if _ _ v h in
    rw (has_columns-onto n cs s.tables u.tables m q.0)
      (ap (λ (w : Schema). some (onto s w)) (some-injective u v q.1))
apply-onto (drop_table n) s u v a m h = absurd a
apply-onto (drop_index n) s u v a m h = absurd a

-- A script that drops nothing does the same beside other tables.
pub run-onto :
    (ops : Script) (s u v : Schema)
    → All Adds ops
    → All (New s) ops
    → run ops u ≡ some v
    → run ops (onto s u) ≡ some (onto s v)
unfolding run
run-onto [] s u v a n h = ap (λ (w : Schema). some (onto s w)) (some-injective u v h)
run-onto (o ∷ ops) s u v a n h =
    let (w, e, r) = >>=-eq-some (apply o u) (run ops) v h in
    rw (apply-onto o s u w a.0 n.0 e) (run-onto ops s w v a.1 n.1 r)
