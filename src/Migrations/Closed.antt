-- ===== src/Migrations/Closed.antt =====
-- What every schema satisfies that the statements of backend/migrations build: no foreign key and no
-- index is left without its table.
use mathlib.Core.Option.{some-injective}
use enterprise_auth_server.Common.{
  subst, true, false, not, ◌&&◌, some, List, [], ◌∷◌, ◌++◌, ◌≡◌, refl, inl, inr, arith, any, select,
  find, All, ◌==◌, Option-cases, any_of_find, any-append_left, any-select, All-append, All-select,
  All-map, All-both, All_of_none,
}
use enterprise_auth_server.Common.Partial.{passed_unless, passed_if, >>=-eq-some}
use enterprise_auth_server.Migrations.Names.{Name, name_eq}
use enterprise_auth_server.Migrations.{
  Table, Index, ForeignKey, Schema, Operation, create_table, drop_table, create_index, drop_index,
  bulk_insert, names_table, refers_to, targets_exist, has_columns, apply, run, Script,
}

-- Every foreign key of the table has its table.
abbrev pub HasTargets : List Table → Table → Type 0
HasTargets ts t = targets_exist t.foreign_keys ts ≡ true

abbrev pub HasTable : List Table → Index → Type 0
HasTable ts i = any (names_table i.table) ts ≡ true

pub record IsClosed (s : Schema) : Type 0 where
  pub tables : All (HasTargets s.tables) s.tables
  pub indexes : All (HasTable s.tables) s.indexes

targets_exist-append :
    (ks : List ForeignKey) (ts : List Table) (t : Table)
    → targets_exist ks ts ≡ true
    → targets_exist ks (ts ++ t ∷ []) ≡ true
unfolding targets_exist
targets_exist-append [] ts t h = refl
targets_exist-append (k ∷ ks) ts t h =
    ground (arith, targets_exist-append ks ts t, any-append_left (names_table k.table) ts (t ∷ []))

-- A table of another name is kept.
other_table :
    (n m : Name) (t : Table) → (m == n) ≡ false → (t.name == m) ≡ true → not (t.name == n) ≡ true
other_table n m t h k = let e = (name_eq.same_iff t.name m).0 k in rw (e, h) refl

-- A table without a foreign key to the dropped table keeps its targets.
targets_exist-select :
    (n : Name) (ks : List ForeignKey) (ts : List Table)
    → any (λ (k : ForeignKey). k.table == n) ks ≡ false
    → targets_exist ks ts ≡ true
    → targets_exist ks (select (λ (t : Table). not (t.name == n)) ts) ≡ true
unfolding targets_exist
targets_exist-select n [] ts h e = refl
targets_exist-select n (k ∷ ks) ts h e = ground (
  arith,
  targets_exist-select n ks ts,
  λ (d : (k.table == n) ≡ false).
      any-select (names_table k.table) (λ t. not (t.name == n)) ts (λ t. other_table n k.table t d),
)

has_columns-table :
    (n : Name) (cs : List Name) (ts : List Table)
    → has_columns n cs ts ≡ true
    → any (names_table n) ts ≡ true
unfolding has_columns
has_columns-table n cs ts h = elim (Option-cases (find (names_table n) ts)) [
  | inl e ↦ absurd (ground (arith, e))
  | inr (t, e) ↦ any_of_find (names_table n) ts t e
]

drop_table-IsClosed :
    (n : Name) (s : Schema)
    → IsClosed s
    → any (λ (t : Table). not (t.name == n) && refers_to n t) s.tables ≡ false
    → IsClosed (record {
      tables = select (λ (t : Table). not (t.name == n)) s.tables;
      indexes = select (λ (i : Index). not (i.table == n)) s.indexes;
    })
unfolding refers_to
drop_table-IsClosed n s c h =
    let kept = λ (t : Table). not (t.name == n) in
    record {
      tables =
          All-select _ _ kept s.tables
            (λ (t : Table) p k.
              targets_exist-select n t.foreign_keys s.tables (ground (arith, p.1, k)) p.0)
            (All-both _ _ s.tables c.tables (All_of_none _ s.tables h));
      indexes =
          All-select _ _ (λ (i : Index). not (i.table == n)) s.indexes
            (λ (i : Index) p k.
              any-select (names_table i.table) kept s.tables
                (λ t. other_table n i.table t (ground (arith, k))) p)
            c.indexes;
    }

-- Every statement keeps a closed schema closed.
pub apply-IsClosed : (o : Operation) (s t : Schema) → IsClosed s → apply o s ≡ some t → IsClosed t
unfolding apply
apply-IsClosed (create_table t) s u c h =
    let p = passed_unless _ _ u h in
    let q = passed_if _ _ u p.1 in
    subst IsClosed (some-injective _ u q.1) (record {
      tables =
          All-append _ s.tables t
            (All-map _ _ s.tables (λ (x : Table). targets_exist-append x.foreign_keys s.tables t)
              c.tables)
            q.0;
      indexes =
          All-map _ _ s.indexes
            (λ (i : Index). any-append_left (names_table i.table) s.tables (t ∷ [])) c.indexes;
    })
apply-IsClosed (drop_table n) s u c h =
    let p = passed_unless _ _ u h in
    let q = passed_if _ _ u p.1 in
    subst IsClosed (some-injective _ u q.1) (drop_table-IsClosed n s c p.0)
apply-IsClosed (create_index i) s u c h =
    let p = passed_unless _ _ u h in
    let q = passed_if _ _ u p.1 in
    subst IsClosed (some-injective _ u q.1) (record {
      tables = c.tables;
      indexes =
          All-append _ s.indexes i c.indexes (has_columns-table i.table i.columns s.tables q.0);
    })
apply-IsClosed (drop_index n) s u c h =
    let q = passed_if _ _ u h in
    subst IsClosed (some-injective _ u q.1) (record {
      tables = c.tables;
      indexes = All-select _ _ (λ (i : Index). not (i.name == n)) s.indexes (λ i p k. p) c.indexes;
    })
apply-IsClosed (bulk_insert n cs rows) s u c h =
    let q = passed_if _ _ u h in subst IsClosed (some-injective s u q.1) c

-- A script keeps a closed schema closed.
pub run-IsClosed : (ops : Script) (s t : Schema) → IsClosed s → run ops s ≡ some t → IsClosed t
unfolding run
run-IsClosed [] s t c h = subst IsClosed (some-injective s t h) c
run-IsClosed (o ∷ ops) s t c h =
    let (u, e, r) = >>=-eq-some (apply o s) (run ops) t h in
    run-IsClosed ops u t (apply-IsClosed o s u c e) r
