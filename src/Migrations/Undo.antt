-- ===== src/Migrations/Undo.antt =====
-- `upgrade` and `downgrade` of the revisions in backend/migrations/versions, run one after the other.
use mathlib.Core.Option.{some-injective}
use enterprise_auth_server.Common.{
  true, false, not, ◌&&◌, some, List, [], ◌∷◌, ◌++◌, ◌≡◌, refl, sym, ap, ◌∙◌, subst, arith, any,
  All, ◌==◌, ==_refl, inl, inr, Bool-cases, any-append_last, any-append_neither, any-eq-false,
  select-append_last, select-eq_all, All-map,
}
use enterprise_auth_server.Common.Partial.{passed_unless, passed_if, >>=-eq-some}
use enterprise_auth_server.Migrations.Names.{Name, name_eq}
use enterprise_auth_server.Migrations.{
  Table, Index, ForeignKey, Schema, Operation, create_table, drop_table, create_index, drop_index,
  bulk_insert, names_table, names_index, refers_to, targets_exist, apply, run, Script,
}
use enterprise_auth_server.Migrations.Closed.{IsClosed, HasTable, apply-IsClosed}

-- The statements that take back a statement of an upgrade.
abbrev pub undo : Operation → Script
undo (create_table t) = drop_table t.name ∷ []
undo (create_index i) = drop_index i.name ∷ []
undo _ = []

-- The statements that take back a script, the last one first.
abbrev pub undo_all : Script → Script
undo_all [] = []
undo_all (o ∷ ops) = undo_all ops ++ undo o

-- A statement that drops nothing.
abbrev pub Adds : Operation → Type 0
Adds (drop_table n) = ⊥
Adds (drop_index n) = ⊥
Adds _ = Unit

-- No foreign key of a schema leads to a table that is not there.
no_reference :
    (n : Name) (ks : List ForeignKey) (ts : List Table)
    → any (names_table n) ts ≡ false
    → targets_exist ks ts ≡ true
    → any (λ (k : ForeignKey). k.table == n) ks ≡ false
unfolding targets_exist any
no_reference n [] ts h e = refl
no_reference n (k ∷ ks) ts h e = elim (Bool-cases (k.table == n)) [
  | inl d ↦
      let same = (name_eq.same_iff k.table n).0 d in
      let there : any (names_table k.table) ts ≡ true = ground (arith, e) in
      absurd (ground (arith, there, h, ap (λ m. any (names_table m) ts) same))
  | inr d ↦ ground (arith, no_reference n ks ts h, e, d)
]

-- An index whose table is there is on no table that is missing.
not_indexed :
    (n : Name) (i : Index) (ts : List Table)
    → any (names_table n) ts ≡ false
    → HasTable ts i
    → not (i.table == n) ≡ true
not_indexed n i ts h e = elim (Bool-cases (i.table == n)) [
  | inl d ↦
      let same = (name_eq.same_iff i.table n).0 d in
      absurd (ground (arith, e, h, ap (λ m. any (names_table m) ts) same))
  | inr d ↦ rw d refl
]

drop_table-create_table :
    (t : Table) (s : Schema)
    → IsClosed s
    → any (names_table t.name) s.tables ≡ false
    → apply (drop_table t.name) (record s { tables = s.tables ++ t ∷ [] }) ≡ some s
unfolding apply
drop_table-create_table t s c h =
    rw
      (
        any-append_neither (λ u. not (u.name == t.name) && refers_to t.name u) s.tables t
            (any-eq-false _ s.tables (
              All-map _ _ s.tables
                (λ (u : Table) k. ground (arith, no_reference t.name u.foreign_keys s.tables h k))
                c.tables))
            (ground (arith, ==_refl t.name)),
        any-append_last (names_table t.name) s.tables t (==_refl t.name),
        select-append_last (names_table t.name) s.tables t h (==_refl t.name),
        select-eq_all (λ (i : Index). not (i.table == t.name)) s.indexes
            (All-map _ _ s.indexes (λ (i : Index). not_indexed t.name i s.tables h) c.indexes),
      )
      refl

drop_index-create_index :
    (i : Index) (s : Schema)
    → any (names_index i.name) s.indexes ≡ false
    → apply (drop_index i.name) (record s { indexes = s.indexes ++ i ∷ [] }) ≡ some s
unfolding apply
drop_index-create_index i s h =
    rw
      (
        any-append_last (names_index i.name) s.indexes i (==_refl i.name),
        select-append_last (names_index i.name) s.indexes i h (==_refl i.name),
      )
      refl

run-undo :
    (o : Operation) (s t : Schema)
    → IsClosed s
    → Adds o
    → apply o s ≡ some t
    → run (undo o) t ≡ some s
unfolding apply run
run-undo (create_table t) s u c a h =
    let p = passed_unless _ _ u h in
    let q = passed_if _ _ u p.1 in
    subst (λ (v : Schema). run (undo (create_table t)) v ≡ some s) (some-injective _ u q.1)
      (rw (drop_table-create_table t s c p.0) refl)
run-undo (create_index i) s u c a h =
    let p = passed_unless _ _ u h in
    let q = passed_if _ _ u p.1 in
    subst (λ (v : Schema). run (undo (create_index i)) v ≡ some s) (some-injective _ u q.1)
      (rw (drop_index-create_index i s p.0) refl)
run-undo (bulk_insert n cs rows) s u c a h = let q = passed_if _ _ u h in sym q.1
run-undo (drop_table n) s u c a h = absurd a
run-undo (drop_index n) s u c a h = absurd a

run-append : (xs ys : Script) (s t : Schema) → run xs s ≡ some t → run (xs ++ ys) s ≡ run ys t
unfolding run
run-append [] ys s t h = ap (run ys) (some-injective s t h)
run-append (o ∷ xs) ys s t h =
    let (u, e, r) = >>=-eq-some (apply o s) (run xs) t h in rw e (run-append xs ys u t r)

pub run-undo_all :
    (ops : Script) (s t : Schema)
    → IsClosed s
    → All Adds ops
    → run ops s ≡ some t
    → run (undo_all ops) t ≡ some s
unfolding run
run-undo_all [] s t c a h = sym h
run-undo_all (o ∷ ops) s t c a h =
    let (u, e, r) = >>=-eq-some (apply o s) (run ops) t h in
    run-append (undo_all ops) (undo o) t u (run-undo_all ops u t (apply-IsClosed o s u c e) a.1 r)
    ∙ run-undo o s u c a.0 e
