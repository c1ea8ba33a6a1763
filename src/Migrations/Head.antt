-- ===== src/Migrations/Head.antt =====
-- `alembic upgrade head`: every revision of backend/migrations in order, beside the tables that are
-- already there, and the schema that backend/app/models declares.
use mathlib.Core.List.{append-nil}
use mathlib.Core.Option.{some-injective}
use enterprise_auth_server.Common.{
  ℕ, ◌+◌, Bool, true, false, some, List, [], ◌∷◌, ◌++◌, ◌≡◌, refl, ap, subst, arith, any, All,
  text_beq,
}
use enterprise_auth_server.Common.Partial.{>>=-eq-some}
use enterprise_auth_server.Migrations.{
  Table, Index, ForeignKey, Schema, empty, create_index, Script, names_table, names_index, run,
}
use enterprise_auth_server.Migrations.Initial
use enterprise_auth_server.Migrations.AddTwoFactor
use enterprise_auth_server.Migrations.AddSessions
use enterprise_auth_server.Migrations.AddEmailTokens
use enterprise_auth_server.Migrations.AddOauthAccounts
use enterprise_auth_server.Migrations.CompositeIndexes
use enterprise_auth_server.Migrations.Mapping.{table_of, tables_of, all_indexes_of}
use enterprise_auth_server.Migrations.Declared.{metadata}
use enterprise_auth_server.Migrations.Declared
use enterprise_auth_server.Migrations.Onto.{onto, New, run-onto}
use enterprise_auth_server.Migrations.Downgrades.{downgrade_of-Undoes}
use enterprise_auth_server.Migrations.Revisions.{
  Revision, initial, two_factor, sessions, email_tokens, oauth_accounts, composite, upgrade_of,
  upgrade, upgrade_all, history,
}

-- One for a test that holds.
unfoldable pub weight : Bool → ℕ
weight true = 1
weight false = 0

-- How many entries of a list pass a test.
unfoldable pub count {ℓ} : {A : Type ℓ} → (A → Bool) → List A → ℕ
count p [] = 0
count p (x ∷ xs) = weight (p x) + count p xs

-- The indexes that a script creates.
abbrev pub created : Script → List Index
created [] = []
created (create_index i ∷ ops) = i ∷ created ops
created (_ ∷ ops) = created ops

-- The tables of the revisions after the first.
abbrev pub later_tables : List Table
later_tables =
    AddTwoFactor.backup_codes ∷ AddTwoFactor.two_factor_auth ∷ AddSessions.sessions
    ∷ AddEmailTokens.email_tokens ∷ AddOauthAccounts.oauth_accounts ∷ []

abbrev pub migrated : Schema
migrated = record {
  tables =
      Initial.permissions ∷ Initial.roles ∷ Initial.users ∷ Initial.role_permissions
      ∷ Initial.user_roles ∷ AddTwoFactor.backup_codes ∷ AddTwoFactor.two_factor_auth
      ∷ AddSessions.sessions ∷ AddEmailTokens.email_tokens ∷ AddOauthAccounts.oauth_accounts ∷ [];
  indexes = created (
      Initial.initial_tables ++ AddTwoFactor.upgrade ++ AddSessions.upgrade
      ++ AddEmailTokens.upgrade ++ AddOauthAccounts.upgrade ++ CompositeIndexes.upgrade);
}

pub upgrade_all-empty : (ids : ℕ → ℕ) → upgrade_all ids history empty ≡ some migrated
unfolding upgrade_all text_beq
upgrade_all-empty ids = refl

count-indexes : (p : Index → Bool) → count p migrated.indexes ≡ count p (all_indexes_of metadata)
unfolding count all_indexes_of
count-indexes p = omega arith

-- None of the names that the models declare is taken.
pub record IsFresh (s : Schema) : Type 0 where
  pub tables : All (λ (t : Table). any (names_table t.name) s.tables ≡ false) (tables_of metadata)
  pub indexes :
      All (λ (i : Index). any (names_index i.name) s.indexes ≡ false) (all_indexes_of metadata)

all_same :
    (s : Schema) (ops found : Script) → All (New s) ops → some ops ≡ some found → All (New s) found
all_same s ops found a h = subst (All (New s)) (some-injective ops found h) a

upgrade_of-New :
    (ids : ℕ → ℕ) (r : Revision) (s : Schema) (ops : Script)
    → IsFresh s
    → upgrade_of ids r ≡ some ops
    → All (New s) ops
unfolding upgrade_of text_beq tables_of all_indexes_of
upgrade_of-New ids initial s ops f h = all_same s _ ops (search) h
upgrade_of-New ids two_factor s ops f h = all_same s _ ops (search) h
upgrade_of-New ids sessions s ops f h = all_same s _ ops (search) h
upgrade_of-New ids email_tokens s ops f h = all_same s _ ops (search) h
upgrade_of-New ids oauth_accounts s ops f h = all_same s _ ops (search) h
upgrade_of-New ids composite s ops f h = all_same s _ ops (search) h

upgrade_all-onto :
    (ids : ℕ → ℕ) (rs : List Revision) (s u v : Schema)
    → IsFresh s
    → upgrade_all ids rs u ≡ some v
    → upgrade_all ids rs (onto s u) ≡ some (onto s v)
unfolding upgrade_all
upgrade_all-onto ids [] s u v f h = ap (λ (w : Schema). some (onto s w)) (some-injective u v h)
upgrade_all-onto ids (r ∷ rs) s u v f h =
    let (w, e, k) = >>=-eq-some (upgrade ids r u) (upgrade_all ids rs) v h in
    let (ops, d, l) = >>=-eq-some (upgrade_of ids r) (λ ops. run ops u) w e in
    rw
      (
        d,
        run-onto ops s u w (downgrade_of-Undoes ids r ops d).adds (upgrade_of-New ids r s ops f d)
            l,
      )
      (upgrade_all-onto ids rs s w v f k)

-- Two tables are one but for the order of their foreign keys, as a test of foreign keys sees it.
pub record SameTable (q : ForeignKey → Bool) (t u : Table) : Type 0 where
  pub name : t.name ≡ u.name
  pub columns : t.columns ≡ u.columns
  pub foreign_keys : count q t.foreign_keys ≡ count q u.foreign_keys
  pub primary_key : t.primary_key ≡ u.primary_key
  pub uniques : t.uniques ≡ u.uniques

abbrev pub SameTables : (ForeignKey → Bool) → List Table → List Table → Type 0
SameTables q [] [] = Unit
SameTables q (t ∷ ts) (u ∷ us) = SameTable q t u × SameTables q ts us
SameTables q _ _ = ⊥

-- A schema has the tables and the indexes that the models declare, after those of another one.
pub record HasModels (p : Index → Bool) (q : ForeignKey → Bool) (s t : Schema) : Type 0 where
  pub new_tables : List Table
  pub new_indexes : List Index
  pub tables : t.tables ≡ s.tables ++ new_tables
  pub indexes : t.indexes ≡ s.indexes ++ new_indexes
  pub declared_tables : SameTables q new_tables (tables_of metadata)
  pub declared_indexes : count p new_indexes ≡ count p (all_indexes_of metadata)

same_table : (q : ForeignKey → Bool) (t : Table) → SameTable q t t
same_table q t = record {
  name = refl;
  columns = refl;
  foreign_keys = refl;
  primary_key = refl;
  uniques = refl;
}

same_all : (q : ForeignKey → Bool) (ts : List Table) → SameTables q ts ts
same_all q [] = tt
same_all q (t ∷ ts) = (same_table q t, same_all q ts)

-- Only the link tables have two foreign keys.
same_tables : (q : ForeignKey → Bool) → SameTables q migrated.tables (tables_of metadata)
unfolding tables_of count
same_tables q =
    let roles : SameTable q Initial.role_permissions (table_of Declared.role_permissions) = record {
      name = refl;
      columns = refl;
      foreign_keys = omega arith;
      primary_key = refl;
      uniques = refl;
    } in
    let users : SameTable q Initial.user_roles (table_of Declared.user_roles) = record {
      name = refl;
      columns = refl;
      foreign_keys = omega arith;
      primary_key = refl;
      uniques = refl;
    } in
    (same_table q _, (same_table q _, (same_table q _, (roles, (users, same_all q later_tables)))))

onto-empty : (s : Schema) → onto s empty ≡ s
onto-empty s = rw (append-nil s.tables, append-nil s.indexes) refl

-- In a database that has none of the names of the models, whatever else it has, all revisions run,
-- and add the tables of the models with their columns, keys, constraints and foreign keys, and the
-- indexes of the models, each as often as declared; what was there stays.
pub upgrade_all-HasModels :
    (ids : ℕ → ℕ) (p : Index → Bool) (q : ForeignKey → Bool) (s : Schema)
    → IsFresh s
    → (t : Schema) × (upgrade_all ids history s ≡ some t) × HasModels p q s t
upgrade_all-HasModels ids p q s f = (
  onto s migrated,
  subst (λ (u : Schema). upgrade_all ids history u ≡ some (onto s migrated)) (onto-empty s)
      (upgrade_all-onto ids history s empty migrated f (upgrade_all-empty ids)),
  record {
    new_tables = migrated.tables;
    new_indexes = migrated.indexes;
    tables = refl;
    indexes = refl;
    declared_tables = same_tables q;
    declared_indexes = count-indexes p;
  },
)
