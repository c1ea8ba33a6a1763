-- ===== src/Tests/MigrationTests.antt =====
-- Instances of the theorems on backend/migrations, in a database that holds Alembic's own table, and
-- on db/seed.py.
use enterprise_auth_server.Common.{
  false, ℕ, Bool, Option, none, some, List, All, [], ◌∷◌, ◌≡◌, refl, ◌==◌, text_beq, any,
}
use enterprise_auth_server.Migrations.{string, Index, ForeignKey, Schema, empty, targets_exist}
use enterprise_auth_server.Migrations.Names.{name_eq}
use enterprise_auth_server.Migrations.Columns.{required}
use enterprise_auth_server.Migrations.Adds.{Rows, HaveRooms, HasKeysOf, upgrade_all-HasKeysOf}
use enterprise_auth_server.Seed.{seed_rbac, role_list}
use enterprise_auth_server.Seed.Repeated.{Grants, seed_rbac_twice}
use enterprise_auth_server.State.Exec.{ok}
use enterprise_auth_server.Tests.Fixtures.{user, session, start}
use enterprise_auth_server.Core.Strings.{text}
use enterprise_auth_server.Models.{verify_email}
use enterprise_auth_server.Migrations.Keys.{has_rooms}
use enterprise_auth_server.Migrations.Closed.{IsClosed}
use enterprise_auth_server.Migrations.Onto.{onto}
use enterprise_auth_server.Migrations.Mapping.{tables_of, all_indexes_of}
use enterprise_auth_server.Migrations.Revisions.{
  Revision, down_revision, upgrade_all, downgrade_all, history,
}
use enterprise_auth_server.Migrations.Downgrades.{downgrade_all-upgrade_all}
use enterprise_auth_server.Migrations.Head.{migrated, IsFresh, HasModels, upgrade_all-HasModels}

abbrev ids : ℕ → ℕ
ids k = k

abbrev alembic : Schema
alembic = record {
  tables =
      record {
        name = "alembic_version";
        columns = required "version_num" (string 32) ∷ [];
        foreign_keys = [];
        primary_key = "version_num" ∷ [];
        uniques = [];
      }
      ∷ [];
  indexes = [];
}

alembic-IsClosed : IsClosed alembic
unfolding targets_exist
alembic-IsClosed = record { tables = (search); indexes = (search) }

alembic-IsFresh : IsFresh alembic
unfolding tables_of all_indexes_of any
alembic-IsFresh = record { tables = (search); indexes = (search) }

head_runs : upgrade_all ids history alembic ≡ some (onto alembic migrated)
unfolding upgrade_all text_beq
head_runs = refl

downgrade_all-upgrade_all_example : downgrade_all history (onto alembic migrated) ≡ some alembic
downgrade_all-upgrade_all_example =
    downgrade_all-upgrade_all ids history alembic (onto alembic migrated) alembic-IsClosed head_runs

abbrev is_unique : Index → Bool
is_unique i = i.unique

abbrev to_users : ForeignKey → Bool
to_users k = k.table == "users"

upgrade_all-HasModels_example :
    (t : Schema) × (upgrade_all ids history alembic ≡ some t)
    × HasModels is_unique to_users alembic t
upgrade_all-HasModels_example = upgrade_all-HasModels ids is_unique to_users alembic alembic-IsFresh

migrated_runs : upgrade_all ids history empty ≡ some migrated
unfolding upgrade_all text_beq
migrated_runs = refl

-- A second row of each class, for Ann.
abbrev rows : Rows
rows = record {
  user = record user { id = 8; email = text "bob@example.com" };
  session = record session { id = 42; session_uuid = 42 };
  two_factor = record {
    id = 60;
    user_id = 7;
    encrypted_secret = text "secret";
    enabled = false;
    verified_at = none;
  };
  backup_code = record { id = 61; user_id = 7; hashed_code = text "code"; used_at = none };
  email_token = record {
    id = 62;
    user_id = 7;
    token_hash = text "hash";
    purpose = verify_email;
    new_email = none;
    expires_at = 0;
    used_at = none;
  };
  oauth_account = record {
    id = 63;
    user_id = 7;
    provider = text "google";
    provider_account_id = text "99";
    email = none;
  };
}

rows-HaveRooms : HaveRooms migrated rows
unfolding has_rooms
rows-HaveRooms = record {
  user = refl;
  session = refl;
  two_factor = refl;
  backup_code = refl;
  email_token = refl;
  oauth_account = refl;
}

upgrade_all-HasKeysOf_example : HasKeysOf migrated rows start
upgrade_all-HasKeysOf_example =
    upgrade_all-HasKeysOf ids migrated rows start migrated_runs rows-HaveRooms

seed_rbac_twice_example :
    ((seed_rbac start).0 ≡ ok tt)
    × (seed_rbac (seed_rbac start).1 ≡ seed_rbac start)
    × All (Grants (seed_rbac start).1.committed.roles) role_list
seed_rbac_twice_example = seed_rbac_twice start

-- The revisions are in the order that each names.
Follows : Option Revision → List Revision → Type 0
Follows last [] = Unit
Follows last (r ∷ rs) = (down_revision r ≡ last) × Follows (some r) rs

history-Follows : Follows none history
unfolding Follows down_revision
history-Follows = (search)
