-- ===== src/Migrations/Initial.antt =====
-- backend/migrations/versions/27a02d36d4fb_initial_schema.py
use enterprise_auth_server.Common.{ℕ, true, Option, [], ◌∷◌, ◌++◌}
use enterprise_auth_server.Common.Partial.{◌>>=◌, pure}
use enterprise_auth_server.Migrations.{
  Table, guid, string, boolean, create_table, drop_table, create_index, drop_index, Script,
}
use enterprise_auth_server.Migrations.Seeding.{seed_statements}
use enterprise_auth_server.Migrations.Columns.{required, stamp, to_id_of}

abbrev pub permissions : Table
permissions = record {
  name = "permissions";
  columns =
      required "code" (string 100)
      ∷ required "description" (string 255)
      ∷ required "id" guid
      ∷ stamp "created_at"
      ∷ stamp "updated_at"
      ∷ [];
  foreign_keys = [];
  primary_key = "id" ∷ [];
  uniques = [];
}

abbrev pub roles : Table
roles = record {
  name = "roles";
  columns =
      required "name" (string 50)
      ∷ required "description" (string 255)
      ∷ required "id" guid
      ∷ stamp "created_at"
      ∷ stamp "updated_at"
      ∷ [];
  foreign_keys = [];
  primary_key = "id" ∷ [];
  uniques = [];
}

abbrev pub users : Table
users = record {
  name = "users";
  columns =
      required "email" (string 320)
      ∷ required "hashed_password" (string 255)
      ∷ required "full_name" (string 255)
      ∷ required "is_active" boolean
      ∷ required "is_verified" boolean
      ∷ required "is_superuser" boolean
      ∷ required "id" guid
      ∷ stamp "created_at"
      ∷ stamp "updated_at"
      ∷ [];
  foreign_keys = [];
  primary_key = "id" ∷ [];
  uniques = [];
}

abbrev pub role_permissions : Table
role_permissions = record {
  name = "role_permissions";
  columns = required "role_id" guid ∷ required "permission_id" guid ∷ [];
  foreign_keys = to_id_of "permissions" "permission_id" ∷ to_id_of "roles" "role_id" ∷ [];
  primary_key = "role_id" ∷ "permission_id" ∷ [];
  uniques = [];
}

abbrev pub user_roles : Table
user_roles = record {
  name = "user_roles";
  columns = required "user_id" guid ∷ required "role_id" guid ∷ [];
  foreign_keys = to_id_of "roles" "role_id" ∷ to_id_of "users" "user_id" ∷ [];
  primary_key = "user_id" ∷ "role_id" ∷ [];
  uniques = [];
}

-- The statements of `upgrade` before the seed.
abbrev pub initial_tables : Script
initial_tables =
    create_table permissions
    ∷ create_index (record {
      name = "ix_permissions_code";
      table = "permissions";
      columns = "code" ∷ [];
      unique = true;
    })
    ∷ create_table roles
    ∷ create_index
        (record { name = "ix_roles_name"; table = "roles"; columns = "name" ∷ []; unique = true })
    ∷ create_table users
    ∷ create_index
        (record { name = "ix_users_email"; table = "users"; columns = "email" ∷ []; unique = true })
    ∷ create_table role_permissions
    ∷ create_table user_roles
    ∷ []

-- `upgrade`
unfoldable pub upgrade : (ℕ → ℕ) → Option Script
unfolding seed_statements
upgrade ids = do seed ← seed_statements ids; pure (initial_tables ++ seed)

-- `downgrade`
abbrev pub downgrade : Script
downgrade =
    drop_table "user_roles"
    ∷ drop_table "role_permissions"
    ∷ drop_index "ix_users_email"
    ∷ drop_table "users"
    ∷ drop_index "ix_roles_name"
    ∷ drop_table "roles"
    ∷ drop_index "ix_permissions_code"
    ∷ drop_table "permissions"
    ∷ []
