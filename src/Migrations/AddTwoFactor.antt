-- ===== src/Migrations/AddTwoFactor.antt =====
-- backend/migrations/versions/b3d383eed5ef_add_two_factor_auth_and_backup_codes.py
use enterprise_auth_server.Common.{true, false, [], ◌∷◌}
use enterprise_auth_server.Migrations.{
  Table, guid, string, boolean, timestamp, create_table, drop_table, create_index, drop_index,
  Script,
}
use enterprise_auth_server.Migrations.Columns.{required, optional, stamp, to_id_of}

abbrev pub backup_codes : Table
backup_codes = record {
  name = "backup_codes";
  columns =
      required "user_id" guid
      ∷ required "hashed_code" (string 255)
      ∷ optional "used_at" timestamp
      ∷ stamp "created_at"
      ∷ required "id" guid
      ∷ [];
  foreign_keys = to_id_of "users" "user_id" ∷ [];
  primary_key = "id" ∷ [];
  uniques = [];
}

abbrev pub two_factor_auth : Table
two_factor_auth = record {
  name = "two_factor_auth";
  columns =
      required "user_id" guid
      ∷ required "encrypted_secret" (string 512)
      ∷ required "enabled" boolean
      ∷ optional "verified_at" timestamp
      ∷ required "id" guid
      ∷ stamp "created_at"
      ∷ stamp "updated_at"
      ∷ [];
  foreign_keys = to_id_of "users" "user_id" ∷ [];
  primary_key = "id" ∷ [];
  uniques = [];
}

-- `upgrade`
abbrev pub upgrade : Script
upgrade =
    create_table backup_codes
    ∷ create_index (record {
      name = "ix_backup_codes_user_id";
      table = "backup_codes";
      columns = "user_id" ∷ [];
      unique = false;
    })
    ∷ create_table two_factor_auth
    ∷ create_index (record {
      name = "ix_two_factor_auth_user_id";
      table = "two_factor_auth";
      columns = "user_id" ∷ [];
      unique = true;
    })
    ∷ []

-- `downgrade`
abbrev pub downgrade : Script
downgrade =
    drop_index "ix_two_factor_auth_user_id"
    ∷ drop_table "two_factor_auth"
    ∷ drop_index "ix_backup_codes_user_id"
    ∷ drop_table "backup_codes"
    ∷ []
