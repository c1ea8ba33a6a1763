-- ===== src/Migrations/AddSessions.antt =====
-- backend/migrations/versions/a55f82d64171_add_sessions_table.py
use enterprise_auth_server.Common.{true, false, [], ◌∷◌}
use enterprise_auth_server.Migrations.{
  Table, guid, string, boolean, integer, timestamp, create_table, drop_table, create_index,
  drop_index, Script,
}
use enterprise_auth_server.Migrations.Columns.{required, optional, stamp, to_id_of}

abbrev pub sessions : Table
sessions = record {
  name = "sessions";
  columns =
      required "user_id" guid
      ∷ required "session_uuid" guid
      ∷ required "refresh_token_id" (string 64)
      ∷ required "device_name" (string 128)
      ∷ required "device_type" (string 32)
      ∷ required "browser" (string 64)
      ∷ required "browser_version" (string 32)
      ∷ required "operating_system" (string 64)
      ∷ required "operating_system_version" (string 32)
      ∷ required "user_agent" (string 512)
      ∷ required "ip_address" (string 45)
      ∷ optional "country" (string 64)
      ∷ optional "city" (string 128)
      ∷ required "login_at" timestamp
      ∷ required "last_activity_at" timestamp
      ∷ optional "logout_at" timestamp
      ∷ required "expires_at" timestamp
      ∷ optional "logout_reason" (string 64)
      ∷ required "is_current" boolean
      ∷ required "is_active" boolean
      ∷ required "request_count" integer
      ∷ required "id" guid
      ∷ stamp "created_at"
      ∷ stamp "updated_at"
      ∷ [];
  foreign_keys = to_id_of "users" "user_id" ∷ [];
  primary_key = "id" ∷ [];
  uniques = [];
}

-- `upgrade`
abbrev pub upgrade : Script
upgrade =
    create_table sessions
    ∷ create_index (record {
      name = "ix_sessions_is_active";
      table = "sessions";
      columns = "is_active" ∷ [];
      unique = false;
    })
    ∷ create_index (record {
      name = "ix_sessions_refresh_token_id";
      table = "sessions";
      columns = "refresh_token_id" ∷ [];
      unique = false;
    })
    ∷ create_index (record {
      name = "ix_sessions_session_uuid";
      table = "sessions";
      columns = "session_uuid" ∷ [];
      unique = true;
    })
    ∷ create_index (record {
      name = "ix_sessions_user_id";
      table = "sessions";
      columns = "user_id" ∷ [];
      unique = false;
    })
    ∷ []

-- `downgrade`
abbrev pub downgrade : Script
downgrade =
    drop_index "ix_sessions_user_id"
    ∷ drop_index "ix_sessions_session_uuid"
    ∷ drop_index "ix_sessions_refresh_token_id"
    ∷ drop_index "ix_sessions_is_active"
    ∷ drop_table "sessions"
    ∷ []
