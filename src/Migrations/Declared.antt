-- ===== src/Migrations/Declared.antt =====
-- backend/app/models: the columns, the keys and the indexes that the classes declare.
use enterprise_auth_server.Common.{List, [], ◌∷◌}
use enterprise_auth_server.Migrations.{guid, string, boolean, integer, timestamp}
use enterprise_auth_server.Migrations.Mapping.{
  Mapped, Mapping, plain, nullable, indexed, unique, refers, key, now, uuid_mixin, mixins,
}

abbrev pub user_key : Mapped
user_key = refers "users" (plain "user_id" guid)

abbrev pub permission : Mapping
permission = record {
  tablename = "permissions";
  columns = unique (plain "code" (string 100)) ∷ plain "description" (string 255) ∷ mixins;
  uniques = [];
  indexes = [];
}

abbrev pub role : Mapping
role = record {
  tablename = "roles";
  columns = unique (plain "name" (string 50)) ∷ plain "description" (string 255) ∷ mixins;
  uniques = [];
  indexes = [];
}

abbrev pub user : Mapping
user = record {
  tablename = "users";
  columns =
      unique (plain "email" (string 320))
      ∷ plain "hashed_password" (string 255)
      ∷ plain "full_name" (string 255)
      ∷ plain "is_active" boolean
      ∷ plain "is_verified" boolean
      ∷ plain "is_superuser" boolean
      ∷ mixins;
  uniques = [];
  indexes = [];
}

abbrev pub role_permissions : Mapping
role_permissions = record {
  tablename = "role_permissions";
  columns =
      key (refers "roles" (plain "role_id" guid))
      ∷ key (refers "permissions" (plain "permission_id" guid))
      ∷ [];
  uniques = [];
  indexes = [];
}

abbrev pub user_roles : Mapping
user_roles = record {
  tablename = "user_roles";
  columns = key user_key ∷ key (refers "roles" (plain "role_id" guid)) ∷ [];
  uniques = [];
  indexes = [];
}

abbrev pub backup_code : Mapping
backup_code = record {
  tablename = "backup_codes";
  columns =
      indexed user_key
      ∷ plain "hashed_code" (string 255)
      ∷ nullable "used_at" timestamp
      ∷ now "created_at"
      ∷ uuid_mixin;
  uniques = [];
  indexes = [];
}

abbrev pub two_factor_auth : Mapping
two_factor_auth = record {
  tablename = "two_factor_auth";
  columns =
      unique user_key
      ∷ plain "encrypted_secret" (string 512)
      ∷ plain "enabled" boolean
      ∷ nullable "verified_at" timestamp
      ∷ mixins;
  uniques = [];
  indexes = [];
}

abbrev pub session : Mapping
session = record {
  tablename = "sessions";
  columns =
      indexed user_key
      ∷ unique (plain "session_uuid" guid)
      ∷ indexed (plain "refresh_token_id" (string 64))
      ∷ plain "device_name" (string 128)
      ∷ plain "device_type" (string 32)
      ∷ plain "browser" (string 64)
      ∷ plain "browser_version" (string 32)
      ∷ plain "operating_system" (string 64)
      ∷ plain "operating_system_version" (string 32)
      ∷ plain "user_agent" (string 512)
      ∷ plain "ip_address" (string 45)
      ∷ nullable "country" (string 64)
      ∷ nullable "city" (string 128)
      ∷ plain "login_at" timestamp
      ∷ plain "last_activity_at" timestamp
      ∷ nullable "logout_at" timestamp
      ∷ plain "expires_at" timestamp
      ∷ nullable "logout_reason" (string 64)
      ∷ plain "is_current" boolean
      ∷ indexed (plain "is_active" boolean)
      ∷ plain "request_count" integer
      ∷ mixins;
  uniques = [];
  indexes =
      ("ix_sessions_user_active_activity", "user_id" ∷ "is_active" ∷ "last_activity_at" ∷ []) ∷ [];
}

abbrev pub email_token : Mapping
email_token = record {
  tablename = "email_tokens";
  columns =
      indexed user_key
      ∷ unique (plain "token_hash" (string 64))
      ∷ indexed (plain "purpose" (string 32))
      ∷ nullable "new_email" (string 320)
      ∷ plain "expires_at" timestamp
      ∷ nullable "used_at" timestamp
      ∷ mixins;
  uniques = [];
  indexes = ("ix_email_tokens_user_purpose", "user_id" ∷ "purpose" ∷ []) ∷ [];
}

abbrev pub oauth_account : Mapping
oauth_account = record {
  tablename = "oauth_accounts";
  columns =
      indexed user_key
      ∷ indexed (plain "provider" (string 32))
      ∷ plain "provider_account_id" (string 255)
      ∷ nullable "email" (string 320)
      ∷ mixins;
  uniques =
      record { name = "uq_provider_account"; columns = "provider" ∷ "provider_account_id" ∷ [] }
      ∷ [];
  indexes = [];
}

-- Base.metadata, a table after those that it refers to
abbrev pub metadata : List Mapping
metadata =
    permission ∷ role ∷ user ∷ role_permissions ∷ user_roles ∷ backup_code ∷ two_factor_auth
    ∷ session ∷ email_token ∷ oauth_account ∷ []
