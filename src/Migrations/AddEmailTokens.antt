-- ===== src/Migrations/AddEmailTokens.antt =====
-- backend/migrations/versions/7e9a6c8a7b0d_add_email_tokens.py
use enterprise_auth_server.Common.{true, false, [], ◌∷◌}
use enterprise_auth_server.Migrations.{
  Table, guid, string, timestamp, create_table, drop_table, create_index, drop_index, Script,
}
use enterprise_auth_server.Migrations.Columns.{required, optional, stamp, to_id_of}

abbrev pub email_tokens : Table
email_tokens = record {
  name = "email_tokens";
  columns =
      required "user_id" guid
      ∷ required "token_hash" (string 64)
      ∷ required "purpose" (string 32)
      ∷ optional "new_email" (string 320)
      ∷ required "expires_at" timestamp
      ∷ optional "used_at" timestamp
      ∷ required "id" guid
      ∷ stamp "created_at"
      ∷ stamp "updated_at"
      ∷ [];
  foreign_keys = to_id_of "users" "user_id" ∷ [];
  primary_key = "id" ∷ [];
  uniques = [];
}

-- `upgrade`
abbrev pub upgrade : Script
upgrade =
    create_table email_tokens
    ∷ create_index (record {
      name = "ix_email_tokens_purpose";
      table = "email_tokens";
      columns = "purpose" ∷ [];
      unique = false;
    })
    ∷ create_index (record {
      name = "ix_email_tokens_token_hash";
      table = "email_tokens";
      columns = "token_hash" ∷ [];
      unique = true;
    })
    ∷ create_index (record {
      name = "ix_email_tokens_user_id";
      table = "email_tokens";
      columns = "user_id" ∷ [];
      unique = false;
    })
    ∷ []

-- `downgrade`
abbrev pub downgrade : Script
downgrade =
    drop_index "ix_email_tokens_user_id"
    ∷ drop_index "ix_email_tokens_token_hash"
    ∷ drop_index "ix_email_tokens_purpose"
    ∷ drop_table "email_tokens"
    ∷ []
