-- ===== src/Migrations/AddOauthAccounts.antt =====
-- backend/migrations/versions/7cdc29eb5f85_add_oauth_accounts.py
use enterprise_auth_server.Common.{false, [], ◌∷◌}
use enterprise_auth_server.Migrations.{
  Table, guid, string, create_table, drop_table, create_index, drop_index, Script,
}
use enterprise_auth_server.Migrations.Columns.{required, optional, stamp, to_id_of}

abbrev pub oauth_accounts : Table
oauth_accounts = record {
  name = "oauth_accounts";
  columns =
      required "user_id" guid
      ∷ required "provider" (string 32)
      ∷ required "provider_account_id" (string 255)
      ∷ optional "email" (string 320)
      ∷ required "id" guid
      ∷ stamp "created_at"
      ∷ stamp "updated_at"
      ∷ [];
  foreign_keys = to_id_of "users" "user_id" ∷ [];
  primary_key = "id" ∷ [];
  uniques =
      record { name = "uq_provider_account"; columns = "provider" ∷ "provider_account_id" ∷ [] }
      ∷ [];
}

-- `upgrade`
abbrev pub upgrade : Script
upgrade =
    create_table oauth_accounts
    ∷ create_index (record {
      name = "ix_oauth_accounts_provider";
      table = "oauth_accounts";
      columns = "provider" ∷ [];
      unique = false;
    })
    ∷ create_index (record {
      name = "ix_oauth_accounts_user_id";
      table = "oauth_accounts";
      columns = "user_id" ∷ [];
      unique = false;
    })
    ∷ []

-- `downgrade`
abbrev pub downgrade : Script
downgrade =
    drop_index "ix_oauth_accounts_user_id"
    ∷ drop_index "ix_oauth_accounts_provider"
    ∷ drop_table "oauth_accounts"
    ∷ []
