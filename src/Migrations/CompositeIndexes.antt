-- ===== src/Migrations/CompositeIndexes.antt =====
-- backend/migrations/versions/7f751a27a5ad_composite_indexes.py
use enterprise_auth_server.Common.{false, [], ◌∷◌}
use enterprise_auth_server.Migrations.{create_index, drop_index, Script}

-- `upgrade`
abbrev pub upgrade : Script
upgrade =
    create_index (record {
      name = "ix_email_tokens_user_purpose";
      table = "email_tokens";
      columns = "user_id" ∷ "purpose" ∷ [];
      unique = false;
    })
    ∷ create_index (record {
      name = "ix_sessions_user_active_activity";
      table = "sessions";
      columns = "user_id" ∷ "is_active" ∷ "last_activity_at" ∷ [];
      unique = false;
    })
    ∷ []

-- `downgrade`
abbrev pub downgrade : Script
downgrade =
    drop_index "ix_sessions_user_active_activity" ∷ drop_index "ix_email_tokens_user_purpose" ∷ []
