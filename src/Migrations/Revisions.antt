-- ===== src/Migrations/Revisions.antt =====
-- The revisions of backend/migrations/versions and their order, from the first to the head.
use enterprise_auth_server.Common.{ℕ, Option, none, some, List, [], ◌∷◌}
use enterprise_auth_server.Common.Partial.{◌>>=◌}
use enterprise_auth_server.Migrations.{Schema, Script, run}
use enterprise_auth_server.Migrations.Initial
use enterprise_auth_server.Migrations.AddTwoFactor
use enterprise_auth_server.Migrations.AddSessions
use enterprise_auth_server.Migrations.AddEmailTokens
use enterprise_auth_server.Migrations.AddOauthAccounts
use enterprise_auth_server.Migrations.CompositeIndexes

pub data Revision : Type 0 where
  initial two_factor sessions email_tokens oauth_accounts composite : Revision

-- `down_revision`
unfoldable pub down_revision : Revision → Option Revision
down_revision initial = none
down_revision two_factor = some initial
down_revision sessions = some two_factor
down_revision email_tokens = some sessions
down_revision oauth_accounts = some email_tokens
down_revision composite = some oauth_accounts

-- What `upgrade` of a revision emits, or nothing where it raises.
unfoldable pub upgrade_of : (ℕ → ℕ) → Revision → Option Script
unfolding Initial.upgrade
upgrade_of ids initial = Initial.upgrade ids
upgrade_of ids two_factor = some AddTwoFactor.upgrade
upgrade_of ids sessions = some AddSessions.upgrade
upgrade_of ids email_tokens = some AddEmailTokens.upgrade
upgrade_of ids oauth_accounts = some AddOauthAccounts.upgrade
upgrade_of ids composite = some CompositeIndexes.upgrade

-- What `downgrade` of a revision emits.
unfoldable pub downgrade_of : Revision → Script
downgrade_of initial = Initial.downgrade
downgrade_of two_factor = AddTwoFactor.downgrade
downgrade_of sessions = AddSessions.downgrade
downgrade_of email_tokens = AddEmailTokens.downgrade
downgrade_of oauth_accounts = AddOauthAccounts.downgrade
downgrade_of composite = CompositeIndexes.downgrade

-- One revision applied to a schema.
unfoldable pub upgrade : (ℕ → ℕ) → Revision → Schema → Option Schema
unfolding upgrade_of run
upgrade ids r s = do ops ← upgrade_of ids r; run ops s

unfoldable pub downgrade : Revision → Schema → Option Schema
unfolding downgrade_of run
downgrade r s = run (downgrade_of r) s

-- The revisions of a list, one after another.
unfoldable pub upgrade_all : (ℕ → ℕ) → List Revision → Schema → Option Schema
unfolding upgrade
upgrade_all ids [] s = some s
upgrade_all ids (r ∷ rs) s = do t ← upgrade ids r s; upgrade_all ids rs t

unfoldable pub downgrade_all : List Revision → Schema → Option Schema
unfolding downgrade
downgrade_all [] s = some s
downgrade_all (r ∷ rs) s = do t ← downgrade_all rs s; downgrade r t

-- `alembic upgrade head` runs these.
abbrev pub history : List Revision
history = initial ∷ two_factor ∷ sessions ∷ email_tokens ∷ oauth_accounts ∷ composite ∷ []
