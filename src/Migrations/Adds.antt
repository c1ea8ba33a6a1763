-- ===== src/Migrations/Adds.antt =====
-- The insertions of backend/app/repositories against the keys and the foreign keys of the migrated
-- schema, for rows whose texts have room in its columns.
use mathlib.Core.Option.{some-injective}
use enterprise_auth_server.Common.{
  ℕ, true, Option, none, Text, some, List, [], ◌∷◌, ◌++◌, ◌≡◌, sym, subst, ◌∙◌, arith, nat_eq,
  text_eq, if◌then◌else◌,
}
use enterprise_auth_server.Core.Errors.{integrity_error}
use enterprise_auth_server.Models.{
  User, Session, TwoFactorAuth, BackupCode, EmailToken, OauthAccount, Database,
}
use enterprise_auth_server.State.World.{World}
use enterprise_auth_server.State.Exec.{Result, ok, err}
use enterprise_auth_server.Users
use enterprise_auth_server.Sessions.Repository as SessionRepository
use enterprise_auth_server.TwoFactor.Repository as TwoFactorRepository
use enterprise_auth_server.EmailAccounts.Repository as EmailRepository
use enterprise_auth_server.Oauth.Repository as OauthRepository
use enterprise_auth_server.Migrations.Names.{Name, name_eq}
use enterprise_auth_server.Migrations.{Schema, empty}
use enterprise_auth_server.Migrations.Keys.{
  Cell, number, characters, keys, breaks_key, refers, has_parents, has_rooms,
}
use enterprise_auth_server.Migrations.Revisions.{upgrade_all, history}
use enterprise_auth_server.Migrations.Head.{migrated, upgrade_all-empty}

-- The ids and the texts of a row of each class.
abbrev pub text_cell : Name → Option Text → List (Name × Cell) → List (Name × Cell)
text_cell n none row = row
text_cell n (some t) row = (n, characters t) ∷ row

abbrev pub user_cells : User → List (Name × Cell)
user_cells u =
    ("id", number u.id)
    ∷ ("email", characters u.email)
    ∷ ("hashed_password", characters u.hashed_password)
    ∷ ("full_name", characters u.full_name)
    ∷ []

abbrev pub session_cells : Session → List (Name × Cell)
session_cells s =
    ("id", number s.id)
    ∷ ("user_id", number s.user_id)
    ∷ ("session_uuid", number s.session_uuid)
    ∷ ("refresh_token_id", characters s.refresh_token_id)
    ∷ ("device_name", characters s.device_name)
    ∷ ("device_type", characters s.device_type)
    ∷ ("browser", characters s.browser)
    ∷ ("browser_version", characters s.browser_version)
    ∷ ("operating_system", characters s.operating_system)
    ∷ ("operating_system_version", characters s.operating_system_version)
    ∷ ("user_agent", characters s.user_agent)
    ∷ ("ip_address", characters s.ip_address)
    ∷ text_cell "country" s.country
        (text_cell "city" s.city (text_cell "logout_reason" s.logout_reason []))

abbrev pub two_factor_cells : TwoFactorAuth → List (Name × Cell)
two_factor_cells r =
    ("id", number r.id)
    ∷ ("user_id", number r.user_id)
    ∷ ("encrypted_secret", characters r.encrypted_secret)
    ∷ []

abbrev pub backup_code_cells : BackupCode → List (Name × Cell)
backup_code_cells c =
    ("id", number c.id)
    ∷ ("user_id", number c.user_id)
    ∷ ("hashed_code", characters c.hashed_code)
    ∷ []

abbrev pub email_token_cells : EmailToken → List (Name × Cell)
email_token_cells t =
    ("id", number t.id)
    ∷ ("user_id", number t.user_id)
    ∷ ("token_hash", characters t.token_hash)
    ∷ text_cell "new_email" t.new_email []

abbrev pub oauth_account_cells : OauthAccount → List (Name × Cell)
oauth_account_cells a =
    ("id", number a.id)
    ∷ ("user_id", number a.user_id)
    ∷ ("provider", characters a.provider)
    ∷ ("provider_account_id", characters a.provider_account_id)
    ∷ text_cell "email" a.email []

-- A row of each class.
pub record Rows : Type 0 where
  pub user : User
  pub session : Session
  pub two_factor : TwoFactorAuth
  pub backup_code : BackupCode
  pub email_token : EmailToken
  pub oauth_account : OauthAccount

-- The texts of the rows have room in their columns.
pub record HaveRooms (s : Schema) (r : Rows) : Type 0 where
  pub user : has_rooms "users" s (user_cells r.user) ≡ true
  pub session : has_rooms "sessions" s (session_cells r.session) ≡ true
  pub two_factor : has_rooms "two_factor_auth" s (two_factor_cells r.two_factor) ≡ true
  pub backup_code : has_rooms "backup_codes" s (backup_code_cells r.backup_code) ≡ true
  pub email_token : has_rooms "email_tokens" s (email_token_cells r.email_token) ≡ true
  pub oauth_account : has_rooms "oauth_accounts" s (oauth_account_cells r.oauth_account) ≡ true

-- An insertion by the keys of the schema: refused where the row breaks one, or refers to a row that
-- is not there.
abbrev pub inserted {ℓ} :
    {A : Type ℓ}
    → Name
    → (A → List (Name × Cell))
    → Schema
    → A
    → List A
    → World
    → World
    → Result (Unit {0}) × World
inserted n cells s x rows w after =
    if breaks_key (keys n s) cells x rows
    then (err integrity_error, w)
    else if has_parents n s (cells x) w.db
    then (ok tt, after)
    else (err integrity_error, w)

-- What a world is with another database.
abbrev pub with_db : World → Database → World
with_db w db = record w { db = db }

-- The insertions of the repositories are those by the keys of a schema.
pub record HasKeysOf (s : Schema) (r : Rows) (w : World) : Type 0 where
  pub users :
      Users.add r.user w
      ≡ inserted "users" user_cells s r.user w.db.users w
          (with_db w (record w.db { users = w.db.users ++ r.user ∷ [] }))
  pub sessions :
      SessionRepository.add r.session w
      ≡ inserted "sessions" session_cells s r.session w.db.sessions w
          (with_db w (record w.db { sessions = w.db.sessions ++ r.session ∷ [] }))
  pub two_factor :
      TwoFactorRepository.add r.two_factor w
      ≡ inserted "two_factor_auth" two_factor_cells s r.two_factor w.db.two_factor w
          (with_db w (record w.db { two_factor = w.db.two_factor ++ r.two_factor ∷ [] }))
  pub backup_codes :
      TwoFactorRepository.add_code r.backup_code w
      ≡ inserted "backup_codes" backup_code_cells s r.backup_code w.db.backup_codes w
          (with_db w (record w.db { backup_codes = w.db.backup_codes ++ r.backup_code ∷ [] }))
  pub email_tokens :
      EmailRepository.add r.email_token w
      ≡ inserted "email_tokens" email_token_cells s r.email_token w.db.email_tokens w
          (with_db w (record w.db { email_tokens = w.db.email_tokens ++ r.email_token ∷ [] }))
  pub oauth_accounts :
      OauthRepository.add r.oauth_account w
      ≡ inserted "oauth_accounts" oauth_account_cells s r.oauth_account w.db.oauth_accounts w
          (with_db w (record w.db { oauth_accounts = w.db.oauth_accounts ++ r.oauth_account ∷ [] }))

migrated-HasKeysOf : (r : Rows) (w : World) → HasKeysOf migrated r w
unfolding Users.add SessionRepository.add TwoFactorRepository.add TwoFactorRepository.add_code
    EmailRepository.add OauthRepository.add keys breaks_key has_parents refers
migrated-HasKeysOf r w = record {
  users = ground arith;
  sessions = ground arith;
  two_factor = ground arith;
  backup_codes = ground arith;
  email_tokens = ground arith;
  oauth_accounts = ground arith;
}

-- In the schema that all revisions build from an empty one, for a user, a session, a two-factor
-- record, a recovery code, an e-mail token and a linked account whose texts have room in their
-- columns: the insertion is refused with an integrity error exactly when the row has the same cells
-- as another one in the primary key, a unique constraint or a unique index of its table, or a foreign
-- key of it names a user that is not there; otherwise it adds the row at the end and changes nothing
-- else.
pub upgrade_all-HasKeysOf :
    (ids : ℕ → ℕ) (s : Schema) (r : Rows) (w : World)
    → upgrade_all ids history empty ≡ some s
    → HaveRooms s r
    → HasKeysOf s r w
upgrade_all-HasKeysOf ids s r w h rooms =
    subst (λ (t : Schema). HasKeysOf t r w)
      (some-injective migrated s (sym (upgrade_all-empty ids) ∙ h)) (migrated-HasKeysOf r w)
