-- ===== src/EmailAccounts.antt =====
-- backend/app/services/email_account.py: email verification, password reset and change of email.
pub mod Repository
pub mod SingleUse
pub mod Reset
pub mod Change
pub mod Issue
use enterprise_auth_server.Common.{
  ℕ, ◌+◌, Bool, true, false, not, ◌||◌, Option, none, some, Text, leb, ◌==◌, text_eq, if◌then◌else◌,
  is_some,
}
use enterprise_auth_server.Core.Errors.{auth_error, conflict, validation_error}
use enterprise_auth_server.Core.External.{Env}
use enterprise_auth_server.Core.Passwords.{validate_password_strength, hash_password}
use enterprise_auth_server.Core.Strings.{lower}
use enterprise_auth_server.Core.Units.{hours, minutes}
use enterprise_auth_server.Models
use enterprise_auth_server.Models.{User, EmailToken, Purpose}
use enterprise_auth_server.State.World.{
  World, welcome, verification, password_reset, email_change, password_changed,
}
use enterprise_auth_server.State.Exec.{
  Exec, ◌>>=◌, ◌>>◌, pure, raise, gets, or_raise, raise_if, draw,
}
use enterprise_auth_server.State.Background.{add_task}
use enterprise_auth_server.Users
use enterprise_auth_server.Users.{get_by_email, email_exists}
use Repository
use Repository.{get_by_hash, delete_for_purpose, same_purpose}

abbrev pub used : ℕ → EmailToken → EmailToken
used now t = record t { used_at = some now }

-- `token is None or token.purpose != purpose or token.used_at is not None`
abbrev pub require_unused : Purpose → Option EmailToken → Exec EmailToken
require_unused purpose none = raise (auth_error "Invalid or already-used token.")
require_unused purpose (some t) =
    if not (same_purpose t.purpose purpose) || is_some t.used_at
    then raise (auth_error "Invalid or already-used token.")
    else pure t

module _ {Token : Type 0} (env : Env Token) where
  -- `_issue`: only the latest token of a purpose is kept.
  unfoldable pub issue : User → Purpose → ℕ → Option Text → Exec Text
  unfolding delete_for_purpose draw Repository.add
  issue user purpose ttl new_email = do
    delete_for_purpose user.id purpose
    n ← draw
    let raw = env.new_secret n
    now ← gets (λ w. w.now)
    m ← draw
    Repository.add (record {
      id = env.new_uuid m;
      user_id = user.id;
      token_hash = env.sha256_hex raw;
      purpose = purpose;
      new_email = new_email;
      expires_at = now + ttl;
      used_at = none;
    })
    pure raw

  -- `_consume`
  unfoldable pub consume : Text → Purpose → Exec EmailToken
  unfolding get_by_hash Repository.save
  consume raw purpose = do
    found ← get_by_hash (env.sha256_hex raw)
    token ← require_unused purpose found
    now ← gets (λ w. w.now)
    raise_if (leb token.expires_at now) (auth_error "This token has expired.")
    Repository.save token.id (used now)
    pure (used now token)

  -- `send_signup_emails`
  unfoldable pub send_signup_emails : User → Exec (Unit {0})
  unfolding issue add_task
  send_signup_emails user = do
    raw ← issue user Models.verify_email (hours env.settings.email_verification_expire_hours) none
    add_task (welcome user.email user.full_name)
    add_task (verification user.email raw)

  -- `resend_verification`
  unfoldable pub resend_verification : User → Exec (Unit {0})
  unfolding issue add_task
  resend_verification user = do
    raise_if user.is_verified (conflict "Email is already verified.")
    raw ← issue user Models.verify_email (hours env.settings.email_verification_expire_hours) none
    add_task (verification user.email raw)

  -- `verify_email`
  unfoldable pub verify_email : Text → Exec User
  unfolding consume Users.get Users.save
  verify_email raw = do
    token ← consume raw Models.verify_email
    found ← Users.get token.user_id
    user ← or_raise (auth_error "Account no longer exists.") found
    Users.save user.id (λ u. record u { is_verified = true })
    pure (record user { is_verified = true })

  reset_found : Option User → Exec (Unit {0})
  unfolding issue add_task
  reset_found none = pure tt
  reset_found (some user) = if not user.is_active then pure tt else (do
    raw ← issue user Models.reset_password (minutes env.settings.password_reset_expire_minutes) none
    add_task (password_reset user.email raw))

  -- `request_password_reset`
  unfoldable pub request_password_reset : Text → Exec (Unit {0})
  unfolding get_by_email reset_found
  request_password_reset email = do found ← get_by_email email; reset_found found

  -- `reset_password`
  unfoldable pub reset_password : Text → Text → Exec User
  unfolding validate_password_strength consume Users.get hash_password Users.save add_task
  reset_password raw new_password = do
    validate_password_strength new_password
    token ← consume raw Models.reset_password
    found ← Users.get token.user_id
    user ← or_raise (auth_error "Account no longer exists.") found
    hashed ← hash_password env new_password
    Users.save user.id (λ u. record u { hashed_password = hashed })
    add_task (password_changed user.email)
    pure (record user { hashed_password = hashed })

  -- `request_email_change`
  unfoldable pub request_email_change : User → Text → Text → Exec (Unit {0})
  unfolding lower email_exists issue add_task
  request_email_change user new_email password = do
    raise_if (not (env.verify password user.hashed_password))
        (auth_error "Password confirmation failed.")
    let address = lower new_email
    raise_if (address == user.email) (validation_error "New email matches the current email.")
    taken ← email_exists address
    raise_if taken (conflict "That email address is already in use.")
    raw ←
        issue user Models.change_email (hours env.settings.email_change_expire_hours) (some address)
    add_task (email_change address raw)

  require_change : Option User → Option Text → Exec (User × Text)
  require_change (some user) (some address) = pure (user, address)
  require_change _ _ = raise (auth_error "Invalid email-change token.")

  -- `confirm_email_change`: the new address is checked again.
  unfoldable pub confirm_email_change : Text → Exec User
  unfolding consume Users.get require_change email_exists Users.save
  confirm_email_change raw = do
    token ← consume raw Models.change_email
    found ← Users.get token.user_id
    (user, address) ← require_change found token.new_email
    taken ← email_exists address
    raise_if taken (conflict "That email address is already in use.")
    Users.save user.id (λ u. record u { email = address; is_verified = true })
    pure (record user { email = address; is_verified = true })
