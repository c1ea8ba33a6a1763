-- ===== src/Accounts.antt =====
-- backend/app/services/auth.py: registration and the check of a password.
pub mod Tables
pub mod Registration
pub mod Authentication
use enterprise_auth_server.Common.{
  Bool, true, false, not, Option, none, some, List, [], ◌∷◌, Text, if◌then◌else◌,
}
use enterprise_auth_server.Core.Errors.{auth_error, conflict}
use enterprise_auth_server.Core.External.{Env}
use enterprise_auth_server.Core.Passwords.{validate_password_strength, hash_password}
use enterprise_auth_server.Core.Strings.{text, lower}
use enterprise_auth_server.Models.{User, Role}
use enterprise_auth_server.State.Exec.{Exec, ◌>>=◌, ◌>>◌, pure, raise, raise_if, draw}
use enterprise_auth_server.RateLimit.{ensure_not_locked, record_failure, clear_failures}
use enterprise_auth_server.Users
use enterprise_auth_server.Users.{get_by_email, email_exists, role_by_name}

-- `user.roles.append(default_role)`, if there is one
abbrev pub default_roles : Option Role → List Role
default_roles none = []
default_roles (some r) = r ∷ []

module _ {Token : Type 0} (env : Env Token) where
  -- `AuthService.register`
  unfoldable pub register : Text → Text → Text → Exec User
  unfolding validate_password_strength email_exists hash_password role_by_name Users.add draw
  register email password full_name = do
    validate_password_strength password
    taken ← email_exists email
    raise_if taken (conflict "A user with this email already exists.")
    hashed ← hash_password env password
    role ← role_by_name (text "user")
    n ← draw
    let user : User = record {
      id = env.new_uuid n;
      email = lower email;
      hashed_password = hashed;
      full_name = full_name;
      is_active = true;
      is_verified = false;
      is_superuser = false;
      roles = default_roles role;
    }
    Users.add user
    pure user

  stored_hash : Option User → Exec Text
  unfolding hash_password
  stored_hash none = hash_password env (text "invalid-placeholder")
  stored_hash (some user) = pure user.hashed_password

  rehash : User → Text → Exec User
  unfolding hash_password Users.save
  rehash user password =
      if env.needs_update user.hashed_password
      then (do
        hashed ← hash_password env password
        Users.save user.id (λ u. record u { hashed_password = hashed })
        pure (record user { hashed_password = hashed }))
      else pure user

  reject : Text → Option Text → Exec User
  unfolding record_failure
  reject email ip = do
    record_failure env.settings email ip
    raise (auth_error "Invalid email or password.")

  accept : Text → Text → Option Text → User → Exec User
  unfolding clear_failures rehash
  accept email password ip user = do
    raise_if (not user.is_active) (auth_error "This account is disabled.")
    clear_failures email ip
    rehash user password

  decide : Text → Text → Option Text → Option User → Bool → Exec User
  unfolding reject accept
  decide email password ip none password_ok = reject email ip
  decide email password ip (some user) false = reject email ip
  decide email password ip (some user) true = accept email password ip user

  -- `AuthService.authenticate`: an unknown email is checked against the hash of a placeholder.
  unfoldable pub authenticate : Text → Text → Option Text → Exec User
  unfolding ensure_not_locked get_by_email stored_hash decide
  authenticate email password ip = do
    ensure_not_locked email ip
    user ← get_by_email email
    stored ← stored_hash user
    decide email password ip user (env.verify password stored)
