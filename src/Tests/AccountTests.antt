-- ===== src/Tests/AccountTests.antt =====
-- Instances of the theorems on accounts, second factors and the login routes.
use enterprise_auth_server.Common.{
  ◌≡◌, ◌≢◌, refl, true, false, not, none, some, List, [], ◌∷◌, Text, length, arith, text_beq,
  text_beq_iff, find, select, any, inl, ◌==◌, nat_eq,
}
use enterprise_auth_server.Core.Errors.{auth_error}
use enterprise_auth_server.Core.External.{HashVerifies}
use enterprise_auth_server.Core.Strings.{text, upper, strip, lower}
use enterprise_auth_server.Models.{User, TwoFactorAuth, BackupCode}
use enterprise_auth_server.State.World.{World, wait}
use enterprise_auth_server.State.Exec.{Result, ok, err}
use enterprise_auth_server.RateLimit.{record_failure, ensure_not_locked}
use enterprise_auth_server.TwoFactor.{
  verify_totp, disable, consume_recovery_code, matching_code, generate_recovery_codes,
}
use enterprise_auth_server.TwoFactor.Repository.{list_unused, count_unused}
use enterprise_auth_server.TwoFactor.OneTimeCodes.{otp_is_single_use}
use enterprise_auth_server.TwoFactor.Disabling.{Disabled, disable-Disabled}
use enterprise_auth_server.TwoFactor.RecoveryCodes.{consume_recovery_code-list_unused}
use enterprise_auth_server.TwoFactor.NewCodes.{AllVerify, generate_recovery_codes-list_unused}
use enterprise_auth_server.Users.{with_email}
use enterprise_auth_server.Accounts.{register, authenticate}
use enterprise_auth_server.Accounts.Authentication.{
  Authenticated, authenticate-Authenticated, authenticate-rejects,
}
use enterprise_auth_server.Accounts.Registration.{
  HasUniqueEmails, Registered, register-HasUniqueEmails, authenticate-register,
}
use enterprise_auth_server.Tests.Fixtures.{env, user, tables, start}

env_hash : HashVerifies env
env_hash p n = (text_beq_iff p p).1 refl

-- The user has enabled two-factor authentication and has one recovery code left.
abbrev factor : TwoFactorAuth
factor = record {
  id = 70;
  user_id = 7;
  encrypted_secret = text "s";
  enabled = true;
  verified_at = some 0;
}

abbrev code : BackupCode
code = record { id = 80; user_id = 7; hashed_code = text "AAAA-BBBB-CCCC"; used_at = none }

abbrev protected : World
protected = record start {
  db = record tables { two_factor = factor ∷ []; backup_codes = code ∷ [] };
}

abbrev used : World
used = (verify_totp env user (text "123456") protected).1

otp_is_single_use_example : (verify_totp env user (text "123456") (wait 89000000 used)).0 ≢ ok tt
unfolding verify_totp find text_beq
otp_is_single_use_example =
    otp_is_single_use env user (text "123456") protected used (wait 89000000 used) refl refl
      (omega arith)

-- The user's password is the one that the hash of the small database is of.
abbrev disabled : World
disabled = (disable env user user.hashed_password (text "123456") protected).1

disable-Disabled_example : Disabled env user user.hashed_password (text "123456") protected disabled
unfolding disable find select any text_beq
disable-Disabled_example =
    disable-Disabled env user user.hashed_password (text "123456") protected disabled (refl, tt)
      refl

abbrev recovered : World
recovered = (consume_recovery_code env user (text " aaaa-bbbb-cccc") protected).1

consume_recovery_code-list_unused_example :
    (c : BackupCode) × (env.verify (upper (strip (text " aaaa-bbbb-cccc"))) c.hashed_code ≡ true)
    × (matching_code env (upper (strip (text " aaaa-bbbb-cccc"))) (list_unused 7 protected.db)
        ≡ some c)
    × (list_unused 7 recovered.db ≡ select (λ d. not (d.id == c.id)) (list_unused 7 protected.db))
unfolding consume_recovery_code list_unused select text_beq
consume_recovery_code-list_unused_example =
    consume_recovery_code-list_unused env user (text " aaaa-bbbb-cccc") protected recovered refl

authenticate-Authenticated_example :
    Authenticated env (text "Ann@example.com") (text "secret") none user start
unfolding authenticate text_beq
authenticate-Authenticated_example =
    authenticate-Authenticated env (text "Ann@example.com") (text "secret") none user start
      (authenticate env (text "Ann@example.com") (text "secret") none start).1 refl

authenticate-rejects_example :
    ((authenticate env (text "bob@example.com") (text "secret") none start).0
      ≡ err (auth_error "Invalid email or password."))
    × ((authenticate env (text "bob@example.com") (text "secret") none start).1.redis
        ≡ (record_failure env.settings (text "bob@example.com") none start).1.redis)
    × ((authenticate env (text "bob@example.com") (text "secret") none start).1.db ≡ tables)
unfolding authenticate text_beq
authenticate-rejects_example =
    authenticate-rejects env (text "bob@example.com") (text "secret") none start refl (inl refl)

abbrev new_user : User
new_user = record {
  id = 51;
  email = text "bob@example.com";
  hashed_password = text "Str0ng!pass";
  full_name = text "Bob";
  is_active = true;
  is_verified = false;
  is_superuser = false;
  roles = [];
}

abbrev registered : World
registered = (register env (text "Bob@example.com") (text "Str0ng!pass") (text "Bob") start).1

emails_are_unique : HasUniqueEmails (user ∷ [])
unfolding with_email
emails_are_unique = record { at_most_one = λ e. ground arith }

register-HasUniqueEmails_example :
    HasUniqueEmails registered.db.users
    × Registered env
        (text "Bob@example.com")
        (text "Str0ng!pass")
        (text "Bob")
        new_user
        start
        registered
unfolding register text_beq lower
register-HasUniqueEmails_example =
    register-HasUniqueEmails env (text "Bob@example.com") (text "Str0ng!pass") (text "Bob") new_user
      start registered refl emails_are_unique

authenticate-register_example :
    (u : User) × ((authenticate env
        (text "BOB@example.com")
        (text "Str0ng!pass")
        none
        (wait 86400000000 registered)).0
      ≡ ok u)
    × (u.id ≡ 51)
unfolding register text_beq lower ensure_not_locked
authenticate-register_example =
    authenticate-register env (text "Bob@example.com") (text "Str0ng!pass") (text "Bob") env_hash
      (text "BOB@example.com") none new_user start registered (wait 86400000000 registered) refl
      refl refl refl

abbrev texts_of : Result (List Text) → List Text
texts_of (ok codes) = codes
texts_of (err e) = []

abbrev regenerated : World
regenerated = (generate_recovery_codes env user true protected).1

abbrev new_codes : List Text
new_codes = texts_of (generate_recovery_codes env user true protected).0

generate_recovery_codes-list_unused_example :
    (length new_codes ≡ 10)
    × AllVerify env new_codes (list_unused 7 regenerated.db)
    × (count_unused 7 regenerated.db ≡ 10)
unfolding generate_recovery_codes
generate_recovery_codes-list_unused_example =
    generate_recovery_codes-list_unused env env_hash user true new_codes protected regenerated refl
