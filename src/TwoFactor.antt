-- ===== src/TwoFactor.antt =====
-- backend/app/services/two_factor.py, with the secrets encrypted as in backend/app/core/crypto.py.
pub mod Repository
pub mod OneTimeCodes
pub mod Disabling
pub mod RecoveryCodes
pub mod NewCodes
use enterprise_auth_server.Common.{
  ℕ, zero, suc, ◌+◌, ◌*◌, Bool, true, false, not, ◌&&◌, ◌||◌, Option, none, some, List, [], ◌∷◌,
  ◌++◌, Text, ltb, if◌then◌else◌, take, drop,
}
use enterprise_auth_server.Core.Errors.{auth_error, conflict, not_found, decryption_error}
use enterprise_auth_server.Core.External.{Env}
use enterprise_auth_server.Core.Passwords.{hash_password}
use enterprise_auth_server.Core.Strings.{text, upper, strip}
use enterprise_auth_server.Core.Uuid
use enterprise_auth_server.Models.{User, TwoFactorAuth, BackupCode}
use enterprise_auth_server.State.Redis.{otp_used, number}
use enterprise_auth_server.State.World.{World}
use enterprise_auth_server.State.Exec.{
  Exec, ◌>>=◌, ◌>>◌, pure, raise, gets, or_raise, raise_if, when, draw,
}
use enterprise_auth_server.State.Commands.{exists, set}
use enterprise_auth_server.RateLimit.{ensure_not_locked, record_failure, clear_failures}
use Repository
use Repository.{get_by_user, list_unused, count_unused, save_code, add_code, delete_for_user}

-- `f"2fa:{user.id}"`
unfoldable pub lock_id : User → Text
unfolding Uuid.to_text
lock_id user = text "2fa:" ++ Uuid.to_text user.id

-- Four characters from a position on.
abbrev group : ℕ → Text → Text
group i raw = take 4 (drop i raw)

module _ {Token : Type 0} (env : Env Token) where
  -- `encrypt` and `decrypt`
  unfoldable pub encrypt : Text → Exec Text
  unfolding draw
  encrypt plaintext = do n ← draw; pure (env.fernet_encrypt plaintext n)

  unfoldable pub decrypt : Text → Exec Text
  decrypt ciphertext = or_raise decryption_error (env.fernet_decrypt ciphertext)

  -- `TwoFactorService.require_password`
  unfoldable pub require_password : User → Text → Exec (Unit {0})
  require_password user password =
      raise_if (not (env.verify password user.hashed_password))
        (auth_error "Password confirmation failed.")

  abbrev already_enabled : Option TwoFactorAuth → Bool
  already_enabled none = false
  already_enabled (some r) = r.enabled

  store_pending : User → Text → Option TwoFactorAuth → Exec (Unit {0})
  unfolding encrypt Repository.add Repository.save draw
  store_pending user secret none = do
    encrypted ← encrypt secret
    n ← draw
    Repository.add (record {
      id = env.new_uuid n;
      user_id = user.id;
      encrypted_secret = encrypted;
      enabled = false;
      verified_at = none;
    })
  store_pending user secret (some r) = do
    encrypted ← encrypt secret
    Repository.save r.id
        (λ s. record s { encrypted_secret = encrypted; enabled = false; verified_at = none })

  -- `TwoFactorService.provisioning_uri`
  unfoldable pub provisioning_uri : Text → Text → Text
  provisioning_uri secret email = env.totp_uri secret email env.settings.two_factor_issuer

  -- `TwoFactorService.qr_code_png` and `qr_code_base64`
  unfoldable pub qr_code_png : Text → Text
  qr_code_png uri = env.qr_png uri

  unfoldable pub qr_code_base64 : Text → Text
  qr_code_base64 uri = env.base64 (env.qr_png uri)

  -- `TwoFactorService.start_setup`: the secret and its provisioning URI.
  unfoldable pub start_setup : User → Text → Exec (Text × Text)
  unfolding require_password get_by_user store_pending draw provisioning_uri
  start_setup user password = do
    require_password user password
    found ← get_by_user user.id
    raise_if (already_enabled found) (conflict "Two-factor authentication is already enabled.")
    n ← draw
    let secret = env.new_secret n
    store_pending user secret found
    pure (secret, provisioning_uri secret user.email)

  abbrev require_pending : Option TwoFactorAuth → Exec TwoFactorAuth
  require_pending none = raise (not_found "No pending two-factor setup to display.")
  require_pending (some r) =
      if r.enabled then raise (not_found "No pending two-factor setup to display.") else pure r

  -- `TwoFactorService.get_pending_secret`
  unfoldable pub get_pending_secret : User → Exec Text
  unfolding get_by_user decrypt
  get_pending_secret user = do
    found ← get_by_user user.id
    r ← require_pending found
    decrypt r.encrypted_secret

  -- `TwoFactorService.confirm_setup`
  unfoldable pub confirm_setup : User → Text → Exec (Unit {0})
  unfolding get_by_user decrypt Repository.save
  confirm_setup user otp = do
    found ← get_by_user user.id
    r ← or_raise (not_found "Start two-factor setup first.") found
    raise_if r.enabled (conflict "Two-factor authentication is already enabled.")
    secret ← decrypt r.encrypted_secret
    now ← gets (λ w. w.now)
    raise_if (not (env.totp_verify secret otp env.settings.totp_valid_window now))
        (auth_error "Invalid verification code.")
    Repository.save r.id (λ s. record s { enabled = true; verified_at = some now })

  abbrev require_enabled : Option TwoFactorAuth → Exec TwoFactorAuth
  require_enabled none = raise (conflict "Two-factor authentication is not enabled.")
  require_enabled (some r) =
      if not r.enabled then raise (conflict "Two-factor authentication is not enabled.") else pure r

  -- `TwoFactorService._enabled_record`
  unfoldable pub enabled_record : User → Exec TwoFactorAuth
  unfolding get_by_user
  enabled_record user = do found ← get_by_user user.id; require_enabled found

  -- A failure is counted, and the error raised.
  reject_code : Text → Bool → Exec (Unit {0}) → Exec (Unit {0})
  unfolding record_failure
  reject_code id bad refusal =
      if bad then (record_failure env.settings id none >> refusal) else pure tt

  -- `TwoFactorService.verify_totp`
  unfoldable pub verify_totp : User → Text → Exec (Unit {0})
  unfolding ensure_not_locked enabled_record decrypt exists reject_code set clear_failures
  verify_totp user otp = do
    ensure_not_locked (lock_id user) none
    r ← enabled_record user
    secret ← decrypt r.encrypted_secret
    used ← exists (otp_used user.id otp)
    reject_code (lock_id user) used (raise (auth_error "This code has already been used."))
    now ← gets (λ w. w.now)
    let valid = env.totp_verify secret otp env.settings.totp_valid_window now
    reject_code (lock_id user) (not valid) (raise (auth_error "Invalid verification code."))
    set (otp_used user.id otp) (number 1) (30 * (2 * env.settings.totp_valid_window + 1))
    clear_failures (lock_id user) none

  -- `TwoFactorService._generate_code`: three groups of four of the characters drawn.
  unfoldable pub generate_code : Exec Text
  unfolding draw
  generate_code = do
    n ← draw
    let raw = env.new_secret n
    pure (group 0 raw ++ b'-' ∷ (group 4 raw ++ b'-' ∷ group 8 raw))

  generate_codes : ℕ → Exec (List Text)
  unfolding generate_code
  generate_codes zero = pure []
  generate_codes (suc k) = do code ← generate_code; codes ← generate_codes k; pure (code ∷ codes)

  store_codes : User → List Text → Exec (Unit {0})
  unfolding hash_password add_code draw
  store_codes user [] = pure tt
  store_codes user (code ∷ codes) = do
    hashed ← hash_password env code
    n ← draw
    add_code
        (record { id = env.new_uuid n; user_id = user.id; hashed_code = hashed; used_at = none })
    store_codes user codes

  -- `TwoFactorService.generate_recovery_codes`
  unfoldable pub generate_recovery_codes : User → Bool → Exec (List Text)
  unfolding count_unused delete_for_user generate_codes store_codes
  generate_recovery_codes user replace = do
    existing ← gets (λ w. count_unused user.id w.db)
    raise_if (ltb 0 existing && not replace)
        (conflict "Recovery codes already exist. Use regenerate to replace them.")
    when replace (delete_for_user user.id)
    plaintext ← generate_codes env.settings.backup_code_count
    store_codes user plaintext
    pure plaintext

  -- The loop of `consume_recovery_code`: the first unused code that the text verifies against.
  unfoldable pub matching_code : Text → List BackupCode → Option BackupCode
  matching_code normalized [] = none
  matching_code normalized (c ∷ cs) =
      if env.verify normalized c.hashed_code then some c else matching_code normalized cs

  consume : User → Option BackupCode → Exec (Unit {0})
  unfolding record_failure clear_failures save_code
  consume user none = do
    record_failure env.settings (lock_id user) none
    raise (auth_error "Invalid recovery code.")
  consume user (some c) = do
    now ← gets (λ w. w.now)
    save_code c.id (λ d. record d { used_at = some now })
    clear_failures (lock_id user) none

  -- `TwoFactorService.consume_recovery_code`
  unfoldable pub consume_recovery_code : User → Text → Exec (Unit {0})
  unfolding ensure_not_locked strip upper list_unused matching_code consume
  consume_recovery_code user code = do
    ensure_not_locked (lock_id user) none
    unused ← gets (λ w. list_unused user.id w.db)
    consume user (matching_code (upper (strip code)) unused)

  abbrev delete_found : Option TwoFactorAuth → Exec (Unit {0})
  delete_found none = pure tt
  delete_found (some r) = Repository.delete r

  -- `TwoFactorService.disable`
  unfoldable pub disable : User → Text → Text → Exec (Unit {0})
  unfolding require_password verify_totp get_by_user Repository.delete delete_for_user
  disable user password otp = do
    require_password user password
    verify_totp user otp
    found ← get_by_user user.id
    delete_found found
    delete_for_user user.id

  -- `TwoFactorService.is_enabled`
  unfoldable pub is_enabled : User → Exec Bool
  unfolding get_by_user
  is_enabled user = do found ← get_by_user user.id; pure (already_enabled found)

pub record TwoFactorStatus : Type 0 where
  pub enabled : Bool
  pub verified_at : Option ℕ
  pub recovery_codes_remaining : ℕ

abbrev verified_at_of : Option TwoFactorAuth → Option ℕ
verified_at_of none = none
verified_at_of (some r) = r.verified_at

-- `TwoFactorService.status`
unfoldable pub two_factor_status : {Token : Type 0} → Env Token → User → Exec TwoFactorStatus
unfolding get_by_user count_unused
two_factor_status env user = do
  found ← get_by_user user.id
  remaining ← gets (λ w. count_unused user.id w.db)
  let on = already_enabled env found
  pure (record {
    enabled = on;
    verified_at = verified_at_of found;
    recovery_codes_remaining = if on then remaining else 0;
  })
