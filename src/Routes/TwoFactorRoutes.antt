-- ===== src/Routes/TwoFactorRoutes.antt =====
-- backend/app/api/v1/two_factor.py.
use enterprise_auth_server.Common.{◌*◌, true, false, Bool, List, ◌++◌, Text}
use enterprise_auth_server.Core.External.{Env}
use enterprise_auth_server.Core.Strings.{text}
use enterprise_auth_server.Core.Uuid
use enterprise_auth_server.Models.{User}
use enterprise_auth_server.State.Exec.{Exec, ◌>>=◌, ◌>>◌, pure}
use enterprise_auth_server.RateLimit.{hit}
use enterprise_auth_server.TwoFactor
use enterprise_auth_server.TwoFactor.{
  TwoFactorStatus, two_factor_status, start_setup, confirm_setup, get_pending_secret,
  provisioning_uri, qr_code_png, qr_code_base64, require_password, verify_totp,
  generate_recovery_codes,
}
use enterprise_auth_server.Routes.Http.{Request, client_ip, verify_csrf}
use enterprise_auth_server.Routes.Access.{get_current_user}

pub record SetupResponse : Type 0 where
  pub provisioning_uri : Text
  pub qr_code_base64 : Text
  pub secret : Text

module _ {Token : Type 0} (env : Env Token) where
  -- `_twofa_rate_limit`: per user, and per address.
  unfoldable pub twofa_rate_limit : Request Token → User → Exec (Unit {0})
  unfolding hit client_ip Uuid.to_text
  twofa_rate_limit request user = do
    hit (text "2fa:" ++ Uuid.to_text user.id) env.settings.two_fa_rate_limit_per_minute 60
    hit (text "2fa-ip:" ++ client_ip request) (env.settings.two_fa_rate_limit_per_minute * 3) 60

  -- `dependencies=[Depends(_twofa_rate_limit), Depends(verify_csrf)]` and `user: CurrentUser`
  unfoldable pub guarded_user : Request Token → Exec User
  unfolding get_current_user twofa_rate_limit verify_csrf
  guarded_user request = do
    user ← get_current_user env request
    twofa_rate_limit request user
    verify_csrf request
    pure user

  -- `status_endpoint`
  unfoldable pub status_endpoint : Request Token → Exec TwoFactorStatus
  unfolding get_current_user two_factor_status
  status_endpoint request = do user ← get_current_user env request; two_factor_status env user

  -- `setup`
  unfoldable pub setup : Request Token → Text → Exec SetupResponse
  unfolding guarded_user start_setup qr_code_base64
  setup request password = do
    user ← guarded_user request
    (secret, uri) ← start_setup env user password
    pure (record {
      provisioning_uri = uri;
      qr_code_base64 = qr_code_base64 env uri;
      secret = secret;
    })

  -- `verify`
  unfoldable pub verify : Request Token → Text → Exec (Unit {0})
  unfolding guarded_user confirm_setup
  verify request otp = do user ← guarded_user request; confirm_setup env user otp

  -- `qrcode`
  unfoldable pub qrcode : Request Token → Exec Text
  unfolding get_current_user get_pending_secret provisioning_uri qr_code_png
  qrcode request = do
    user ← get_current_user env request
    secret ← get_pending_secret env user
    pure (qr_code_png env (provisioning_uri env secret user.email))

  make_codes : Bool → Request Token → Text → Text → Exec (List Text)
  unfolding guarded_user require_password verify_totp generate_recovery_codes
  make_codes replace request password otp = do
    user ← guarded_user request
    require_password env user password
    verify_totp env user otp
    generate_recovery_codes env user replace

  -- `recovery_codes` and `regenerate_recovery_codes`
  unfoldable pub recovery_codes : Request Token → Text → Text → Exec (List Text)
  unfolding make_codes
  recovery_codes = make_codes false

  unfoldable pub regenerate_recovery_codes : Request Token → Text → Text → Exec (List Text)
  unfolding make_codes
  regenerate_recovery_codes = make_codes true

  -- `disable`
  unfoldable pub disable : Request Token → Text → Text → Exec (Unit {0})
  unfolding guarded_user TwoFactor.disable
  disable request password otp = do
    user ← guarded_user request
    TwoFactor.disable env user password otp
