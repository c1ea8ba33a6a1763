-- ===== src/Routes/EmailRoutes.antt =====
-- backend/app/api/v1/email.py.
use enterprise_auth_server.Common.{◌++◌, Text}
use enterprise_auth_server.Core.External.{Env}
use enterprise_auth_server.Core.Strings.{text}
use enterprise_auth_server.State.Exec.{Exec, ◌>>=◌, ◌>>◌, pure}
use enterprise_auth_server.RateLimit.{hit}
use enterprise_auth_server.EmailAccounts
use enterprise_auth_server.EmailAccounts.{request_password_reset, request_email_change}
use enterprise_auth_server.Routes.Http.{Request, client_ip, verify_csrf}
use enterprise_auth_server.Routes.Access.{get_current_user}

module _ {Token : Type 0} (env : Env Token) where
  -- `_email_rate_limit`
  unfoldable pub email_rate_limit : Request Token → Exec (Unit {0})
  unfolding hit client_ip
  email_rate_limit request =
      hit (text "email:" ++ client_ip request) env.settings.auth_rate_limit_per_minute 60

  -- `verify_email`
  unfoldable pub verify_email : Text → Exec (Unit {0})
  unfolding EmailAccounts.verify_email
  verify_email token = do EmailAccounts.verify_email env token; pure tt

  -- `resend_verification`
  unfoldable pub resend_verification : Request Token → Exec (Unit {0})
  unfolding verify_csrf get_current_user EmailAccounts.resend_verification
  resend_verification request = do
    verify_csrf request
    user ← get_current_user env request
    EmailAccounts.resend_verification env user

  -- `forgot_password`
  unfoldable pub forgot_password : Request Token → Text → Exec (Unit {0})
  unfolding email_rate_limit request_password_reset
  forgot_password request email = do email_rate_limit request; request_password_reset env email

  -- `reset_password`
  unfoldable pub reset_password : Request Token → Text → Text → Exec (Unit {0})
  unfolding email_rate_limit EmailAccounts.reset_password
  reset_password request token new_password = do
    email_rate_limit request
    EmailAccounts.reset_password env token new_password
    pure tt

  -- `change_email`
  unfoldable pub change_email : Request Token → Text → Text → Exec (Unit {0})
  unfolding verify_csrf get_current_user request_email_change
  change_email request new_email password = do
    verify_csrf request
    user ← get_current_user env request
    request_email_change env user new_email password

  -- `confirm_email_change`
  unfoldable pub confirm_email_change : Text → Exec (Unit {0})
  unfolding EmailAccounts.confirm_email_change
  confirm_email_change token = do EmailAccounts.confirm_email_change env token; pure tt
