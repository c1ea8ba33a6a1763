-- ===== src/Routes/UserRoutes.antt =====
-- backend/app/api/v1/users.py, and `register` and `me` of backend/app/api/v1/auth.py.
pub mod Listing
use enterprise_auth_server.Common.{ℕ, false, Option, none, some, Text, map}
use enterprise_auth_server.Core.External.{Env}
use enterprise_auth_server.Core.Strings.{text}
use enterprise_auth_server.Models.{Session}
use enterprise_auth_server.State.Exec.{Exec, ◌>>=◌, ◌>>◌, pure}
use enterprise_auth_server.Accounts
use enterprise_auth_server.EmailAccounts.{send_signup_emails}
use enterprise_auth_server.Sessions.Queries.{previous_login}
use enterprise_auth_server.Users.{require_permission, list_all, count_all}
use enterprise_auth_server.Routes.Http.{Request}
use enterprise_auth_server.Routes.Access.{get_current_user}
use enterprise_auth_server.Routes.Login.{LoginResponse, auth_rate_limit, finalize_login}
use enterprise_auth_server.Routes.Schemas.{Page, UserRead, LastLoginRead, from_model}
use enterprise_auth_server.Routes.SessionRoutes.{check_page, user_and_session}

abbrev last_of : Option Session → LastLoginRead
last_of none = record {
  previous_login_at = none;
  previous_login_ip = none;
  previous_device = none;
  previous_browser = none;
}
last_of (some s) = record {
  previous_login_at = some s.login_at;
  previous_login_ip = some s.ip_address;
  previous_device = some s.device_name;
  previous_browser = some s.browser;
}

module _ {Token : Type 0} (env : Env Token) where
  -- `register`
  unfoldable pub register : Request Token → Text → Text → Text → Exec (LoginResponse Token)
  unfolding auth_rate_limit Accounts.register finalize_login send_signup_emails
  register request email password full_name = do
    auth_rate_limit env request
    user ← Accounts.register env email password full_name
    result ← finalize_login env request user false
    send_signup_emails env user
    pure result

  -- `me`, and `read_me`
  unfoldable pub me : Request Token → Exec UserRead
  unfolding get_current_user from_model
  me request = do user ← get_current_user env request; pure (from_model user)

  -- `last_login`
  unfoldable pub last_login : Request Token → Exec LastLoginRead
  unfolding user_and_session previous_login
  last_login request = do
    (user, current) ← user_and_session env request
    prev ← previous_login user (some current)
    pure (last_of prev)

  -- `list_users`
  unfoldable pub list_users : Request Token → ℕ → ℕ → Exec (Page UserRead)
  unfolding get_current_user require_permission check_page list_all count_all from_model
  list_users request limit offset = do
    user ← get_current_user env request
    require_permission (text "manage_users") user
    check_page limit
    users ← list_all (some limit) offset
    total ← count_all
    pure (record { items = map from_model users; total = total; limit = limit; offset = offset })
