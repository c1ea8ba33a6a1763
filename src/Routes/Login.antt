-- ===== src/Routes/Login.antt =====
-- The login routes of backend/app/api/v1/auth.py, and backend/app/api/v1/_login.py.
pub mod SecondFactor
pub mod Finalization
pub mod SignIn
pub mod OneTimeCode
use enterprise_auth_server.Common.{
  Bool, not, Option, none, some, List, [], ◌∷◌, ◌++◌, Text, if◌then◌else◌,
}
use enterprise_auth_server.Core.Errors.{auth_error}
use enterprise_auth_server.Core.External.{Env}
use enterprise_auth_server.Core.Client.{header}
use enterprise_auth_server.Core.Strings.{text}
use enterprise_auth_server.Core.Uuid
use enterprise_auth_server.Models.{User}
use enterprise_auth_server.State.World.{Mail, new_device_alert}
use enterprise_auth_server.State.Exec.{
  Exec, ◌>>=◌, ◌>>◌, pure, or_raise, raise_if, when, draw, modify,
}
use enterprise_auth_server.State.Background.{add_task}
use enterprise_auth_server.RateLimit.{hit}
use enterprise_auth_server.Tokens.{issue_pair, issue_pre_auth, verify_pre_auth}
use enterprise_auth_server.Sessions.{create_session}
use enterprise_auth_server.Accounts.{authenticate}
use enterprise_auth_server.TwoFactor.{is_enabled, verify_totp, consume_recovery_code}
use enterprise_auth_server.Users
use enterprise_auth_server.Routes.Http.{Request, Cookie, set_auth_cookies, client_ip}

-- `AuthResponse` with the cookies of its response, or `LoginChallengeResponse`.
pub data LoginResponse (Token : Type 0) : Type 0 where
  authenticated : User → Text → List (Cookie Token) → LoginResponse Token
  challenge : Token → LoginResponse Token

abbrev agent_of : Option Text → Text
agent_of none = []
agent_of (some agent) = agent

module _ {Token : Type 0} (env : Env Token) where
  -- `_auth_rate_limit`
  unfoldable pub auth_rate_limit : Request Token → Exec (Unit {0})
  auth_rate_limit request =
      hit (text "auth:" ++ client_ip request) env.settings.auth_rate_limit_per_minute 60

  -- `_finalize_login`
  unfoldable pub finalize_login : Request Token → User → Bool → Exec (LoginResponse Token)
  unfolding draw add_task
  finalize_login request user remember_me = do
    n ← draw
    let session_uuid = env.new_uuid n
    (pair, refresh_jti) ←
        issue_pair env (Uuid.to_text user.id) remember_me (some (Uuid.to_text session_uuid))
    (session, is_new_device) ←
        create_session env user session_uuid refresh_jti remember_me (client_ip request)
          (agent_of (header (text "user-agent") request.headers)) request.headers
    when is_new_device (
        add_task
          (new_device_alert user.email session.device_name session.browser session.ip_address))
    m ← draw
    let csrf = env.new_secret m
    pure (authenticated user csrf (set_auth_cookies env pair csrf))

  -- `login`
  unfoldable pub login : Request Token → Text → Text → Bool → Exec (LoginResponse Token)
  login request email password remember_me = do
    auth_rate_limit request
    user ← authenticate env email password (some (client_ip request))
    enabled ← is_enabled env user
    if enabled
        then (do token ← issue_pre_auth env (Uuid.to_text user.id); pure (challenge token))
        else finalize_login request user remember_me

  -- `_load_user_for_otp`
  unfoldable pub load_user_for_otp : Text → Exec User
  load_user_for_otp user_id = do
    id ← or_raise (auth_error "Invalid pre-authentication token.") (Uuid.parse user_id)
    found ← Users.get id
    user ← or_raise (auth_error "Account is unavailable.") found
    raise_if (not user.is_active) (auth_error "Account is unavailable.")
    pure user

  -- `login_otp`
  unfoldable pub login_otp : Request Token → Token → Text → Bool → Exec (LoginResponse Token)
  login_otp request pre_auth_token otp remember_me = do
    auth_rate_limit request
    user_id ← verify_pre_auth env pre_auth_token
    user ← load_user_for_otp user_id
    verify_totp env user otp
    finalize_login request user remember_me

  -- `login_recovery_code`
  unfoldable pub login_recovery_code :
      Request Token → Token → Text → Bool → Exec (LoginResponse Token)
  login_recovery_code request pre_auth_token code remember_me = do
    auth_rate_limit request
    user_id ← verify_pre_auth env pre_auth_token
    user ← load_user_for_otp user_id
    consume_recovery_code env user code
    finalize_login request user remember_me
