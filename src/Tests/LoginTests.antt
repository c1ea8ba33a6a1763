-- ===== src/Tests/LoginTests.antt =====
-- Instances of the theorems on the login routes and on the authentication of requests.
use enterprise_auth_server.Common.{
  ◌≡◌, refl, arith, find, true, false, none, some, List, [], ◌∷◌, Text, text_beq,
}
use enterprise_auth_server.Core.Claims.{Claims, pre_auth}
use enterprise_auth_server.Core.Client.{parse_user_agent}
use enterprise_auth_server.Core.Settings.{defaults-IsUsable}
use enterprise_auth_server.Core.Strings.{text}
use enterprise_auth_server.Models.{Session, TwoFactorAuth}
use enterprise_auth_server.Core.Uuid
use enterprise_auth_server.State.World.{World}
use enterprise_auth_server.State.Exec.{Result, ok}
use enterprise_auth_server.Tokens.{issue_pair, verify_pre_auth}
use enterprise_auth_server.RateLimit.{hit}
use enterprise_auth_server.Accounts.{authenticate}
use enterprise_auth_server.Sessions.{create_session, expiry}
use enterprise_auth_server.TwoFactor.{is_enabled, verify_totp}
use enterprise_auth_server.Users
use enterprise_auth_server.Routes.Http.{Request, Cookie, client_ip}
use enterprise_auth_server.Routes.Access.{AuthContext, get_auth_context}
use enterprise_auth_server.Routes.Access.Gate.{Admitted, get_auth_context-Admitted}
use enterprise_auth_server.Routes.Login.{
  LoginResponse, authenticated, login, login_otp, load_user_for_otp, auth_rate_limit,
  finalize_login,
}
use enterprise_auth_server.Routes.Login.SecondFactor.{login_without_challenge}
use enterprise_auth_server.Routes.Login.OneTimeCode.{IsNamed, HasCode, login_otp_needs_code}
use enterprise_auth_server.Routes.Login.Finalization.{sent_token}
use enterprise_auth_server.Routes.Login.SignIn.{get_auth_context-finalize_login}
use enterprise_auth_server.Tests.Fixtures.{request, authorized, env, env_jwt, user, session, start}

abbrev csrf_of : Result (LoginResponse Claims) → Text
csrf_of (ok (authenticated u csrf cookies)) = csrf
csrf_of _ = []

abbrev cookies_of : Result (LoginResponse Claims) → List (Cookie Claims)
cookies_of (ok (authenticated u csrf cookies)) = cookies
cookies_of _ = []

abbrev response : Result (LoginResponse Claims)
response = (login env request (text "ann@example.com") (text "secret") false start).0

abbrev signed_in : World
signed_in = (login env request (text "ann@example.com") (text "secret") false start).1

login_without_challenge_example : (is_enabled env user start).0 ≡ ok false
unfolding login auth_rate_limit hit client_ip authenticate is_enabled finalize_login issue_pair
    create_session parse_user_agent text_beq
login_without_challenge_example =
    login_without_challenge env request (text "ann@example.com") (text "secret") false user
      (csrf_of response) (cookies_of response) start signed_in refl refl

abbrev context : AuthContext
context = record {
  user = user;
  session = some (record session { last_activity_at = 100000000; request_count = 1 });
}

get_auth_context-Admitted_example : Admitted env authorized user start
unfolding get_auth_context text_beq Uuid.to_text
get_auth_context-Admitted_example =
    get_auth_context-Admitted env authorized context start (get_auth_context env authorized start).1
      refl

abbrev finalized : Result (LoginResponse Claims)
finalized = (finalize_login env request user false start).0

abbrev after_login : World
after_login = (finalize_login env request user false start).1

-- The request that the browser sends next.
abbrev following : Request Claims
following = record request { access_cookie = sent_token (cookies_of finalized) }

get_auth_context-finalize_login_example :
    (s : Session) × (s.session_uuid ≡ 50)
    × ((get_auth_context env following after_login).0
        ≡ ok (record { user = user; session = some s }))
unfolding finalize_login expiry issue_pair create_session text_beq parse_user_agent find
get_auth_context-finalize_login_example =
    get_auth_context-finalize_login env env_jwt defaults-IsUsable (omega arith) request following
      user user false (csrf_of finalized) (cookies_of finalized) start after_login refl refl refl
      refl refl (omega arith) (omega arith) refl (omega arith)

-- Ann has a second factor, and her password was accepted.
abbrev factor : TwoFactorAuth
factor = record {
  id = 5;
  user_id = 7;
  encrypted_secret = text "totp";
  enabled = true;
  verified_at = none;
}

abbrev half_way : World
half_way = record start { db = record start.db { two_factor = factor ∷ [] } }

abbrev pre_auth_token : Claims
pre_auth_token = record {
  sub = some (Uuid.to_text 7);
  type = some pre_auth;
  jti = none;
  iat = some 0;
  exp = some 1000000000;
  remember_me = none;
  sid = none;
}

abbrev with_code : Result (LoginResponse Claims)
with_code = (login_otp env request pre_auth_token (text "123456") false half_way).0

login_otp_needs_code_example :
    IsNamed env pre_auth_token user half_way.now half_way.db
    × HasCode env (text "123456") user half_way.now half_way.db
unfolding login_otp auth_rate_limit hit client_ip verify_pre_auth load_user_for_otp Users.get
    verify_totp finalize_login issue_pair create_session parse_user_agent text_beq find Uuid.to_text
    Uuid.parse
login_otp_needs_code_example =
    login_otp_needs_code env request pre_auth_token (text "123456") false user (csrf_of with_code)
      (cookies_of with_code) half_way
      (login_otp env request pre_auth_token (text "123456") false half_way).1 refl
