-- ===== src/Tests/Fixtures.antt =====
-- A concrete environment, in which a token is its claims and a hash its password, and a small
-- database.
use enterprise_auth_server.Common.{
  ℕ, true, false, Option, none, some, [], ◌∷◌, arith, leb, ltb, text_beq, if◌then◌else◌,
}
use enterprise_auth_server.Core.Units.{seconds}
use enterprise_auth_server.Core.Json.{Json, object, field, done, string, number, boolean}
use enterprise_auth_server.Core.Claims.{Claims, TokenType}
use enterprise_auth_server.Core.Settings.{defaults}
use enterprise_auth_server.Core.External.{Env, UserAgent, JwtRoundTrip}
use enterprise_auth_server.Core.Strings.{text}
use enterprise_auth_server.Core.Uuid
use enterprise_auth_server.Models.{User, Session, Database}
use enterprise_auth_server.Routes.Http.{Request}
use enterprise_auth_server.State.Redis.{Redis}
use enterprise_auth_server.State.World.{World}

abbrev unexpired : ℕ → Option ℕ → Claims → Option Claims
unexpired now none c = some c
unexpired now (some e) c = if leb (seconds e) now then none else some c

abbrev mature : ℕ → Option ℕ → Option Claims → Option Claims
mature now none r = r
mature now (some i) r = if ltb now (seconds i) then none else r

abbrev agent : UserAgent
agent = record {
  is_bot = false;
  is_tablet = false;
  is_mobile = false;
  is_pc = true;
  os_family = some (text "Linux");
  os_version = [];
  device_family = some (text "Other");
  browser_family = some (text "Firefox");
  browser_version = text "120";
}

-- What the OAuth provider answers.
abbrev token_answer : Json
token_answer = object (field (text "access_token") (string (text "at")) done)

abbrev profile : Json
profile = object (
    field (text "sub") (number (text "99")) (
      field (text "email") (string (text "ann@example.com"))
        (field (text "email_verified") (boolean true) done)))

abbrev pub env : Env Claims
env = record {
  settings = defaults;
  new_uuid = λ n. n;
  new_secret = λ n. n ∷ [];
  hash = λ p n. p;
  verify = λ p h. text_beq p h;
  needs_update = λ h. false;
  jwt_encode = λ c. c;
  jwt_decode = λ now c. mature now c.iat (unexpired now c.exp c);
  totp_verify = λ secret otp window now. text_beq otp (text "123456");
  fernet_encrypt = λ p n. p;
  fernet_decrypt = λ c. some c;
  sha256_hex = λ t. t;
  parse_user_agent = λ t. agent;
  sha256_base64url = λ t. t;
  urlencode = λ fs. [];
  http_post = λ n url form headers. some (record { status = 200; json = some token_answer });
  http_get = λ n url headers. some (record { status = 200; json = some profile });
  totp_uri = λ secret name issuer. secret;
  qr_png = λ t. t;
  base64 = λ t. t;
}

pub env_jwt : JwtRoundTrip env
env_jwt now iat exp c i h = ground (arith, i, h)

abbrev pub user : User
user = record {
  id = 7;
  email = text "ann@example.com";
  hashed_password = text "secret";
  full_name = text "Ann";
  is_active = true;
  is_verified = true;
  is_superuser = false;
  roles = [];
}

abbrev pub session : Session
session = record {
  id = 40;
  user_id = 7;
  session_uuid = 41;
  refresh_token_id = text "r1";
  device_name = [];
  device_type = [];
  browser = [];
  browser_version = [];
  operating_system = [];
  operating_system_version = [];
  user_agent = [];
  ip_address = [];
  country = none;
  city = none;
  login_at = 0;
  last_activity_at = 90000000;
  logout_at = none;
  expires_at = 5000000000;
  logout_reason = none;
  is_active = true;
  request_count = 0;
}

abbrev pub tables : Database
tables = record {
  users = user ∷ [];
  sessions = session ∷ [];
  two_factor = [];
  backup_codes = [];
  email_tokens = [];
  oauth_accounts = [];
  roles = [];
  permissions = [];
}

abbrev pub no_keys : Redis
no_keys = record { up = true; store = λ k. none }

-- 100 seconds after the start of the clock
abbrev pub start : World
start = record {
  now = 100000000;
  redis = no_keys;
  db = tables;
  committed = tables;
  drawn = 50;
  background = [];
}

-- A refresh token of the session, issued for a week.
abbrev pub refresh_token : Claims
refresh_token = record {
  sub = some (Uuid.to_text 7);
  type = some TokenType.refresh;
  jti = some (text "r1");
  iat = some 0;
  exp = some 604800;
  remember_me = some false;
  sid = some (Uuid.to_text 41);
}

abbrev pub request : Request Claims
request = record {
  access_cookie = none;
  refresh_cookie = none;
  csrf_cookie = none;
  headers = [];
  host = some (text "10.0.0.1");
}

-- A token of the session, and the request that shows it.
abbrev access_token : Claims
access_token = record {
  sub = some (Uuid.to_text 7);
  type = some TokenType.access;
  jti = some (text "a1");
  iat = some 0;
  exp = some 900;
  remember_me = none;
  sid = some (Uuid.to_text 41);
}

abbrev pub authorized : Request Claims
authorized = record request { access_cookie = some access_token }
