-- ===== src/Sessions/Columns.antt =====
-- The texts of a session that `create_session` of backend/app/services/session.py adds, and the
-- lengths of the columns that backend/migrations gives them.
use enterprise_auth_server.Common.{
  ℕ, ◌≤◌, ◌≡◌, ◌↔◌, subst, Bool, Option, none, some, Text, find, length, arith, ◌==◌,
}
use enterprise_auth_server.Core.External.{Env}
use enterprise_auth_server.Core.Client.{Headers, parse_user_agent, resolve_location}
use enterprise_auth_server.Core.Client.Lengths.{Within, IsShort, parse_user_agent-FitsDevice}
use enterprise_auth_server.Models.{Session, User}
use enterprise_auth_server.Migrations.{Column, ColumnType, string}
use enterprise_auth_server.Migrations.Names.{Name, name_eq}
use enterprise_auth_server.Migrations.AddSessions
use enterprise_auth_server.State.World.{World}
use enterprise_auth_server.State.Exec.{ok}
use enterprise_auth_server.Sessions.{create_session}

abbrev string_length : ColumnType → ℕ
string_length (string n) = n
string_length _ = 0

abbrev length_of : Option Column → ℕ
length_of none = 0
length_of (some c) = string_length c.type

-- The length of a column of the table of sessions, as its revision creates it.
unfoldable pub room : Name → ℕ
unfolding find
room n = length_of (find (λ (c : Column). c.name == n) AddSessions.sessions.columns)

-- Every text of the row has room in its column.
pub record FitsColumns (s : Session) : Type 0 where
  pub refresh_token_id : length s.refresh_token_id ≤ room "refresh_token_id"
  pub device_name : length s.device_name ≤ room "device_name"
  pub device_type : length s.device_type ≤ room "device_type"
  pub browser : length s.browser ≤ room "browser"
  pub browser_version : length s.browser_version ≤ room "browser_version"
  pub operating_system : length s.operating_system ≤ room "operating_system"
  pub operating_system_version : length s.operating_system_version ≤ room "operating_system_version"
  pub user_agent : length s.user_agent ≤ room "user_agent"
  pub ip_address : length s.ip_address ≤ room "ip_address"
  pub country : Within (room "country") s.country
  pub city : Within (room "city") s.city
  pub logout_reason : Within (room "logout_reason") s.logout_reason

-- What a request brings: its address, and the location that its headers hint at.
pub record IsShortClient (ip : Text) (headers : Headers) : Type 0 where
  pub ip_address : length ip ≤ 45
  pub country : Within 64 (resolve_location headers).country
  pub city : Within 128 (resolve_location headers).city

module _ {Token : Type 0} (env : Env Token) (user : User) (u : ℕ) (jti : Text) (remember_me : Bool)
    (ip agent : Text) (headers : Headers) where
  -- The texts of the row.
  record Texts (s : Session) : Type 0 where
    refresh_token_id : s.refresh_token_id ≡ jti
    device_name : s.device_name ≡ (parse_user_agent env agent).device_name
    device_type : s.device_type ≡ (parse_user_agent env agent).device_type
    browser : s.browser ≡ (parse_user_agent env agent).browser
    browser_version : s.browser_version ≡ (parse_user_agent env agent).browser_version
    operating_system : s.operating_system ≡ (parse_user_agent env agent).operating_system
    operating_system_version :
        s.operating_system_version ≡ (parse_user_agent env agent).operating_system_version
    user_agent : s.user_agent ≡ (parse_user_agent env agent).user_agent
    ip_address : s.ip_address ≡ ip
    country : s.country ≡ (resolve_location headers).country
    city : s.city ≡ (resolve_location headers).city
    logout_reason : s.logout_reason ≡ none

  create_session-Texts :
      (s : Session) (is_new : Bool) (w v : World)
      → create_session env user u jti remember_me ip agent headers w ≡ (ok (s, is_new), v)
      → Texts s
  unfolding create_session
  create_session-Texts s is_new w v h = record {
    refresh_token_id = ground arith;
    device_name = ground arith;
    device_type = ground arith;
    browser = ground arith;
    browser_version = ground arith;
    operating_system = ground arith;
    operating_system_version = ground arith;
    user_agent = ground arith;
    ip_address = ground arith;
    country = ground arith;
    city = ground arith;
    logout_reason = ground arith;
  }

  fits_columns :
      (s : Session)
      → Texts s
      → IsShort (env.parse_user_agent agent)
      → length jti ≤ 64
      → IsShortClient ip headers
      → FitsColumns s
  unfolding room
  fits_columns s t a j c =
      let d = parse_user_agent-FitsDevice env agent a in
      record {
        refresh_token_id = rw t.refresh_token_id j;
        device_name = rw t.device_name d.device_name;
        device_type = rw t.device_type d.device_type;
        browser = rw t.browser d.browser;
        browser_version = rw t.browser_version d.browser_version;
        operating_system = rw t.operating_system d.operating_system;
        operating_system_version = rw t.operating_system_version d.operating_system_version;
        user_agent = rw t.user_agent d.user_agent;
        ip_address = rw t.ip_address c.ip_address;
        country = rw t.country c.country;
        city = rw t.city c.city;
        logout_reason = rw t.logout_reason tt;
      }

  short_client : (s : Session) → Texts s → FitsColumns s → IsShortClient ip headers
  unfolding room
  short_client s t f = record {
    ip_address = subst (λ (x : Text). length x ≤ 45) t.ip_address f.ip_address;
    country = subst (Within 64) t.country f.country;
    city = subst (Within 128) t.city f.city;
  }

  -- A session that was created, for a user agent whose parts have room in their columns and with a
  -- token id that has, fits the columns of its table exactly when the address and the hinted country
  -- and city fit theirs; the raw user agent always does, since it is cut.
  pub create_session-FitsColumns :
      (s : Session) (is_new : Bool) (w v : World)
      → create_session env user u jti remember_me ip agent headers w ≡ (ok (s, is_new), v)
      → IsShort (env.parse_user_agent agent)
      → length jti ≤ 64
      → FitsColumns s ↔ IsShortClient ip headers
  create_session-FitsColumns s is_new w v h a j =
      let t = create_session-Texts s is_new w v h in (short_client s t, fits_columns s t a j)
