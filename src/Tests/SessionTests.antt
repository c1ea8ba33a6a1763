-- ===== src/Tests/SessionTests.antt =====
-- Instances of the theorems on services/session.py.
use enterprise_auth_server.Common.{
  ◌≡◌, ◌≢◌, ◌↔◌, refl, true, false, none, some, List, [], ◌∷◌, All, arith, text_beq, find,
}
use enterprise_auth_server.Core.Claims.{Claims}
use enterprise_auth_server.Core.Errors.{auth_error}
use enterprise_auth_server.Core.Settings.{defaults-IsUsable}
use enterprise_auth_server.Core.Strings.{text}
use enterprise_auth_server.Core.Client.{DeviceInfo, parse_user_agent, resolve_location}
use enterprise_auth_server.Core.Uuid
use enterprise_auth_server.Core.Uuid.RoundTrip.{parse-to_text}
use enterprise_auth_server.Tokens.{decode_token}
use enterprise_auth_server.Models.{Session}
use enterprise_auth_server.State.Redis.{revoked_jti, number, write}
use enterprise_auth_server.State.World.{World, wait}
use enterprise_auth_server.State.Exec.{ok, err}
use enterprise_auth_server.State.UnitOfWork.{run_request}
use enterprise_auth_server.Sessions.{
  touched, validate_and_touch, touch, revoke_by_uuid, revoke_each, revoke_all, create_session,
  expiry,
}
use enterprise_auth_server.Sessions.Ended.{HasEnded}
use enterprise_auth_server.Sessions.History.{
  Event, waits, redis_becomes, revokes_all, history, revoked_for_good,
}
use enterprise_auth_server.Sessions.Machine.{Reach, status, history-refines}
use enterprise_auth_server.Sessions.Validation.{IsLive, validate_sound}
use enterprise_auth_server.Sessions.Expiry.{IsOpen, expiry_is_durable}
use enterprise_auth_server.Sessions.LogoutAll.{Kept, revoke_all-Kept}
use enterprise_auth_server.Core.Client.Lengths.{IsShort}
use enterprise_auth_server.Sessions.Columns.{FitsColumns, IsShortClient, create_session-FitsColumns}
use enterprise_auth_server.Routes.Http.{Request}
use enterprise_auth_server.Routes.Refresh.{refresh_tokens}
use enterprise_auth_server.Routes.Refresh.Replay.{IsReplay, replay_ends_session}
use enterprise_auth_server.Tests.Fixtures.{env, user, session, start, no_keys, refresh_token}

-- An hour later Redis has lost its keys, and another request comes.
abbrev events : List Event
events = waits 3600000000 ∷ redis_becomes no_keys ∷ revokes_all user (text "x") none ∷ []

abbrev revoked : World
revoked = (run_request (revoke_by_uuid env user 41 (text "logout")) start).1

revoked_for_good_example : (validate_and_touch env 41 7 (history env events revoked)).0 ≢ ok session
unfolding run_request revoke_by_uuid find
revoked_for_good_example =
    revoked_for_good env user 41 (text "logout") start revoked _ session events 7 refl

validate_sound_example : (s : Session) × IsLive env 41 7 s start
unfolding validate_and_touch find
validate_sound_example =
    validate_sound env 41 7 (touched 100000000 session) start (validate_and_touch env 41 7 start).1
      refl

abbrev after_touch : World
after_touch = (touch env session 100000000 start).1

-- The session's absolute expiry has come.
abbrev expired : World
expired = wait 5000000000 start

expired-IsOpen : IsOpen env 41 7 session expired
unfolding find
expired-IsOpen = record { found = refl; not_flagged = refl; owner = refl; active = refl }

expiry_is_durable_example :
    let v = (run_request (validate_and_touch env 41 7) expired).1 in
    ((validate_and_touch env 41 7 expired).0 ≡ err (auth_error "Session has expired."))
    × HasEnded 41 v.committed
    × ((validate_and_touch env 41 7 (history env events v)).0 ≢ ok session)
expiry_is_durable_example =
    expiry_is_durable env 41 7 session expired events 7 session refl defaults-IsUsable
      expired-IsOpen (omega arith)

abbrev logged_out : World
logged_out = (revoke_all env user (text "logout_all") none start).1

revoke_all-Kept_example : All (Kept 7 none) logged_out.db.sessions
unfolding revoke_all revoke_each revoke_by_uuid find
revoke_all-Kept_example = revoke_all-Kept env user none (text "logout_all") 1 start logged_out refl

abbrev created : World
created = (create_session env user 60 (text "r2") false [] [] [] start).1

abbrev idle : World
idle = wait 4000000000 start

-- The token was rotated before: its jti is on the blacklist.
abbrev blacklisted : World
blacklisted = record start {
  redis =
      write no_keys (revoked_jti (text "r1")) (some (record { value = number 1; expires = none }));
}

abbrev request : Request Claims
request = record {
  access_cookie = none;
  refresh_cookie = some refresh_token;
  csrf_cookie = none;
  headers = [];
  host = none;
}

request-IsReplay : IsReplay env request 41 session blacklisted
unfolding decode_token find text_beq Uuid.to_text
request-IsReplay = record {
  token = refresh_token;
  payload = refresh_token;
  jti = text "r1";
  mark = number 1;
  presented = refl;
  decoded = refl;
  has_jti = refl;
  blacklisted = refl;
  sid = Uuid.to_text 41;
  bound = refl;
  is_uuid = parse-to_text 41 (omega arith);
  found = refl;
  active = refl;
}

replay_ends_session_example :
    let (result, v) = run_request (refresh_tokens env request) blacklisted in
    (result ≡ err (auth_error "Refresh token reuse detected."))
    × HasEnded 41 v.committed
    × ((validate_and_touch env 41 7 (history env events v)).0 ≢ ok session)
replay_ends_session_example =
    replay_ends_session env blacklisted events 7 session request-IsReplay refl defaults-IsUsable

-- The device and the location of a request without headers.
abbrev device : DeviceInfo
device = parse_user_agent env []

abbrev new_session : Session
new_session = record session {
  id = 50;
  session_uuid = 60;
  refresh_token_id = text "r2";
  device_name = device.device_name;
  device_type = device.device_type;
  browser = device.browser;
  browser_version = device.browser_version;
  operating_system = device.operating_system;
  operating_system_version = device.operating_system_version;
  login_at = 100000000;
  last_activity_at = 100000000;
  expires_at = expiry env false 100000000;
}

agent-IsShort : IsShort (env.parse_user_agent [])
agent-IsShort = omega arith

create_session-FitsColumns_example : FitsColumns new_session ↔ IsShortClient [] []
unfolding create_session resolve_location parse_user_agent text_beq
create_session-FitsColumns_example =
    create_session-FitsColumns env user 60 (text "r2") false [] [] [] new_session true start created
      refl agent-IsShort (omega arith)

history-refines_example :
    Reach (status 41 start.db) (status 41 (history env events start).committed)
history-refines_example = history-refines env events 41 start refl
