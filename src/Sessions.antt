-- ===== src/Sessions.antt =====
-- backend/app/services/session.py: creating, validating, touching and revoking sessions.
pub mod Repository
pub mod Queries
pub mod Pages
pub mod Stable
pub mod Ended
pub mod History
pub mod Machine
pub mod Columns
pub mod Validation
pub mod Expiry
pub mod LogoutAll
pub mod Creation
pub mod Rebinding
use enterprise_auth_server.Common.{
  ℕ, zero, suc, ◌+◌, ◌*◌, Bool, true, false, not, ◌&&◌, ◌||◌, Option, none, some, List, [], ◌∷◌,
  Text, min, ltb, leb, ◌==◌, nat_eq, if◌then◌else◌, select,
}
use enterprise_auth_server.Core.Errors.{auth_error, not_found}
use enterprise_auth_server.Core.Units.{minutes, hours, days}
use enterprise_auth_server.Core.External.{Env}
use enterprise_auth_server.Core.Strings.{text}
use enterprise_auth_server.Core.Client.{Headers, parse_user_agent, resolve_location}
use enterprise_auth_server.Core.Uuid
use enterprise_auth_server.Models.{Session, User}
use enterprise_auth_server.State.Redis.{session_revoked, session_touch, session_active, number}
use enterprise_auth_server.State.World.{World}
use enterprise_auth_server.State.Exec.{
  Exec, ◌>>=◌, ◌>>◌, pure, raise, gets, or_raise, raise_if, when, draw,
}
use enterprise_auth_server.State.Commands.{exists, set, delete}
use enterprise_auth_server.State.UnitOfWork.{commit}
use enterprise_auth_server.Tokens.{revoke_jti}
use Repository.{
  get_by_uuid, add, save, list_for_user, list_active_for_user, count_active_for_user,
  has_any_for_user, has_matching_device,
}

-- The row of a session that has ended.
abbrev pub ended : Text → ℕ → Session → Session
ended reason now s = record s {
  is_active = false;
  logout_at = some now;
  logout_reason = some reason;
}

abbrev pub touched : ℕ → Session → Session
touched now s = record s { last_activity_at = now; request_count = s.request_count + 1 }

abbrev pub rebound : Text → ℕ → Session → Session
rebound jti now s = record s { refresh_token_id = jti; last_activity_at = now }

abbrev pub require_valid : ℕ → Option Session → Exec Session
require_valid user_id none = raise (auth_error "Session is no longer valid.")
require_valid user_id (some s) =
    if not (s.user_id == user_id) || not s.is_active
    then raise (auth_error "Session is no longer valid.")
    else pure s

abbrev pub require_owned : ℕ → Option Session → Exec Session
require_owned user_id none = raise (not_found "Session not found.")
require_owned user_id (some s) =
    if s.user_id == user_id then pure s else raise (not_found "Session not found.")

abbrev pub require_rebindable : ℕ → Option Session → Exec Session
require_rebindable user_id none = raise (auth_error "Session is no longer valid.")
require_rebindable user_id (some s) =
    if not s.is_active || not (s.user_id == user_id)
    then raise (auth_error "Session is no longer valid.")
    else pure s

-- `except_uuid is not None and record.session_uuid == except_uuid`
abbrev pub is_excepted : Option ℕ → Session → Bool
is_excepted none s = false
is_excepted (some u) s = s.session_uuid == u

module _ {Token : Type 0} (env : Env Token) where
  -- `SessionService._expiry`
  unfoldable pub expiry : Bool → ℕ → ℕ
  expiry remember_me now =
      now
      + min
          (days (
            if remember_me
            then env.settings.refresh_token_remember_me_days
            else env.settings.refresh_token_expire_days))
          (hours env.settings.session_absolute_expire_hours)

  -- `SessionService._set_active`
  unfoldable pub set_active : ℕ → Exec (Unit {0})
  unfolding set
  set_active session_uuid =
      set (session_active session_uuid) (number 1) (env.settings.session_idle_timeout_minutes * 60)

  -- `SessionService._clear_cache` with `revoke=True`, as every caller has it
  unfoldable pub clear_cache : ℕ → Exec (Unit {0})
  unfolding set delete
  clear_cache session_uuid = do
    delete (session_active session_uuid)
    delete (session_touch session_uuid)
    set (session_revoked session_uuid) (number 1)
        (env.settings.session_absolute_expire_hours * 3600)

  -- `SessionService.create_session`: the session, and whether its device is new.
  unfoldable pub create_session :
      User → ℕ → Text → Bool → Text → Text → Headers → Exec (Session × Bool)
  unfolding expiry set_active add has_any_for_user has_matching_device draw
  create_session user session_uuid refresh_jti remember_me ip user_agent headers = do
    let device = parse_user_agent env user_agent
    let geo = resolve_location headers
    now ← gets (λ w. w.now)
    has_any ← gets (λ w. has_any_for_user user.id w.db)
    matching ← gets (λ w.
        has_matching_device user.id device.browser device.operating_system device.device_type w.db)
    n ← draw
    let session : Session = record {
      id = env.new_uuid n;
      user_id = user.id;
      session_uuid = session_uuid;
      refresh_token_id = refresh_jti;
      device_name = device.device_name;
      device_type = device.device_type;
      browser = device.browser;
      browser_version = device.browser_version;
      operating_system = device.operating_system;
      operating_system_version = device.operating_system_version;
      user_agent = device.user_agent;
      ip_address = ip;
      country = geo.country;
      city = geo.city;
      login_at = now;
      last_activity_at = now;
      logout_at = none;
      expires_at = expiry remember_me now;
      logout_reason = none;
      is_active = true;
      request_count = 0;
    }
    add session
    set_active session_uuid
    pure (session, has_any && not matching)

  -- `SessionService._touch`: at most one write in each throttle interval.
  unfoldable pub touch : Session → ℕ → Exec Session
  unfolding exists set set_active save
  touch session now = do
    throttled ← exists (session_touch session.session_uuid)
    if throttled then pure session else do
      save session.id (touched now)
      set (session_touch session.session_uuid) (number 1)
          env.settings.session_activity_throttle_seconds
      set_active session.session_uuid
      pure (touched now session)

  -- `SessionService._expire`: committed at once, since the caller raises.
  unfoldable pub expire_session : Session → Text → Exec (Unit {0})
  unfolding save commit clear_cache
  expire_session session reason = do
    now ← gets (λ w. w.now)
    save session.id (ended reason now)
    commit
    clear_cache session.session_uuid

  check_lifetime : Session → ℕ → Exec Session
  unfolding touch expire_session
  check_lifetime session now =
      if leb session.expires_at now
      then (do
        expire_session session (text "absolute_expiry")
        raise (auth_error "Session has expired."))
      else if ltb (session.last_activity_at + minutes env.settings.session_idle_timeout_minutes) now
      then (do
        expire_session session (text "idle_timeout")
        raise (auth_error "Session expired due to inactivity."))
      else touch session now

  -- `SessionService.validate_and_touch`
  unfoldable pub validate_and_touch : ℕ → ℕ → Exec Session
  unfolding exists get_by_uuid check_lifetime
  validate_and_touch session_uuid user_id = do
    revoked ← exists (session_revoked session_uuid)
    raise_if revoked (auth_error "Session has been revoked.")
    found ← get_by_uuid session_uuid
    session ← require_valid user_id found
    now ← gets (λ w. w.now)
    check_lifetime session now

  -- `SessionService.revoke`
  unfoldable pub revoke : Session → Text → Exec (Unit {0})
  unfolding save revoke_jti clear_cache
  revoke session reason = do
    now ← gets (λ w. w.now)
    save session.id (ended reason now)
    revoke_jti env session.refresh_token_id none
    clear_cache session.session_uuid

  -- `SessionService.revoke_by_uuid`
  unfoldable pub revoke_by_uuid : User → ℕ → Text → Exec Session
  unfolding get_by_uuid revoke
  revoke_by_uuid user session_uuid reason = do
    found ← get_by_uuid session_uuid
    session ← require_owned user.id found
    now ← gets (λ w. w.now)
    if session.is_active
        then (do revoke session reason; pure (ended reason now session))
        else pure session

  revoke_found : Text → Option Session → Exec (Option Session)
  unfolding revoke
  revoke_found reason none = pure none
  revoke_found reason (some s) =
      if s.is_active
      then (do now ← gets (λ w. w.now); revoke s reason; pure (some (ended reason now s)))
      else pure none

  revoke_parsed : Text → Option ℕ → Exec (Option Session)
  unfolding get_by_uuid revoke_found
  revoke_parsed reason none = pure none
  revoke_parsed reason (some session_uuid) = do
    found ← get_by_uuid session_uuid
    revoke_found reason found

  -- `SessionService.revoke_by_sid`: a text that is no UUID finds nothing.
  unfoldable pub revoke_by_sid : Text → Text → Exec (Option Session)
  unfolding revoke_parsed
  revoke_by_sid sid reason = revoke_parsed reason (Uuid.parse sid)

  -- The loop of `revoke_all`, with the count so far.
  unfoldable pub revoke_each : List Session → Text → Option ℕ → ℕ → Exec ℕ
  revoke_each [] reason except_uuid count = pure count
  revoke_each (s ∷ ss) reason except_uuid count =
      let skip = revoke_each ss reason except_uuid count in
      let revoke_it = revoke s reason >> revoke_each ss reason except_uuid (count + 1) in
      if is_excepted except_uuid s then skip else revoke_it

  -- `SessionService.revoke_all`
  unfoldable pub revoke_all : User → Text → Option ℕ → Exec ℕ
  unfolding list_active_for_user
  revoke_all user reason except_uuid = do
    sessions ← gets (λ w. list_active_for_user user.id none 0 w.db)
    revoke_each sessions reason except_uuid 0

  -- `SessionService.rebind_refresh`
  unfoldable pub rebind_refresh : ℕ → ℕ → Text → Exec (Unit {0})
  unfolding get_by_uuid save set_active
  rebind_refresh user_id session_uuid new_refresh_jti = do
    found ← get_by_uuid session_uuid
    session ← require_rebindable user_id found
    now ← gets (λ w. w.now)
    save session.id (rebound new_refresh_jti now)
    set_active session_uuid
