-- ===== src/Sessions/Validation.antt =====
-- What `validate_and_touch` accepts.
use enterprise_auth_server.Common.{
  ℕ, ◌+◌, ◌<◌, ◌≤◌, ◌≡◌, true, none, some, find, update, arith, if◌then◌else◌, ◌==◌, nat_eq,
  is_some, nat_beq_iff, ◌≢◌, inl, inr, Option-cases,
}
use enterprise_auth_server.Core.Units.{minutes, seconds}
use enterprise_auth_server.Core.Settings.{IsUsable}
use enterprise_auth_server.Core.External.{Env}
use enterprise_auth_server.Models.{Session}
use enterprise_auth_server.State.Redis.{session_revoked, session_touch, peek}
use enterprise_auth_server.State.World.{World, wait}
use enterprise_auth_server.State.Exec.{ok}
use enterprise_auth_server.Sessions.{touched, touch, validate_and_touch}

module _ {Token : Type 0} (env : Env Token) where
  -- The session may be used by the user at the time of the clock.
  pub record IsLive (u user_id : ℕ) (s : Session) (w : World) : Type 0 where
    pub found : find (λ t. t.session_uuid == u) w.db.sessions ≡ some s
    pub not_flagged : peek w.now w.redis (session_revoked u) ≡ none
    pub owner : s.user_id ≡ user_id
    pub active : s.is_active ≡ true
    pub not_expired : w.now < s.expires_at
    pub not_idle : w.now ≤ s.last_activity_at + minutes env.settings.session_idle_timeout_minutes

  row_is_found :
      (u user_id : ℕ) (t : Session) (w v : World)
      → validate_and_touch env u user_id w ≡ (ok t, v)
      → find (λ t. t.session_uuid == u) w.db.sessions ≢ none
  unfolding validate_and_touch
  row_is_found u user_id t w v h f = ground arith

  row-IsLive :
      (u user_id : ℕ) (s t : Session) (w v : World)
      → validate_and_touch env u user_id w ≡ (ok t, v)
      → find (λ t. t.session_uuid == u) w.db.sessions ≡ some s
      → IsLive u user_id s w
  unfolding validate_and_touch
  row-IsLive u user_id s t w v h f = record {
    found = f;
    not_flagged = ground arith;
    owner = ground (arith, nat_beq_iff s.user_id user_id);
    active = ground arith;
    not_expired = ground arith;
    not_idle = ground arith;
  }

  -- A session is accepted only if it is in the table, belongs to the user, is active, not flagged as
  -- revoked in Redis, before its expiry and within the idle timeout.
  pub validate_sound :
      (u user_id : ℕ) (t : Session) (w v : World)
      → validate_and_touch env u user_id w ≡ (ok t, v)
      → (s : Session) × IsLive u user_id s w
  validate_sound u user_id t w v h =
      elim (Option-cases (find (λ t. t.session_uuid == u) w.db.sessions)) [
        | inl e ↦ absurd (row_is_found u user_id t w v h e)
        | inr (s, e) ↦ (s, row-IsLive u user_id s t w v h e)
      ]

  -- The session is accepted, and its row alone is touched, unless that was done within the throttle
  -- interval.
  pub record Accepted (u user_id : ℕ) (s : Session) (w : World) : Type 0 where
    pub result :
        (validate_and_touch env u user_id w).0
        ≡ ok (
            if is_some (peek w.now w.redis (session_touch s.session_uuid))
            then s
            else touched w.now s)
    pub tables : (validate_and_touch env u user_id w).1.db ≡ (
        if is_some (peek w.now w.redis (session_touch s.session_uuid))
        then w.db
        else record w.db { sessions = update (λ t. t.id == s.id) (touched w.now) w.db.sessions })

  pub validate_complete :
      (u user_id : ℕ) (s : Session) (w : World)
      → w.redis.up ≡ true
      → IsUsable env.settings
      → IsLive u user_id s w
      → Accepted u user_id s w
  unfolding validate_and_touch
  validate_complete u user_id s w up usable l = record {
    result = ground (
      arith,
      l.found,
      l.not_flagged,
      l.owner,
      l.active,
      l.not_expired,
      l.not_idle,
      nat_beq_iff s.user_id user_id,
      usable.throttle_pos,
      usable.idle_pos,
    );
    tables = ground (
      arith,
      l.found,
      l.not_flagged,
      l.owner,
      l.active,
      l.not_expired,
      l.not_idle,
      nat_beq_iff s.user_id user_id,
      usable.throttle_pos,
      usable.idle_pos,
    );
  }

  -- Once a touch has recorded activity, further touches of the session within the throttle interval
  -- change neither the tables nor Redis.
  pub touch_is_throttled :
      (s s' t : Session) (now later d : ℕ) (w v : World)
      → peek w.now w.redis (session_touch s.session_uuid) ≡ none
      → touch env s now w ≡ (ok s', v)
      → t.session_uuid ≡ s.session_uuid
      → d < seconds env.settings.session_activity_throttle_seconds
      → touch env t later (wait d v) ≡ (ok t, wait d v)
  unfolding touch
  touch_is_throttled s s' t now later d w v p h e q =
      ground (
        arith,
        nat_beq_iff s.session_uuid t.session_uuid,
        nat_beq_iff s.session_uuid s.session_uuid,
      )
