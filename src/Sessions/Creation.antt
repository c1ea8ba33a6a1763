-- ===== src/Sessions/Creation.antt =====
-- The session that `create_session` returns.
use enterprise_auth_server.Common.{
  ℕ, ◌+◌, ◌≤◌, ◌<◌, ◌≡◌, Bool, true, false, none, [], ◌∷◌, ◌++◌, Text, any, find-append_last, arith,
  ◌==◌, nat_eq, nat_beq_iff,
}
use enterprise_auth_server.Core.Units.{hours}
use enterprise_auth_server.Core.External.{Env}
use enterprise_auth_server.Core.Client.{Headers}
use enterprise_auth_server.Models.{Session, User}
use enterprise_auth_server.State.Redis.{session_revoked, peek}
use enterprise_auth_server.State.World.{World}
use enterprise_auth_server.State.Exec.{ok}
use enterprise_auth_server.Sessions.{create_session, expiry}
use enterprise_auth_server.Sessions.Validation.{IsLive}

module _ {Token : Type 0} (env : Env Token) (user : User) (u : ℕ) (jti : Text) (remember_me : Bool)
    (ip agent : Text) (headers : Headers) where
  record Created (s : Session) (w v : World) : Type 0 where
    appended : v.db.sessions ≡ w.db.sessions ++ s ∷ []
    fresh : any (λ t. t.session_uuid == u) w.db.sessions ≡ false
    uuid : s.session_uuid ≡ u
    owner : s.user_id ≡ user.id
    active : s.is_active ≡ true
    activity : s.last_activity_at ≡ w.now
    expires : s.expires_at ≡ expiry env remember_me w.now
    same_now : v.now ≡ w.now
    not_flagged :
        peek w.now w.redis (session_revoked u) ≡ none
        → peek v.now v.redis (session_revoked u) ≡ none

  create_session-Created :
      (s : Session) (is_new : Bool) (w v : World)
      → create_session env user u jti remember_me ip agent headers w ≡ (ok (s, is_new), v)
      → Created s w v
  unfolding create_session
  create_session-Created s is_new w v h = record {
    appended = ground arith;
    fresh = ground arith;
    uuid = ground arith;
    owner = ground arith;
    active = ground arith;
    activity = ground arith;
    expires = ground arith;
    same_now = ground arith;
    not_flagged = λ f. ground arith;
  }

  -- With positive lifetimes, a session that was created under a UUID not flagged as revoked may be
  -- used by its user at once, and it expires no later than the absolute limit from its creation.
  pub created_session-IsLive :
      (s : Session) (is_new : Bool) (w v : World)
      → create_session env user u jti remember_me ip agent headers w ≡ (ok (s, is_new), v)
      → peek w.now w.redis (session_revoked u) ≡ none
      → w.now < expiry env remember_me w.now
      → IsLive env u user.id s v
        × (s.expires_at ≤ w.now + hours env.settings.session_absolute_expire_hours)
  unfolding expiry
  created_session-IsLive s is_new w v h f p =
      let c = create_session-Created s is_new w v h in
      (
        record {
          found = rw c.appended (
              find-append_last (λ t. t.session_uuid == u) w.db.sessions s c.fresh
                (ground (arith, c.uuid, nat_beq_iff s.session_uuid u)));
          not_flagged = c.not_flagged f;
          owner = c.owner;
          active = c.active;
          not_expired = omega (arith, c.same_now, c.expires);
          not_idle = omega (arith, c.same_now, c.activity);
        },
        omega (arith, c.expires),
      )
