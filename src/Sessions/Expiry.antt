-- ===== src/Sessions/Expiry.antt =====
-- Expiry is written for good, though the request that notices it fails.
use enterprise_auth_server.Common.{
  ℕ, ◌≤◌, ◌≡◌, ◌≢◌, sym, subst, ◌∙◌, true, none, some, List, find, arith, ◌==◌, nat_eq, nat_beq_iff,
}
use enterprise_auth_server.Core.Errors.{auth_error}
use enterprise_auth_server.Core.Settings.{IsUsable}
use enterprise_auth_server.Core.External.{Env}
use enterprise_auth_server.Core.Strings.{text}
use enterprise_auth_server.Models.{Session}
use enterprise_auth_server.State.Redis.{session_revoked, peek}
use enterprise_auth_server.State.World.{World}
use enterprise_auth_server.State.Exec.{ok, err}
use enterprise_auth_server.State.UnitOfWork.{run_request, rolled_back}
use enterprise_auth_server.State.Keeps.{Both}
use enterprise_auth_server.Sessions.{ended, validate_and_touch}
use enterprise_auth_server.Sessions.Repository.{save}
use enterprise_auth_server.Sessions.Ended.{HasEnded}
use enterprise_auth_server.Sessions.History.{
  save-ends, Event, history, validate-HasEnded, history-HasEnded,
}

module _ {Token : Type 0} (env : Env Token) where
  -- An active session of the user, not flagged as revoked.
  pub record IsOpen (u user_id : ℕ) (s : Session) (w : World) : Type 0 where
    pub found : find (λ t. t.session_uuid == u) w.db.sessions ≡ some s
    pub not_flagged : peek w.now w.redis (session_revoked u) ≡ none
    pub owner : s.user_id ≡ user_id
    pub active : s.is_active ≡ true

  expiry_result :
      (u user_id : ℕ) (s : Session) (w : World)
      → w.redis.up ≡ true
      → IsUsable env.settings
      → IsOpen u user_id s w
      → s.expires_at ≤ w.now
      → ((validate_and_touch env u user_id w).0 ≡ err (auth_error "Session has expired."))
        × ((validate_and_touch env u user_id w).1.committed
            ≡ (save s.id (ended (text "absolute_expiry") w.now) w).1.db)
  unfolding validate_and_touch
  expiry_result u user_id s w up usable o h = (
    ground (
      arith,
      o.found,
      o.not_flagged,
      o.owner,
      o.active,
      nat_beq_iff s.user_id user_id,
      usable.absolute_pos,
    ),
    ground (
      arith,
      o.found,
      o.not_flagged,
      o.owner,
      o.active,
      nat_beq_iff s.user_id user_id,
      usable.absolute_pos,
    ),
  )

  settled_expiry :
      (u user_id : ℕ) (s : Session) (w : World)
      → w.redis.up ≡ true
      → IsUsable env.settings
      → IsOpen u user_id s w
      → s.expires_at ≤ w.now
      → Both (HasEnded u) (run_request (validate_and_touch env u user_id) w).1
  settled_expiry u user_id s w up usable o h =
      let r = expiry_result u user_id s w up usable o h in
      let d = save-ends env u (text "absolute_expiry") w.now s w o.found in
      let c =
        rolled_back (validate_and_touch env u user_id) w (auth_error "Session has expired.") r.0 in
      record {
        open_db = subst (HasEnded u) (sym (c.0 ∙ r.1)) d;
        committed_db = subst (HasEnded u) (sym (c.1 ∙ r.1)) d;
      }

  -- With Redis up at the request and usable settings, the first request of the owner that uses an
  -- active session, not flagged as revoked in Redis, after its absolute expiry fails and is rolled
  -- back, and still the session has ended for good: the committed row is inactive, and no later
  -- history of session requests makes it valid again.
  pub expiry_is_durable :
      (u user_id : ℕ) (s : Session) (w : World) (es : List Event) (other : ℕ) (t : Session)
      → w.redis.up ≡ true
      → IsUsable env.settings
      → IsOpen u user_id s w
      → s.expires_at ≤ w.now
      → let v = (run_request (validate_and_touch env u user_id) w).1 in
        ((validate_and_touch env u user_id w).0 ≡ err (auth_error "Session has expired."))
        × HasEnded u v.committed
        × ((validate_and_touch env u other (history env es v)).0 ≢ ok t)
  expiry_is_durable u user_id s w es other t up usable o h =
      let b = settled_expiry u user_id s w up usable o h in
      (
        (expiry_result u user_id s w up usable o h).0,
        b.committed_db,
        validate-HasEnded env other (history env es _) t (history-HasEnded env es _ b).open_db,
      )
