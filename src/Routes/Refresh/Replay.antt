-- ===== src/Routes/Refresh/Replay.antt =====
-- A replayed refresh token ends its session.
use enterprise_auth_server.Common.{
  ℕ, ◌≡◌, ◌≢◌, sym, ap, subst, ◌∙◌, true, some, List, Text, find, arith, ◌==◌, nat_eq, non_empty,
}
use enterprise_auth_server.Core.Errors.{auth_error, token_replay}
use enterprise_auth_server.Core.Claims.{Claims, refresh}
use enterprise_auth_server.Core.External.{Env}
use enterprise_auth_server.Core.Settings.{IsUsable}
use enterprise_auth_server.Core.Strings.{text}
use enterprise_auth_server.Core.Uuid
use enterprise_auth_server.Models.{Session}
use enterprise_auth_server.State.Redis.{Value, revoked_jti, peek}
use enterprise_auth_server.State.World.{World}
use enterprise_auth_server.State.Exec.{ok, err}
use enterprise_auth_server.State.UnitOfWork.{run_request, run_request-err, rolled_back}
use enterprise_auth_server.State.Keeps.{Both}
use enterprise_auth_server.Tokens.{decode_token, rotate}
use enterprise_auth_server.Sessions.{revoke, revoke_by_sid, validate_and_touch}
use enterprise_auth_server.Sessions.Ended.{HasEnded}
use enterprise_auth_server.Sessions.History.{
  revoke-ends, Event, history, history-HasEnded, validate-HasEnded,
}
use enterprise_auth_server.Routes.Http.{Request}
use enterprise_auth_server.Routes.Refresh.{handle_refresh_replay, refresh_tokens}

module _ {Token : Type 0} (env : Env Token) where
  -- The cookie holds a refresh token that has been rotated, bound to an active session.
  pub record IsReplay (request : Request Token) (u : ℕ) (s : Session) (w : World) : Type 0 where
    pub token : Token
    pub payload : Claims
    pub jti : Text
    pub mark : Value
    pub presented : request.refresh_cookie ≡ some token
    pub decoded : decode_token env token refresh w ≡ some payload
    pub has_jti : payload.jti ≡ some jti
    pub blacklisted : peek w.now w.redis (revoked_jti jti) ≡ some mark
    pub sid : Text
    pub bound : non_empty payload.sid ≡ some sid
    pub is_uuid : Uuid.parse sid ≡ some u
    pub found : find (λ t. t.session_uuid == u) w.db.sessions ≡ some s
    pub active : s.is_active ≡ true

  rotate-IsReplay :
      {request : Request Token} {u : ℕ} {s : Session} (w : World) (r : IsReplay request u s w)
      → w.redis.up ≡ true
      → rotate env r.token w ≡ (err token_replay, w)
  unfolding rotate
  rotate-IsReplay w r up = ground (arith, r.decoded, r.has_jti, r.blacklisted)

  revoke_succeeds :
      (s : Session) (reason : Text) (w : World)
      → w.redis.up ≡ true
      → IsUsable env.settings
      → (revoke env s reason w).0 ≡ ok tt
  unfolding revoke
  revoke_succeeds s reason w up usable =
      ground (arith, usable.refresh_days_pos, usable.absolute_pos)

  family_revoked :
      {request : Request Token} {u : ℕ} {s : Session} (w : World) (r : IsReplay request u s w)
      → w.redis.up ≡ true
      → IsUsable env.settings
      → let x = (revoke env s (text "refresh_replay") w).1 in
        handle_refresh_replay env r.token w ≡ (ok tt, record x { committed = x.db })
  unfolding handle_refresh_replay revoke_by_sid
  family_revoked {s = s} w r up usable = ground (
    arith,
    r.decoded,
    r.bound,
    r.is_uuid,
    r.found,
    r.active,
    revoke_succeeds s (text "refresh_replay") w up usable,
  )

  replay_result :
      {request : Request Token} {u : ℕ} {s : Session} (w : World) (r : IsReplay request u s w)
      → w.redis.up ≡ true
      → IsUsable env.settings
      → let x = (revoke env s (text "refresh_replay") w).1 in
        refresh_tokens env request w
        ≡ (err (auth_error "Refresh token reuse detected."), record x { committed = x.db })
  unfolding refresh_tokens
  replay_result w r up usable =
      rw r.presented (simp (rotate-IsReplay w r up) (rw (family_revoked w r up usable)))

  -- With Redis up at the request and usable settings, a refresh request with a token that was already
  -- rotated, and that Redis still lists as revoked, is refused, and, although the request is rolled
  -- back, the active session that the token was bound to has ended for good: its committed row is
  -- inactive, and no later history of session requests makes it valid again for any user.
  pub replay_ends_session :
      {request : Request Token} {u : ℕ} {s : Session} (w : World) (es : List Event) (user_id : ℕ)
      (t : Session) (r : IsReplay request u s w)
      → w.redis.up ≡ true
      → IsUsable env.settings
      → let (result, v) = run_request (refresh_tokens env request) w in
        (result ≡ err (auth_error "Refresh token reuse detected."))
        × HasEnded u v.committed
        × ((validate_and_touch env u user_id (history env es v)).0 ≢ ok t)
  replay_ends_session {request} {u} {s} w es user_id t r up usable =
      let m = refresh_tokens env request in
      let e = replay_result w r up usable in
      let refused : (m w).0 ≡ err (auth_error "Refresh token reuse detected.") = ap (λ p. p.0) e in
      let kept : (m w).1.committed ≡ (revoke env s (text "refresh_replay") w).1.db =
        ap (λ p. p.1.committed) e in
      let c = rolled_back m w _ refused in
      let d = revoke-ends env u (text "refresh_replay") s w r.found in
      let b : Both (HasEnded u) (run_request m w).1 = record {
        open_db = subst (HasEnded u) (sym (c.0 ∙ kept)) d;
        committed_db = subst (HasEnded u) (sym (c.1 ∙ kept)) d;
      } in
      (
        run_request-err m w _ refused,
        b.committed_db,
        validate-HasEnded env user_id (history env es _) t (history-HasEnded env es _ b).open_db,
      )
