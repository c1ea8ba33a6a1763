-- ===== src/Routes/Refresh.antt =====
-- `refresh` and `logout` of backend/app/api/v1/auth.py.
pub mod Replay
use enterprise_auth_server.Common.{
  ℕ, Bool, true, false, Option, none, some, List, [], Text, if◌then◌else◌, non_empty,
}
use enterprise_auth_server.Core.Errors.{
  Error, auth_error, token_replay, value_error, is_auth_error, message,
}
use enterprise_auth_server.Core.Claims.{Claims, refresh}
use enterprise_auth_server.Core.External.{Env}
use enterprise_auth_server.Core.Strings.{text}
use enterprise_auth_server.Core.Uuid
use enterprise_auth_server.Models.{User, Session}
use enterprise_auth_server.State.World.{World}
use enterprise_auth_server.State.Exec.{
  Exec, Result, ok, err, ◌>>=◌, ◌>>◌, pure, raise, gets, or_raise, raise_if, when, draw,
}
use enterprise_auth_server.State.UnitOfWork.{commit}
use enterprise_auth_server.Tokens
use enterprise_auth_server.Tokens.{Rotation, decode_token, verify_refresh, rotate}
use enterprise_auth_server.Sessions.{
  revoke, revoke_by_uuid, revoke_by_sid, revoke_all, rebind_refresh,
}
use enterprise_auth_server.Sessions.Repository.{get_by_uuid}
use enterprise_auth_server.Routes.Http.{
  Request, Cookie, set_auth_cookies, clear_auth_cookies, verify_csrf,
}
use enterprise_auth_server.Routes.Access.{get_current_user, get_current_session}

module _ {Token : Type 0} (env : Env Token) where
  abbrev commit_found : Option Session → Exec (Unit {0})
  commit_found none = pure tt
  commit_found (some s) = commit

  revoke_family : Option Text → Exec (Unit {0})
  unfolding commit
  revoke_family none = pure tt
  revoke_family (some sid) = do
    found ← revoke_by_sid env sid (text "refresh_replay")
    commit_found found

  replayed : Option Claims → Exec (Unit {0})
  unfolding revoke_family
  replayed none = pure tt
  replayed (some payload) = revoke_family (non_empty payload.sid)

  -- `_handle_refresh_replay`: the family revocation is committed before the route raises.
  unfoldable pub handle_refresh_replay : Token → Exec (Unit {0})
  unfolding replayed
  handle_refresh_replay token = do decoded ← gets (decode_token env token refresh); replayed decoded

  -- `except TokenReplayError as exc: ...; raise AuthError(str(exc))`
  on_replay : Token → Result (Rotation Token) × World → Result (Rotation Token) × World
  unfolding handle_refresh_replay
  on_replay token (ok r, w) = (ok r, w)
  on_replay token (err token_replay, w) =
      (handle_refresh_replay token >> raise (auth_error "Refresh token reuse detected.")) w
  on_replay token (err e, w) = (err e, w)

  rebind : Text → Option Text → Text → Exec (Unit {0})
  rebind user_id none jti = pure tt
  rebind user_id (some sid) jti = do
    user_uuid ← or_raise value_error (Uuid.parse user_id)
    session_uuid ← or_raise value_error (Uuid.parse sid)
    rebind_refresh env user_uuid session_uuid jti

  -- `refresh`: the cookies of the response
  unfoldable pub refresh_tokens : Request Token → Exec (List (Cookie Token))
  unfolding on_replay rebind draw
  refresh_tokens request = do
    token ← or_raise (auth_error "Missing refresh token.") request.refresh_cookie
    r ← (λ w. on_replay token (rotate env token w))
    rebind r.user_id (non_empty r.session_id) r.refresh_jti
    n ← draw
    pure (set_auth_cookies env r.pair (env.new_secret n))

  revoke_active : Option Session → Exec (Unit {0})
  unfolding revoke
  revoke_active none = pure tt
  revoke_active (some s) = when s.is_active (revoke env s (text "logout"))

  end_session : Option Text → Exec (Unit {0})
  unfolding revoke_active
  end_session none = pure tt
  end_session (some sid) = do
    session_uuid ← or_raise value_error (Uuid.parse sid)
    found ← get_by_uuid session_uuid
    revoke_active found

  -- `except AuthError: pass`
  abbrev pub ignore_auth_error : Result (Unit {0}) × World → Result (Unit {0}) × World
  ignore_auth_error (ok a, w) = (ok a, w)
  ignore_auth_error (err e, w) = if is_auth_error e then (ok tt, w) else (err e, w)

  logout_token : Option Token → Exec (Unit {0})
  unfolding end_session is_auth_error
  logout_token none = pure tt
  logout_token (some token) = λ w. ignore_auth_error (
      (do
        payload ← verify_refresh env token
        Tokens.revoke payload
        end_session (non_empty payload.sid))
        w)

  -- `logout`
  unfoldable pub logout : Request Token → Exec (List (Cookie Token))
  unfolding logout_token
  logout request = do
    verify_csrf request
    logout_token request.refresh_cookie
    pure clear_auth_cookies
