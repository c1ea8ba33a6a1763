-- ===== src/Routes/SessionRoutes.antt =====
-- backend/app/api/v1/sessions.py: listing, reading and ending sessions.
use enterprise_auth_server.Common.{ℕ, not, ◌&&◌, none, some, List, leb, map}
use enterprise_auth_server.Core.Errors.{auth_error, validation_error}
use enterprise_auth_server.Core.External.{Env}
use enterprise_auth_server.Core.Strings.{text}
use enterprise_auth_server.Models.{User, Session}
use enterprise_auth_server.State.Exec.{Exec, ◌>>=◌, ◌>>◌, pure, or_raise, raise_if}
use enterprise_auth_server.Sessions.{revoke, revoke_by_uuid, revoke_all}
use enterprise_auth_server.Sessions.Queries.{list_active, count_active, get_owned}
use enterprise_auth_server.Routes.Http.{Request, Cookie, clear_auth_cookies, verify_csrf}
use enterprise_auth_server.Routes.Access.{get_auth_context}
use enterprise_auth_server.Routes.Schemas.{Page, SessionRead, to_read}

-- `limit: int = Query(50, ge=1, le=200)` and `offset: int = Query(0, ge=0)`
unfoldable pub check_page : ℕ → Exec (Unit {0})
check_page limit =
    raise_if (not (leb 1 limit && leb limit 200)) (validation_error "Request validation failed.")

module _ {Token : Type 0} (env : Env Token) where
  -- `CurrentUser` with `CurrentSession`: both stand on one `get_auth_context` of the request.
  unfoldable pub user_and_session : Request Token → Exec (User × Session)
  unfolding get_auth_context
  user_and_session request = do
    ctx ← get_auth_context env request
    current ← or_raise (auth_error "No active session for this token.") ctx.session
    pure (ctx.user, current)

  -- `list_sessions`
  unfoldable pub list_sessions : Request Token → ℕ → ℕ → Exec (Page SessionRead)
  unfolding user_and_session check_page list_active count_active to_read
  list_sessions request limit offset = do
    (user, current) ← user_and_session request
    check_page limit
    records ← list_active user (some limit) offset
    total ← count_active user
    pure (record {
      items = map (to_read current.session_uuid) records;
      total = total;
      limit = limit;
      offset = offset;
    })

  -- `get_session`
  unfoldable pub get_session : Request Token → ℕ → Exec SessionRead
  unfolding user_and_session get_owned to_read
  get_session request session_id = do
    (user, current) ← user_and_session request
    s ← get_owned user session_id
    pure (to_read current.session_uuid s)

  -- `logout_current`
  unfoldable pub logout_current : Request Token → Exec (List (Cookie Token))
  unfolding verify_csrf user_and_session revoke
  logout_current request = do
    verify_csrf request
    (user, current) ← user_and_session request
    revoke env current (text "logout")
    pure clear_auth_cookies

  -- `logout_all`: the number of revoked sessions, and the cookies
  unfoldable pub logout_all : Request Token → Exec (ℕ × List (Cookie Token))
  unfolding verify_csrf user_and_session revoke_all
  logout_all request = do
    verify_csrf request
    (user, current) ← user_and_session request
    count ← revoke_all env user (text "logout_all") none
    pure (count, clear_auth_cookies)

  -- `revoke_session`
  unfoldable pub revoke_session : Request Token → ℕ → Exec (Unit {0})
  unfolding verify_csrf user_and_session revoke_by_uuid
  revoke_session request session_id = do
    verify_csrf request
    (user, current) ← user_and_session request
    revoke_by_uuid env user session_id (text "revoked_by_user")
    pure tt
