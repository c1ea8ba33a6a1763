-- ===== src/Routes/Access.antt =====
-- backend/app/dependencies/auth.py: who makes the request.
pub mod Gate
pub mod Admission
use enterprise_auth_server.Common.{ℕ, not, Option, none, some, Text, non_empty}
use enterprise_auth_server.Core.Errors.{auth_error, value_error}
use enterprise_auth_server.Core.External.{Env}
use enterprise_auth_server.Core.Uuid
use enterprise_auth_server.Models.{User, Session}
use enterprise_auth_server.State.Exec.{Exec, ◌>>=◌, ◌>>◌, pure, or_raise, raise_if}
use enterprise_auth_server.Tokens.{verify_access}
use enterprise_auth_server.Sessions.{validate_and_touch}
use enterprise_auth_server.Users
use enterprise_auth_server.Routes.Http.{Request}

pub record AuthContext : Type 0 where
  pub user : User
  pub session : Option Session

-- `uuid.UUID(payload["sub"])`: a missing claim is caught like a bad one.
unfoldable pub subject : Option Text → Option ℕ
unfolding Uuid.parse
subject none = none
subject (some sub) = Uuid.parse sub

module _ {Token : Type 0} (env : Env Token) where
  bound_session : Option Text → ℕ → Exec (Option Session)
  unfolding Uuid.parse validate_and_touch
  bound_session none user_id = pure none
  bound_session (some sid) user_id = do
    session_uuid ← or_raise value_error (Uuid.parse sid)
    session ← validate_and_touch env session_uuid user_id
    pure (some session)

  -- `get_auth_context`
  unfoldable pub get_auth_context : Request Token → Exec AuthContext
  unfolding verify_access subject Users.get bound_session
  get_auth_context request = do
    token ← or_raise (auth_error "Not authenticated.") request.access_cookie
    payload ← verify_access env token
    user_id ← or_raise (auth_error "Invalid token subject.") (subject payload.sub)
    found ← Users.get user_id
    user ← or_raise (auth_error "User no longer exists.") found
    raise_if (not user.is_active) (auth_error "This account is disabled.")
    session ← bound_session (non_empty payload.sid) user.id
    pure (record { user = user; session = session })

  -- `get_current_user`
  unfoldable pub get_current_user : Request Token → Exec User
  unfolding get_auth_context
  get_current_user request = do ctx ← get_auth_context request; pure ctx.user

  -- `get_current_session`
  unfoldable pub get_current_session : Request Token → Exec Session
  unfolding get_auth_context
  get_current_session request = do
    ctx ← get_auth_context request
    or_raise (auth_error "No active session for this token.") ctx.session
