-- ===== src/Routes/OauthRoutes.antt =====
-- backend/app/api/v1/oauth.py.
use enterprise_auth_server.Common.{false, none, some, List, Text, ◌==◌, text_eq, if◌then◌else◌}
use enterprise_auth_server.Core.External.{Env}
use enterprise_auth_server.Core.Settings.{Settings}
use enterprise_auth_server.Core.Uuid
use enterprise_auth_server.Models.{User, OauthAccount}
use enterprise_auth_server.State.Exec.{Exec, ◌>>=◌, pure}
use enterprise_auth_server.Oauth
use enterprise_auth_server.Oauth.{login_mode, link_mode, start_authorization, handle_callback}
use enterprise_auth_server.Oauth.Registry.{available_providers}
use enterprise_auth_server.Routes.Http.{Request}
use enterprise_auth_server.Routes.Access.{get_current_user}
use enterprise_auth_server.Routes.Login.{LoginResponse, finalize_login}

-- `AuthResponse | Message`
pub data CallbackResponse (Token : Type 0) : Type 0 where
  signed_in : LoginResponse Token → CallbackResponse Token
  linked : CallbackResponse Token

-- `list_providers`
unfoldable pub list_providers : Settings → List Text
unfolding available_providers
list_providers = available_providers

module _ {Token : Type 0} (env : Env Token) where
  -- `list_links`
  unfoldable pub list_links : Request Token → Exec (List OauthAccount)
  unfolding get_current_user Oauth.list_links
  list_links request = do user ← get_current_user env request; Oauth.list_links user

  -- `authorize`: where the browser is sent
  unfoldable pub authorize : Text → Exec Text
  unfolding start_authorization
  authorize provider = start_authorization env provider login_mode none

  -- `link`
  unfoldable pub link : Request Token → Text → Exec Text
  unfolding get_current_user start_authorization Uuid.to_text
  link request provider = do
    user ← get_current_user env request
    start_authorization env provider link_mode (some (Uuid.to_text user.id))

  -- What follows `handle_callback`.
  unfoldable pub finish : Request Token → User → Text → Exec (CallbackResponse Token)
  unfolding finalize_login
  finish request user mode =
      if mode == link_mode
      then pure linked
      else (do r ← finalize_login env request user false; pure (signed_in r))

  -- `callback`
  unfoldable pub callback : Request Token → Text → Text → Text → Exec (CallbackResponse Token)
  unfolding handle_callback finish
  callback request provider code state = do
    (user, mode) ← handle_callback env provider code state
    finish request user mode
