-- ===== src/Tests/OauthTests.antt =====
-- Instances of the theorems on signing in by an OAuth provider.
use enterprise_auth_server.Common.{◌≡◌, refl, none, Text, arith, text_beq, text_eq}
use enterprise_auth_server.Core.Claims.{Claims}
use enterprise_auth_server.Core.Errors.{auth_error}
use enterprise_auth_server.Core.Settings.{defaults}
use enterprise_auth_server.Core.External.{Env}
use enterprise_auth_server.Core.Strings.{text}
use enterprise_auth_server.State.World.{World}
use enterprise_auth_server.State.Exec.{err}
use enterprise_auth_server.Oauth.{pop_state, start_authorization, handle_callback, login_mode}
use enterprise_auth_server.Oauth.Handshake.{pop_state_is_single_use}
use enterprise_auth_server.Oauth.Linking.{Called, handle_callback-Called}
use enterprise_auth_server.Tests.Fixtures.{env, user, start}

-- Google is configured.
abbrev with_google : Env Claims
with_google = record env {
  settings = record defaults { google_client_id = text "id"; google_client_secret = text "secret" };
}

abbrev google_name : Text
google_name = text "google"

-- Somebody has been sent to Google.
abbrev waiting : World
waiting = (start_authorization with_google google_name login_mode none start).1

abbrev state : Text
state = with_google.new_secret start.drawn

pop_state_is_single_use_example :
    pop_state with_google state google_name (pop_state with_google state (text "github") waiting).1
    ≡ (
      err (auth_error "Invalid or expired OAuth state."),
      (pop_state with_google state (text "github") waiting).1,
    )
unfolding pop_state start_authorization text_beq
pop_state_is_single_use_example =
    pop_state_is_single_use with_google state (text "github") google_name waiting
      (pop_state with_google state (text "github") waiting).1 refl refl (ground arith) refl

handle_callback-Called_example :
    Called with_google google_name
      (text "code")
      state
      user
      login_mode
      waiting
      (handle_callback with_google google_name (text "code") state waiting).1
unfolding handle_callback start_authorization text_beq
handle_callback-Called_example =
    handle_callback-Called with_google google_name (text "code") state user login_mode waiting
      (handle_callback with_google google_name (text "code") state waiting).1 refl
