-- ===== src/Oauth/Base.antt =====
-- backend/app/services/oauth/base.py: what every provider has.
use enterprise_auth_server.Common.{
  Bool, true, false, Option, none, some, List, [], ◌∷◌, ◌++◌, Text, if◌then◌else◌,
}
use enterprise_auth_server.Core.External.{Env}
use enterprise_auth_server.Core.Strings.{text}

pub record OauthUserInfo : Type 0 where
  pub provider : Text
  pub account_id : Text
  pub email : Option Text
  pub name : Text
  pub email_verified : Bool

-- The subclasses of OAuthProvider.
pub data Kind : Type 0 where
  google github : Kind

pub record OauthProvider : Type 0 where
  pub kind : Kind
  pub client_id : Text
  pub client_secret : Text

abbrev pub uses_pkce : Kind → Bool
uses_pkce google = true
uses_pkce github = false

abbrev pub name : Kind → Text
name google = text "google"
name github = text "github"

abbrev authorize_endpoint : Kind → Text
authorize_endpoint google = text "https://accounts.google.com/o/oauth2/v2/auth"
authorize_endpoint github = text "https://github.com/login/oauth/authorize"

abbrev scope : Kind → Text
scope google = text "openid email profile"
scope github = text "read:user user:email"

abbrev challenge_params : Bool → Option Text → List (Text × Text)
challenge_params pkce none = []
challenge_params pkce (some challenge) =
    if pkce
    then (text "code_challenge", challenge) ∷ (text "code_challenge_method", text "S256") ∷ []
    else []

-- `authorization_url`
unfoldable pub authorization_url :
    {Token : Type 0} → Env Token → OauthProvider → Text → Text → Option Text → Text
authorization_url env p state redirect_uri code_challenge =
    authorize_endpoint p.kind
    ++ b'?'
      ∷ env.urlencode (
          (text "client_id", p.client_id)
          ∷ (text "redirect_uri", redirect_uri)
          ∷ (text "response_type", text "code")
          ∷ (text "scope", scope p.kind)
          ∷ (text "state", state)
          ∷ challenge_params (uses_pkce p.kind) code_challenge)
