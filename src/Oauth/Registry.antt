-- ===== src/Oauth/Registry.antt =====
-- backend/app/services/oauth/registry.py: the providers that are configured.
use enterprise_auth_server.Common.{
  Bool, true, false, ◌&&◌, Option, none, some, List, [], ◌∷◌, Text, ◌==◌, text_eq, if◌then◌else◌,
  select, is_some,
}
use enterprise_auth_server.Core.Settings.{Settings}
use enterprise_auth_server.Core.Strings.{text}
use enterprise_auth_server.Oauth.Base.{OauthProvider, google, github}

-- A setting that is not empty.
abbrev given : Text → Bool
given [] = false
given (c ∷ s) = true

-- `get_provider`
unfoldable pub get_provider : Settings → Text → Option OauthProvider
get_provider s name =
    if name == text "google" && (given s.google_client_id && given s.google_client_secret)
    then some (record {
      kind = google;
      client_id = s.google_client_id;
      client_secret = s.google_client_secret;
    })
    else if name == text "github" && (given s.github_client_id && given s.github_client_secret)
    then some (record {
      kind = github;
      client_id = s.github_client_id;
      client_secret = s.github_client_secret;
    })
    else none

-- `available_providers`
unfoldable pub available_providers : Settings → List Text
unfolding get_provider select
available_providers s =
    select (λ name. is_some (get_provider s name)) (text "google" ∷ text "github" ∷ [])
