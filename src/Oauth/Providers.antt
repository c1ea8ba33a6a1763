-- ===== src/Oauth/Providers.antt =====
-- backend/app/services/oauth/providers.py: the requests to Google and GitHub, and what is read from
-- their answers. An access token is a text, an email and a name are texts or null, and an account's
-- id is no array or object, as the providers document.
pub mod Tables
use enterprise_auth_server.Common.{
  ℕ, Bool, true, false, not, ◌||◌, Option, none, some, List, [], ◌∷◌, ◌++◌, Text, ◌==◌, nat_eq,
  if◌then◌else◌, non_empty, is_some,
}
use enterprise_auth_server.Core.Errors.{
  auth_error, key_error, value_error, attribute_error, http_error,
}
use enterprise_auth_server.Core.External.{Env, HttpResponse}
use enterprise_auth_server.Core.Json.{
  Json, null, object, array, Fields, Items, end, item, get_field, truthy, as_text, to_text,
}
use enterprise_auth_server.Core.Strings.{text}
use enterprise_auth_server.State.Exec.{Exec, ◌>>=◌, ◌>>◌, pure, raise, or_raise, raise_if, draw}
use enterprise_auth_server.Oauth.Base.{OauthUserInfo, OauthProvider, Kind, google, github, name}

abbrev as_fields : Json → Option Fields
as_fields (object fs) = some fs
as_fields _ = none

abbrev as_items : Json → Option Items
as_items (array xs) = some xs
as_items _ = none

abbrev or_else : Option Text → Text → Text
or_else none d = d
or_else (some t) d = t

-- `resp.json()`, of which fields are asked
json_fields : HttpResponse → Exec Fields
json_fields resp = do
  body ← or_raise value_error resp.json
  or_raise attribute_error (as_fields body)

abbrev present : Option Json → Exec Json
present o = or_raise key_error o

-- A field that is there and not null, as a text.
abbrev text_field : Text → Fields → Option Text
text_field name fs = elim (get_field name fs) [ none ↦ none | some v ↦ as_text v ]

abbrev flag_field : Text → Fields → Bool
flag_field name fs = elim (get_field name fs) [ none ↦ false | some v ↦ truthy v ]

-- `str(data[name])`
abbrev id_field : Text → Fields → Option Text
id_field name fs = elim (get_field name fs) [ none ↦ none | some v ↦ to_text v ]

-- `next((e for e in emails if e.get("primary")), None)`: an element that is no object has no `get`.
unfoldable pub primary_of : Items → Exec (Option Fields)
unfolding get_field truthy
primary_of end = pure none
primary_of (item x xs) = do
  fs ← or_raise attribute_error (as_fields x)
  if flag_field (text "primary") fs then pure (some fs) else primary_of xs

abbrev verifier_field : Option Text → List (Text × Text)
verifier_field none = []
verifier_field (some v) = (text "code_verifier", v) ∷ []

module _ {Token : Type 0} (env : Env Token) where
  abbrev post : Text → List (Text × Text) → List (Text × Text) → Exec HttpResponse
  post url form headers = do n ← draw; or_raise http_error (env.http_post n url form headers)

  abbrev fetch : Text → List (Text × Text) → Exec HttpResponse
  fetch url headers = do n ← draw; or_raise http_error (env.http_get n url headers)

  -- `GoogleProvider.exchange_code`
  unfoldable pub google_exchange_code : OauthProvider → Text → Text → Option Text → Exec Text
  unfolding draw json_fields get_field
  google_exchange_code p code redirect_uri code_verifier = do
    let form =
        (text "code", code)
        ∷ (text "client_id", p.client_id)
        ∷ (text "client_secret", p.client_secret)
        ∷ (text "redirect_uri", redirect_uri)
        ∷ (text "grant_type", text "authorization_code")
        ∷ verifier_field (non_empty code_verifier)
    resp ← post (text "https://oauth2.googleapis.com/token") form []
    raise_if (not (resp.status == 200)) (auth_error "Failed to exchange Google authorization code.")
    data_fields ← json_fields resp
    or_raise key_error (text_field (text "access_token") data_fields)

  -- `GoogleProvider.fetch_user_info`
  unfoldable pub google_fetch_user_info : Text → Exec OauthUserInfo
  unfolding draw json_fields get_field truthy
  google_fetch_user_info access_token = do
    resp ←
        fetch (text "https://openidconnect.googleapis.com/v1/userinfo")
          ((text "Authorization", text "Bearer " ++ access_token) ∷ [])
    raise_if (not (resp.status == 200)) (auth_error "Failed to fetch Google profile.")
    fields ← json_fields resp
    account_id ← or_raise key_error (id_field (text "sub") fields)
    pure (record {
      provider = name google;
      account_id = account_id;
      email = text_field (text "email") fields;
      name = or_else (text_field (text "name") fields) [];
      email_verified = flag_field (text "email_verified") fields;
    })

  -- `GitHubProvider.exchange_code`
  unfoldable pub github_exchange_code : OauthProvider → Text → Text → Exec Text
  unfolding draw json_fields get_field
  github_exchange_code p code redirect_uri = do
    let form =
        (text "code", code)
        ∷ (text "client_id", p.client_id)
        ∷ (text "client_secret", p.client_secret)
        ∷ (text "redirect_uri", redirect_uri)
        ∷ []
    resp ←
        post (text "https://github.com/login/oauth/access_token") form
          ((text "Accept", text "application/json") ∷ [])
    raise_if (not (resp.status == 200)) (auth_error "Failed to exchange GitHub authorization code.")
    fields ← json_fields resp
    or_raise (auth_error "Failed to exchange GitHub authorization code.")
        (text_field (text "access_token") fields)

  abbrev primary_email : Option Fields → Option Text × Bool
  primary_email none = (none, false)
  primary_email (some fs) = (text_field (text "email") fs, flag_field (text "verified") fs)

  -- The address of `/user/emails`, asked for when the profile has none.
  github_email : Option Text → List (Text × Text) → Exec (Option Text × Bool)
  unfolding draw primary_of get_field truthy
  github_email (some email) headers = pure (some email, false)
  github_email none headers = do
    resp ← fetch (text "https://api.github.com/user/emails") headers
    if not (resp.status == 200) then pure (none, false) else (do
      body ← or_raise value_error resp.json
      items ← or_raise attribute_error (as_items body)
      primary ← primary_of items
      pure (primary_email primary))

  -- `GitHubProvider.fetch_user_info`
  unfoldable pub github_fetch_user_info : Text → Exec OauthUserInfo
  unfolding draw json_fields get_field github_email
  github_fetch_user_info access_token = do
    let headers =
        (text "Authorization", text "Bearer " ++ access_token)
        ∷ (text "Accept", text "application/vnd.github+json")
        ∷ []
    resp ← fetch (text "https://api.github.com/user") headers
    raise_if (not (resp.status == 200)) (auth_error "Failed to fetch GitHub profile.")
    profile ← json_fields resp
    (email, email_verified) ← github_email (text_field (text "email") profile) headers
    account_id ← or_raise key_error (id_field (text "id") profile)
    pure (record {
      provider = name github;
      account_id = account_id;
      email = email;
      name =
          or_else (non_empty (text_field (text "name") profile))
            (or_else (text_field (text "login") profile) []);
      email_verified = email_verified;
    })

  exchange_of : Kind → OauthProvider → Text → Text → Option Text → Exec Text
  unfolding google_exchange_code github_exchange_code
  exchange_of google p code redirect_uri verifier =
      google_exchange_code p code redirect_uri verifier
  exchange_of github p code redirect_uri verifier = github_exchange_code p code redirect_uri

  fetch_of : Kind → Text → Exec OauthUserInfo
  unfolding google_fetch_user_info github_fetch_user_info
  fetch_of google access_token = google_fetch_user_info access_token
  fetch_of github access_token = github_fetch_user_info access_token

  -- The methods of a provider object.
  unfoldable pub exchange_code : OauthProvider → Text → Text → Option Text → Exec Text
  unfolding exchange_of
  exchange_code p = exchange_of p.kind p

  unfoldable pub fetch_user_info : OauthProvider → Text → Exec OauthUserInfo
  unfolding fetch_of
  fetch_user_info p = fetch_of p.kind
