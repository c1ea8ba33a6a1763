-- ===== src/Oauth/Providers/Tables.antt =====
-- The requests of backend/app/services/oauth/providers.py leave the tables alone.
use enterprise_auth_server.Common.{Text, Option, none, some, List}
use enterprise_auth_server.Core.External.{Env, HttpResponse}
use enterprise_auth_server.State.Quiet.{
  IsQuiet, IsQuiet-bind, IsQuiet-pure, IsQuiet-if, IsQuiet-or_raise, quiet_rules,
}
use enterprise_auth_server.Oauth.Base.{OauthProvider, Kind, google, github}
use enterprise_auth_server.Core.Errors.{attribute_error}
use enterprise_auth_server.Core.Json.{Items, end, item}
use enterprise_auth_server.Core.Strings.{text}
use enterprise_auth_server.Oauth.Providers.{
  primary_of, as_fields, flag_field, json_fields, google_exchange_code, google_fetch_user_info,
  github_exchange_code, github_email, github_fetch_user_info, exchange_of, fetch_of, exchange_code,
  fetch_user_info,
}

json_fields-IsQuiet : (resp : HttpResponse) → IsQuiet (json_fields resp)
unfolding json_fields
json_fields-IsQuiet resp = search quiet_rules

primary_of-IsQuiet : (xs : Items) → IsQuiet (primary_of xs)
unfolding primary_of
primary_of-IsQuiet end = search quiet_rules
primary_of-IsQuiet (item x xs) = IsQuiet-bind (IsQuiet-or_raise attribute_error (as_fields x)) λ fs.
    IsQuiet-if (flag_field (text "primary") fs) (IsQuiet-pure (some fs)) (primary_of-IsQuiet xs)

module _ {Token : Type 0} (env : Env Token) where
  google_exchange_code-IsQuiet :
      (p : OauthProvider) (code redirect_uri : Text) (verifier : Option Text)
      → IsQuiet (google_exchange_code env p code redirect_uri verifier)
  unfolding google_exchange_code
  google_exchange_code-IsQuiet p code redirect_uri verifier =
      search (quiet_rules, json_fields-IsQuiet) depth 9

  google_fetch_user_info-IsQuiet : (t : Text) → IsQuiet (google_fetch_user_info env t)
  unfolding google_fetch_user_info
  google_fetch_user_info-IsQuiet t = search (quiet_rules, json_fields-IsQuiet) depth 9

  github_exchange_code-IsQuiet :
      (p : OauthProvider) (code redirect_uri : Text)
      → IsQuiet (github_exchange_code env p code redirect_uri)
  unfolding github_exchange_code
  github_exchange_code-IsQuiet p code redirect_uri =
      search (quiet_rules, json_fields-IsQuiet) depth 9

  github_email-IsQuiet :
      (email : Option Text) (headers : List (Text × Text))
      → IsQuiet (github_email env email headers)
  unfolding github_email
  github_email-IsQuiet none headers = search (quiet_rules, primary_of-IsQuiet) depth 12
  github_email-IsQuiet (some email) headers = search quiet_rules

  github_fetch_user_info-IsQuiet : (t : Text) → IsQuiet (github_fetch_user_info env t)
  unfolding github_fetch_user_info
  github_fetch_user_info-IsQuiet t =
      search (quiet_rules, json_fields-IsQuiet, github_email-IsQuiet) depth 12

  exchange_of-IsQuiet :
      (k : Kind) (p : OauthProvider) (code redirect_uri : Text) (verifier : Option Text)
      → IsQuiet (exchange_of env k p code redirect_uri verifier)
  unfolding exchange_of
  exchange_of-IsQuiet google p code redirect_uri verifier =
      google_exchange_code-IsQuiet p code redirect_uri verifier
  exchange_of-IsQuiet github p code redirect_uri verifier =
      github_exchange_code-IsQuiet p code redirect_uri

  fetch_of-IsQuiet : (k : Kind) (t : Text) → IsQuiet (fetch_of env k t)
  unfolding fetch_of
  fetch_of-IsQuiet google t = google_fetch_user_info-IsQuiet t
  fetch_of-IsQuiet github t = github_fetch_user_info-IsQuiet t

  pub exchange_code-IsQuiet :
      (p : OauthProvider) (code redirect_uri : Text) (verifier : Option Text)
      → IsQuiet (exchange_code env p code redirect_uri verifier)
  unfolding exchange_code
  exchange_code-IsQuiet p code redirect_uri verifier =
      exchange_of-IsQuiet p.kind p code redirect_uri verifier

  pub fetch_user_info-IsQuiet : (p : OauthProvider) (t : Text) → IsQuiet (fetch_user_info env p t)
  unfolding fetch_user_info
  fetch_user_info-IsQuiet p t = fetch_of-IsQuiet p.kind t
