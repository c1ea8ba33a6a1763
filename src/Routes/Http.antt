-- ===== src/Routes/Http.antt =====
-- Requests and responses: the cookies of backend/app/core/cookies.py, `client_ip` of
-- backend/app/middleware/rate_limit.py, and `verify_csrf` of backend/app/dependencies/auth.py.
use enterprise_auth_server.Common.{
  ℕ, ◌*◌, ◌/◌, Bool, true, false, Option, none, some, List, [], ◌∷◌, Text, ◌==◌, nat_eq, text_eq,
  non_empty, if◌then◌else◌,
}
use enterprise_auth_server.Core.Errors.{permission_denied}
use enterprise_auth_server.Core.External.{Env}
use enterprise_auth_server.Core.Client.{Headers, header}
use enterprise_auth_server.Core.Strings.{text, strip}
use enterprise_auth_server.Core.Units.{days}
use enterprise_auth_server.State.Exec.{Exec, pure, raise}
use enterprise_auth_server.Tokens.{TokenPair}

pub record Request (Token : Type 0) : Type 0 where
  -- the cookies that the program reads; an empty token counts as none
  pub access_cookie : Option Token
  pub refresh_cookie : Option Token
  pub csrf_cookie : Option Text
  pub headers : Headers
  -- request.client.host
  pub host : Option Text

pub data CookieName : Type 0 where
  access_token refresh_token csrf_token : CookieName

pub data CookieValue (Token : Type 0) : Type 0 where
  jwt : Token → CookieValue Token
  plain : Text → CookieValue Token
  deleted : CookieValue Token

-- The path "/" or the path of the auth routes.
pub data CookiePath : Type 0 where
  root auth_routes : CookiePath

pub record Cookie (Token : Type 0) : Type 0 where
  pub name : CookieName
  pub value : CookieValue Token
  pub max_age : ℕ
  pub path : CookiePath
  pub http_only : Bool

module _ {Token : Type 0} (env : Env Token) where
  -- `set_auth_cookies`
  unfoldable pub set_auth_cookies : TokenPair Token → Text → List (Cookie Token)
  set_auth_cookies pair csrf =
      record {
        name = access_token;
        value = jwt pair.access;
        max_age = env.settings.access_token_expire_minutes * 60;
        path = root;
        http_only = true;
      }
      ∷ record {
        name = refresh_token;
        value = jwt pair.refresh;
        max_age = pair.refresh_ttl / 1000000;
        path = auth_routes;
        http_only = true;
      }
      ∷ record {
        name = csrf_token;
        value = plain csrf;
        max_age = days env.settings.refresh_token_expire_days / 1000000;
        path = root;
        http_only = false;
      }
      ∷ []

abbrev clear_cookie : {Token : Type 0} → CookieName → CookiePath → Cookie Token
clear_cookie name path = record {
  name = name;
  value = deleted;
  max_age = 0;
  path = path;
  http_only = false;
}

-- `clear_auth_cookies`
unfoldable pub clear_auth_cookies : {Token : Type 0} → List (Cookie Token)
clear_auth_cookies =
    clear_cookie access_token root
    ∷ clear_cookie refresh_token auth_routes
    ∷ clear_cookie csrf_token root
    ∷ []

-- `s.split(",")[0]`
unfoldable pub before_comma : Text → Text
before_comma [] = []
before_comma (c ∷ s) = let rest = before_comma s in if c == b',' then [] else c ∷ rest

forwarded_or : Option Text → Option Text → Text
unfolding before_comma strip
forwarded_or (some forwarded) host = strip (before_comma forwarded)
forwarded_or none (some host) = host
forwarded_or none none = text "unknown"

-- `client_ip`
unfoldable pub client_ip : {Token : Type 0} → Request Token → Text
unfolding header forwarded_or
client_ip request =
    forwarded_or (non_empty (header (text "x-forwarded-for") request.headers)) request.host

unfoldable pub compare_csrf : Option Text → Option Text → Exec (Unit {0})
compare_csrf (some cookie) (some sent) =
    if cookie == sent then pure tt else raise (permission_denied "CSRF validation failed.")
compare_csrf cookie sent = raise (permission_denied "CSRF validation failed.")

-- `verify_csrf`: the cookie and the header X-CSRF-Token are there and equal.
unfoldable pub verify_csrf : {Token : Type 0} → Request Token → Exec (Unit {0})
unfolding header compare_csrf
verify_csrf request =
    compare_csrf (non_empty request.csrf_cookie)
      (non_empty (header (text "x-csrf-token") request.headers))
