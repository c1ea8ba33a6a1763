-- ===== src/Routes/Middleware.antt =====
-- How a request is served: the exception handlers of backend/app/core/exceptions.py, and the
-- middleware of backend/app/middleware, stacked as in `create_app` of backend/app/main.py.
pub mod Served
use enterprise_auth_server.Common.{
  ℕ, Bool, true, false, [], ◌∷◌, ◌++◌, Text, String, if◌then◌else◌, is_some,
}
use enterprise_auth_server.Core.Client.{Headers, header}
use enterprise_auth_server.Core.Errors.{
  Error, rate_limited, auth_error, permission_denied, not_found, conflict, validation_error,
  service_unavailable, account_locked, token_replay, message, status_code, error_code,
}
use enterprise_auth_server.Core.External.{Env}
use enterprise_auth_server.Core.Strings.{text}
use enterprise_auth_server.State.World.{World}
use enterprise_auth_server.State.Exec.{Result, ok, err, Exec}
use enterprise_auth_server.State.UnitOfWork.{run_request}
use enterprise_auth_server.RateLimit.{hit}
use enterprise_auth_server.Routes.Http.{Request, client_ip}

-- The content of an answer: what the route returned, or an error code with its message.
pub data Content {ℓ} (A : Type ℓ) : Type ℓ where
  content : A → Content A
  problem : String → String → Content A

pub record Response {ℓ} (A : Type ℓ) : Type ℓ where
  pub status : ℕ
  pub body : Content A
  pub headers : Headers

-- An instance of AppError
unfoldable pub is_app_error : Error → Bool
is_app_error (auth_error m) = true
is_app_error (permission_denied m) = true
is_app_error (not_found m) = true
is_app_error (conflict m) = true
is_app_error (validation_error m) = true
is_app_error rate_limited = true
is_app_error service_unavailable = true
is_app_error account_locked = true
is_app_error token_replay = true
is_app_error _ = false

-- `_HEADERS` of backend/app/middleware/security.py
abbrev pub security_headers : Headers
security_headers =
    (text "x-content-type-options", text "nosniff")
    ∷ (text "x-frame-options", text "DENY")
    ∷ (text "referrer-policy", text "strict-origin-when-cross-origin")
    ∷ (text "x-xss-protection", text "0")
    ∷ (text "content-security-policy", text "default-src 'self'; frame-ancestors 'none'")
    ∷ (text "permissions-policy", text "geolocation=(), microphone=(), camera=()")
    ∷ []

-- `response.headers.setdefault(key, value)`
unfoldable pub set_default : Text × Text → Headers → Headers
unfolding header
set_default (key, value) hs = if is_some (header key hs) then hs else hs ++ (key, value) ∷ []

unfoldable pub set_defaults : Headers → Headers → Headers
unfolding set_default
set_defaults [] hs = hs
set_defaults (d ∷ ds) hs = set_defaults ds (set_default d hs)

abbrev hsts_headers : Bool → Headers
hsts_headers true =
    (text "strict-transport-security", text "max-age=63072000; includeSubDomains") ∷ []
hsts_headers false = []

module _ {ℓ} {A : Type ℓ} where
  abbrev pub problem_of : Error → Response A
  problem_of e = record {
    status = status_code e;
    body = problem (error_code e) (message e);
    headers = [];
  }

  -- The handler of AppError: other exceptions go on.
  unfoldable pub handle_app_error : ℕ → Result A × World → Result (Response A) × World
  unfolding is_app_error
  handle_app_error success (ok a, w) =
      (ok (record { status = success; body = content a; headers = [] }), w)
  handle_app_error success (err e, w) =
      if is_app_error e then (ok (problem_of e), w) else (err e, w)

  -- A route in its transaction, with the status of its success.
  unfoldable pub respond : ℕ → Exec A → Exec (Response A)
  unfolding handle_app_error run_request
  respond success m w = handle_app_error success (run_request m w)

  -- `SecurityHeadersMiddleware.dispatch`
  unfoldable pub with_headers : Bool → Result (Response A) × World → Result (Response A) × World
  unfolding set_defaults
  with_headers hsts (ok r, w) = (
    ok (record r {
      headers = set_defaults (hsts_headers hsts) (set_defaults security_headers r.headers);
    }),
    w,
  )
  with_headers hsts (err e, w) = (err e, w)

  unfoldable pub secured : Bool → Exec (Response A) → Exec (Response A)
  unfolding with_headers
  secured hsts m w = with_headers hsts (m w)

  -- What `RateLimitMiddleware.dispatch` does after the hit: it fails open but for RateLimited.
  unfoldable pub after_hit :
      Exec (Response A) → Result (Unit {0}) × World → Result (Response A) × World
  after_hit call_next (ok a, w) = call_next w
  after_hit call_next (err rate_limited, w) = (ok (problem_of rate_limited), w)
  after_hit call_next (err e, w) = call_next w

  -- The handler of Exception, around everything.
  unfoldable pub handle_unexpected : Result (Response A) × World → Result (Response A) × World
  handle_unexpected (ok r, w) = (ok r, w)
  handle_unexpected (err e, w) = (
    ok (record {
      status = 500;
      body = problem "internal_error" "An unexpected error occurred.";
      headers = [];
    }),
    w,
  )

-- The limit on all requests of an address.
unfoldable pub global_hit : {Token : Type 0} → Env Token → Request Token → Exec (Unit {0})
unfolding hit client_ip
global_hit env request =
    hit (text "global:" ++ client_ip request) env.settings.rate_limit_per_minute 60

module _ {ℓ} {Token : Type 0} (env : Env Token) {A : Type ℓ} where
  -- `RateLimitMiddleware.dispatch`
  unfoldable pub limited : Request Token → Exec (Response A) → Exec (Response A)
  unfolding global_hit after_hit
  limited request call_next w = after_hit call_next (global_hit env request w)

  -- `create_app`: the middleware that is added last is outermost.
  unfoldable pub serve : Bool → ℕ → Request Token → Exec A → Exec (Response A)
  unfolding handle_unexpected limited secured respond
  serve production success request route w =
      handle_unexpected (limited request (secured production (respond success route)) w)
