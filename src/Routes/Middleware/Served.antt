-- ===== src/Routes/Middleware/Served.antt =====
-- How requests are answered.
use enterprise_auth_server.Common.{[], ℕ, ◌≡◌, Bool, true, false, Option, some, none, if◌then◌else◌}
use enterprise_auth_server.Core.Errors.{rate_limited, status_code}
use enterprise_auth_server.Core.External.{Env}
use enterprise_auth_server.State.World.{World}
use enterprise_auth_server.State.Exec.{Result, ok, err, Exec}
use enterprise_auth_server.State.UnitOfWork.{run_request}
use enterprise_auth_server.Routes.Http.{Request}
use enterprise_auth_server.Routes.Middleware.{
  Response, Content, content, problem, is_app_error, global_hit, set_defaults, hsts_headers,
  security_headers,
}

-- The status that the outcome of a transaction calls for.
abbrev pub status_of {ℓ} : {A : Type ℓ} → ℕ → Result A → ℕ
status_of success (ok a) = success
status_of success (err e) = status_code e

-- What the route returned, where it did.
abbrev pub returned {ℓ} : {A : Type ℓ} → Result A → Option A
returned (ok a) = some a
returned (err e) = none

abbrev pub content_of {ℓ} : {A : Type ℓ} → Content A → Option A
content_of (content a) = some a
content_of (problem code m) = none

-- Whether an answer passes through SecurityHeadersMiddleware: an exception that no handler inside
-- takes goes past it.
abbrev pub is_handled {ℓ} : {A : Type ℓ} → Result A → Bool
is_handled (ok a) = true
is_handled (err e) = is_app_error e

abbrev is_refusal : Result (Unit {0}) → Bool
is_refusal (err rate_limited) = true
is_refusal _ = false

module _ {ℓ} {A : Type ℓ} where
  -- An answer of the application to the outcome of a transaction.
  pub record Answers (hsts : Bool) (success : ℕ) (o : Result A) (r : Response A) : Type ℓ where
    pub status : r.status ≡ status_of success o
    pub body : content_of r.body ≡ returned o
    pub headers : r.headers ≡ (
        if is_handled o
        then set_defaults (hsts_headers hsts) (set_defaults security_headers [])
        else [])

module _ {ℓ} {Token : Type 0} (env : Env Token) {A : Type ℓ} where
  -- How a request was served: it was refused by the global limit, and its route did not run; or the
  -- route ran, once, as one transaction after the hit.
  pub data Served (production : Bool) (success : ℕ) (request : Request Token) (route : Exec A)
      (w v : World) (r : Response A) : Type ℓ where
    refused :
        (global_hit env request w).0 ≡ err rate_limited
        → v ≡ (global_hit env request w).1
        → r.status ≡ 429
        → r.headers ≡ []
        → Served production success request route w v r
    ran :
        v ≡ (run_request route (global_hit env request w).1).1
        → Answers production success (run_request route (global_hit env request w).1).0 r
        → Served production success request route w v r
