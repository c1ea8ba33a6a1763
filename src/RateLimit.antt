-- ===== src/RateLimit.antt =====
-- backend/app/services/rate_limit.py: fixed-window rate limits and the lockout after failed logins.
pub mod Lockout
pub mod Tables
pub mod Window
pub mod Outage
use enterprise_auth_server.Common.{
  ℕ, Option, none, some, ◌∷◌, ◌++◌, Text, ltb, leb, ◌==◌, nat_eq, non_empty,
}
use enterprise_auth_server.Core.Errors.{rate_limited, service_unavailable, account_locked}
use enterprise_auth_server.Core.Settings.{Settings}
use enterprise_auth_server.Core.Strings.{lower}
use enterprise_auth_server.State.Redis.{ratelimit, lockout, failcount, number}
use enterprise_auth_server.State.Exec.{
  Exec, ◌>>=◌, ◌>>◌, pure, raise, raise_if, when, on_redis_error,
}
use enterprise_auth_server.State.Commands.{exists, set, delete, incr, expire}

-- `RateLimiter.hit`
unfoldable pub hit : Text → ℕ → ℕ → Exec (Unit {0})
unfolding incr expire
hit key limit window_seconds = do
  count ← on_redis_error (raise service_unavailable) (do
    count ← incr (ratelimit key)
    when (count == 1) (expire (ratelimit key) window_seconds)
    pure count)
  raise_if (ltb limit count) rate_limited

with_ip : Text → Option Text → Text
with_ip identifier none = identifier
with_ip identifier (some ip) = identifier ++ b':' ∷ ip

-- `RateLimiter._scoped`: an empty ip counts as none.
unfoldable pub scoped : Text → Option Text → Text
unfolding with_ip
scoped identifier ip = with_ip (lower identifier) (non_empty ip)

-- `RateLimiter.ensure_not_locked`
unfoldable pub ensure_not_locked : Text → Option Text → Exec (Unit {0})
unfolding exists
ensure_not_locked identifier ip = do
  locked ← on_redis_error (raise service_unavailable) (exists (lockout (scoped identifier ip)))
  raise_if locked account_locked

module _ (s : Settings) where
  count_failure : Text → Exec (Unit {0})
  unfolding incr expire set delete
  count_failure name = do
    count ← incr (failcount name)
    when (count == 1) (expire (failcount name) s.lockout_seconds)
    when (leb s.max_failed_logins count)
        (do set (lockout name) (number 1) s.lockout_seconds; delete (failcount name))

  -- `RateLimiter.record_failure`: a Redis error is logged and swallowed.
  unfoldable pub record_failure : Text → Option Text → Exec (Unit {0})
  unfolding count_failure
  record_failure identifier ip = on_redis_error (pure tt) (count_failure (scoped identifier ip))

forget : Text → Exec (Unit {0})
unfolding delete
forget name = do delete (failcount name); delete (lockout name)

-- `RateLimiter.clear_failures`: a Redis error is logged and swallowed.
unfoldable pub clear_failures : Text → Option Text → Exec (Unit {0})
unfolding forget
clear_failures identifier ip = on_redis_error (pure tt) (forget (scoped identifier ip))
