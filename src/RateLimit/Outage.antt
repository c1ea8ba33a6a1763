-- ===== src/RateLimit/Outage.antt =====
-- What the limiter does while Redis cannot be reached.
use enterprise_auth_server.Common.{ℕ, ◌≡◌, false, Option, Text, arith}
use enterprise_auth_server.Core.Errors.{service_unavailable}
use enterprise_auth_server.Core.Settings.{Settings}
use enterprise_auth_server.State.World.{World}
use enterprise_auth_server.State.Exec.{ok, err}
use enterprise_auth_server.RateLimit.{hit, ensure_not_locked, record_failure, clear_failures}

-- While Redis is down, `hit` and `ensure_not_locked` refuse with `service_unavailable`, while
-- `record_failure` and `clear_failures` return normally; none of the four changes anything.
pub fails_closed :
    (s : Settings) (key identifier : Text) (ip : Option Text) (limit window : ℕ) (w : World)
    → w.redis.up ≡ false
    → (hit key limit window w ≡ (err service_unavailable, w))
      × (ensure_not_locked identifier ip w ≡ (err service_unavailable, w))
      × (record_failure s identifier ip w ≡ (ok tt, w))
      × (clear_failures identifier ip w ≡ (ok tt, w))
unfolding hit ensure_not_locked record_failure clear_failures
fails_closed s key identifier ip limit window w h =
    (ground arith, ground arith, ground arith, ground arith)
