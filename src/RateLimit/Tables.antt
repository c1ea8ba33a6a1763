-- ===== src/RateLimit/Tables.antt =====
-- The rate limiter works on Redis alone.
use enterprise_auth_server.Common.{ℕ, Option, Text, arith}
use enterprise_auth_server.Core.Settings.{Settings}
use enterprise_auth_server.Models.{Database}
use enterprise_auth_server.State.Keeps.{Keeps, same_tables}
use enterprise_auth_server.RateLimit.{hit, ensure_not_locked, record_failure, clear_failures}

module _ {P : Database → Type 0} where
  pub hit-Keeps : (key : Text) (limit window : ℕ) → Keeps P (hit key limit window)
  unfolding hit
  hit-Keeps key limit window = same_tables (hit key limit window) λ w. (ground arith, ground arith)

  pub ensure_not_locked-Keeps : (id : Text) (ip : Option Text) → Keeps P (ensure_not_locked id ip)
  unfolding ensure_not_locked
  ensure_not_locked-Keeps id ip =
      same_tables (ensure_not_locked id ip) λ w. (ground arith, ground arith)

  pub record_failure-Keeps :
      (s : Settings) (id : Text) (ip : Option Text) → Keeps P (record_failure s id ip)
  unfolding record_failure
  record_failure-Keeps s id ip =
      same_tables (record_failure s id ip) λ w. (ground arith, ground arith)

  pub clear_failures-Keeps : (id : Text) (ip : Option Text) → Keeps P (clear_failures id ip)
  unfolding clear_failures
  clear_failures-Keeps id ip = same_tables (clear_failures id ip) λ w. (ground arith, ground arith)

pub ruleset limit_rules =
    (hit-Keeps, ensure_not_locked-Keeps, record_failure-Keeps, clear_failures-Keeps)
