-- ===== src/Routes/Health.antt =====
-- backend/app/api/v1/health.py
use enterprise_auth_server.Common.{◌≡◌, ◌↔◌, true, Text, arith}
use enterprise_auth_server.Core.Strings.{text}
use enterprise_auth_server.State.World.{World}
use enterprise_auth_server.State.Commands.{ping}
use enterprise_auth_server.State.Exec.{Exec, ok, ◌>>◌, pure}

-- `health`
abbrev pub health : Exec Text
health = pure (text "ok")

-- `ready`, where `select_one` is the statement SELECT 1
unfoldable pub ready : Exec (Unit {0}) → Exec Text
unfolding ping
ready select_one = do select_one; ping; pure (text "ready")

-- The service is ready exactly when the database answers and then Redis.
pub ready_iff :
    (select_one : Exec (Unit {0})) (w : World)
    → ((ready select_one w).0 ≡ ok (text "ready"))
      ↔ (((select_one w).0 ≡ ok tt) × ((select_one w).1.redis.up ≡ true))
unfolding ready
ready_iff select_one w = ground arith
