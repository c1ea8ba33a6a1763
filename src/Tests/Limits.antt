-- ===== src/Tests/Limits.antt =====
-- Instances of the theorems on services/rate_limit.py.
use enterprise_auth_server.Common.{◌≡◌, ◌≢◌, refl, ap, none, [], ◌∷◌, arith, text_beq}
use enterprise_auth_server.Core.Errors.{account_locked, rate_limited}
use enterprise_auth_server.Core.Settings.{defaults}
use enterprise_auth_server.Core.Strings.{text, lower}
use enterprise_auth_server.State.World.{wait}
use enterprise_auth_server.State.Exec.{ok, err}
use enterprise_auth_server.RateLimit.{scoped, hit, ensure_not_locked}
use enterprise_auth_server.RateLimit.Lockout.{failures, lockout_exact}
use enterprise_auth_server.RateLimit.Window.{hits, hits-eq-verdicts, verdicts}
use enterprise_auth_server.Tests.Fixtures.{start}

lockout_exact_example :
    (ensure_not_locked
      (text "ann")
      none
      (wait 899000000 (failures defaults (text "ann") none (0 ∷ 5 ∷ 5 ∷ 5 ∷ 5 ∷ []) start))).0
    ≡ err account_locked
lockout_exact_example =
    lockout_exact defaults (text "ann") none 0 (5 ∷ 5 ∷ 5 ∷ 5 ∷ []) start 899000000 refl refl refl
      (omega arith) (omega arith) refl

names_differ : scoped (text "ann") none ≢ scoped (text "bob") none
unfolding scoped text_beq lower
names_differ e = cc (ap (λ t. text_beq t (text "bob")) e)

hits-eq-verdicts_example :
    hits (text "global:1.2.3.4") 2 60 (0 ∷ 1 ∷ 1 ∷ []) start ≡ verdicts 2 1 (0 ∷ 1 ∷ 1 ∷ [])
hits-eq-verdicts_example =
    hits-eq-verdicts (text "global:1.2.3.4") 2 60 0 (1 ∷ 1 ∷ []) start refl refl (omega arith)

-- The third of three hits is refused at a limit of two.
third_hit :
    hits (text "global:1.2.3.4") 2 60 (0 ∷ 1 ∷ 1 ∷ []) start ≡ ok tt ∷ ok tt ∷ err rate_limited ∷ []
unfolding hits hit text_beq
third_hit = refl
