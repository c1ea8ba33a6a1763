-- ===== src/State/Background.antt =====
-- The tasks that run once the response has been sent.
use enterprise_auth_server.Common.{[], ◌∷◌, ◌++◌}
use enterprise_auth_server.State.World.{Mail}
use enterprise_auth_server.State.Exec.{Exec, modify}

-- `background.add_task(...)`
unfoldable pub add_task : Mail → Exec (Unit {0})
add_task mail = modify (λ w. record w { background = w.background ++ mail ∷ [] })
