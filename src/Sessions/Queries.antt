-- ===== src/Sessions/Queries.antt =====
-- The operations of backend/app/services/session.py that only read.
use enterprise_auth_server.Common.{
  ℕ, Bool, false, not, ◌&&◌, Option, none, some, List, [], ◌∷◌, ltb, ◌==◌, nat_eq, if◌then◌else◌,
  select,
}
use enterprise_auth_server.Models.{Session, User}
use enterprise_auth_server.State.Exec.{Exec, ◌>>=◌, gets}
use enterprise_auth_server.Sessions.{require_owned}
use enterprise_auth_server.Sessions.Repository.{
  get_by_uuid, list_for_user, list_active_for_user, count_active_for_user,
}

-- `SessionService.list_active` and `count_active`
unfoldable pub list_active : User → Option ℕ → ℕ → Exec (List Session)
unfolding list_active_for_user
list_active user limit offset = gets (λ w. list_active_for_user user.id limit offset w.db)

unfoldable pub count_active : User → Exec ℕ
unfolding count_active_for_user
count_active user = gets (λ w. count_active_for_user user.id w.db)

-- `SessionService.get_owned`
unfoldable pub get_owned : User → ℕ → Exec Session
unfolding get_by_uuid
get_owned user session_uuid = do found ← get_by_uuid session_uuid; require_owned user.id found

-- `max(candidates, key=lambda s: s.login_at)`: the first of several greatest.
latest_from : Session → List Session → Session
latest_from best [] = best
latest_from best (s ∷ ss) = latest_from (if ltb best.login_at s.login_at then s else best) ss

latest : List Session → Option Session
unfolding latest_from
latest [] = none
latest (s ∷ ss) = some (latest_from s ss)

-- `SessionService.previous_login`
before : Option Session → ℕ → Session → Bool
before none now s = ltb s.login_at now
before (some current) now s =
    not (s.session_uuid == current.session_uuid) && ltb s.login_at current.login_at

unfoldable pub previous_login : User → Option Session → Exec (Option Session)
unfolding list_for_user before latest
previous_login user current =
    gets (λ w. latest (select (before current w.now) (list_for_user user.id false w.db)))
