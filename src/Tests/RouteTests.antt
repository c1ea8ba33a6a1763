-- ===== src/Tests/RouteTests.antt =====
-- Instances of the theorems on how requests are served.
use enterprise_auth_server.Common.{arith, refl, true, false, [], ◌∷◌}
use enterprise_auth_server.Core.Claims.{Claims}
use enterprise_auth_server.Core.Strings.{text}
use enterprise_auth_server.State.World.{World}
use enterprise_auth_server.State.Exec.{Exec}
use enterprise_auth_server.Core.Uuid
use enterprise_auth_server.Routes.EmailRoutes
use enterprise_auth_server.Routes.Refresh
use enterprise_auth_server.Routes.SessionRoutes
use enterprise_auth_server.Routes.TwoFactorRoutes
use enterprise_auth_server.Routes.Csrf.{IsBarred, IsRepeated, csrf_is_required}
use enterprise_auth_server.Routes.Schemas.{Page, UserRead, from_model}
use enterprise_auth_server.Routes.UserRoutes.{list_users}
use enterprise_auth_server.Routes.UserRoutes.Listing.{Listed, list_users-Listed}
use enterprise_auth_server.Routes.Login.{LoginResponse, login}
use enterprise_auth_server.Routes.Middleware.Served.{Served}
use enterprise_auth_server.Tests.Fixtures.{env, request, authorized, user, tables, start}

abbrev wrong_login : Exec (LoginResponse Claims)
wrong_login = login env request (text "ann@example.com") (text "guess") false

no_cookie : ¬ IsRepeated request
no_cookie = λ h. absurd (ground (arith, h.cookie))

csrf_is_required_example :
    IsBarred (EmailRoutes.resend_verification env request)
    × IsBarred (EmailRoutes.change_email env request (text "b@example.com") (text "secret"))
    × IsBarred (Refresh.logout env request)
    × IsBarred (SessionRoutes.logout_current env request)
    × IsBarred (SessionRoutes.logout_all env request)
    × IsBarred (SessionRoutes.revoke_session env request 41)
    × IsBarred (TwoFactorRoutes.setup env request (text "secret"))
    × IsBarred (TwoFactorRoutes.verify env request (text "123456"))
    × IsBarred (TwoFactorRoutes.recovery_codes env request (text "secret") (text "123456"))
    × IsBarred
        (TwoFactorRoutes.regenerate_recovery_codes env request (text "secret") (text "123456"))
    × IsBarred (TwoFactorRoutes.disable env request (text "secret") (text "123456"))
csrf_is_required_example =
    csrf_is_required env request (text "b@example.com") (text "secret") (text "123456") 41 no_cookie

-- Ann is a superuser.
abbrev governed : World
governed = record start { db = record tables { users = record user { is_superuser = true } ∷ [] } }

abbrev listing : Page UserRead
listing = record {
  items = from_model (record user { is_superuser = true }) ∷ [];
  total = 1;
  limit = 50;
  offset = 0;
}

list_users-Listed_example :
    Listed env authorized 50 0 listing governed (list_users env authorized 50 0 governed).1
unfolding list_users Uuid.to_text
list_users-Listed_example =
    list_users-Listed env authorized 50 0 listing governed
      (list_users env authorized 50 0 governed).1 refl
