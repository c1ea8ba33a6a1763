-- ===== src/Routes.antt =====
-- The handlers of backend/app/api/v1 and what they depend on.
pub mod Http
pub mod Schemas
pub mod Bodies
pub mod Health
pub mod Access
pub mod Login
pub mod Refresh
pub mod SessionRoutes
pub mod Csrf
pub mod EmailRoutes
pub mod TwoFactorRoutes
pub mod UserRoutes
pub mod OauthRoutes
pub mod Middleware
