-- ===== src/Tests.antt =====
-- Tests on small inputs, and the instances of the theorems at them.
mod Fixtures
mod Limits
mod TokenTests
mod SessionTests
mod AccountTests
mod EmailTests
mod LoginTests
mod OauthTests
mod RouteTests
mod MigrationTests
