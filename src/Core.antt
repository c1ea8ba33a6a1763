-- ===== src/Core.antt =====
-- The parts that every service uses (backend/app/core): errors, settings, external components.
pub mod Errors
pub mod Settings
pub mod Claims
pub mod Json
pub mod External
pub mod Units
pub mod Strings
pub mod Decimal
pub mod Uuid
pub mod Client
pub mod Passwords
pub mod Startup
