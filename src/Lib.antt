-- ===== src/Lib.antt =====
-- Verification library of the authentication server, the FastAPI application under backend/app.
--
-- A request is a computation over an explicit world: the clock, Redis, the tables as the open
-- transaction sees them, the tables as last committed, the number of random draws made, and the
-- background tasks of the answer. An operation returns a result or an error together with the next
-- world, and do blocks compose operations the way the code's awaits do. `run_request` is the
-- boundary of a request: it commits on success, rolls back on an error.
--
-- Common: Boolean tests, texts as lists of character codes, lists over the native numbers, tables.
-- Core: errors (core/exceptions.py), the settings the code reads (core/config.py) and the checks of
--   them (Core/Startup), claims (core/security.py), passwords (core/passwords.py), devices and
--   locations (core/useragent.py, services/geoip.py), the text form of a UUID, JSON values, and Env,
--   the third-party code.
-- Models: the rows of backend/app/models, the database as a record of tables, and how a UUID is
--   stored (Models/Guid: db/types.py).
-- Migrations: backend/migrations/versions, a module for each revision (Initial with Seeding,
--   AddTwoFactor, AddSessions, AddEmailTokens, AddOauthAccounts, CompositeIndexes), their order
--   (Revisions), and the tables that backend/app/models declares (Mapping, Declared).
-- State: the world, its monad, the Redis commands in use, the unit of work (db/session.py), and the
--   Redis client that the process shares (redis/client.py).
-- RateLimit: services/rate_limit.py. Tokens: services/token.py.
-- Sessions: services/session.py, its reading operations in Sessions/Queries, and
--   repositories/session.py in Sessions/Repository.
-- Users: repositories/user.py and role.py, roles and permissions. Accounts: services/auth.py.
-- TwoFactor: services/two_factor.py, core/crypto.py, repositories/two_factor.py.
-- EmailAccounts: services/email_account.py, repositories/email_token.py. Notifications: the e-mails
--   of services/email/templates.py, which one services/notifications.py sends, and the backends that
--   deliver it (Notifications/Delivery: services/email/backends.py).
-- Oauth: services/oauth/service.py, with base.py, registry.py and providers.py of that folder and
--   repositories/oauth_account.py in the modules of those names.
-- Seed: db/seed.py with the roles and permissions of models/__init__.py.
-- Routes: cookies, CSRF and the client's address (Routes/Http), the authentication of a request
--   (Routes/Access: dependencies/auth.py), login (Routes/Login: api/v1/auth.py, api/v1/_login.py),
--   refresh and logout (Routes/Refresh: api/v1/auth.py), sessions (Routes/SessionRoutes:
--   api/v1/sessions.py), the e-mail account flows (Routes/EmailRoutes: api/v1/email.py), two-factor
--   setup (Routes/TwoFactorRoutes: api/v1/two_factor.py), users and registration
--   (Routes/UserRoutes: api/v1/users.py, api/v1/auth.py), OAuth (Routes/OauthRoutes:
--   api/v1/oauth.py), the responses and the request bodies (Routes/Schemas, Routes/Bodies: schemas),
--   the health checks (Routes/Health: api/v1/health.py), and what stands around every route
--   (Routes/Middleware: middleware, main.py, core/exceptions.py).
-- A component's file holds its definitions, under the names of the source; the files in its folder
-- hold its theorems. Tests holds instances in a concrete environment.
--
-- Parameters. Env has a field for each third-party computation: Argon2, PyJWT, pyotp, Fernet,
-- SHA-256, base64, URL encoding, QR images, the user-agent parser, the HTTP requests to OAuth
-- providers and the random values. The laws assumed of them, where a theorem names them, are
-- JwtRoundTrip, that a token decodes to the claims it was made of from its `iat` until its `exp` and
-- at no other time, and HashVerifies, that a password verifies against its own hash. Redis commands
-- and SQL statements act on the world as their documentation says; a key has an optional expiry, and
-- every command raises while Redis is down. Whether Redis is up does not change during a request. An
-- insertion is refused where it breaks a key or refers to no user; the lengths of columns are part of
-- the schema (Migrations), and an insertion does not look at them.
--
-- Representation. Time is in microseconds and stands still during a request; a JWT carries whole
-- seconds. UUIDs are numbers with a text form of 32 hexadecimal digits, with or without hyphens.
-- lower, upper and strip are those of ASCII. An error keeps its message without the arguments that
-- an f-string inserts. All loops are recursions on lists or on a number of rounds, so no definition
-- needs fuel.
--
-- A user's roles stand in the user's row as copies, so that seeding the roles does not reach them
-- there. Users and linked accounts stand in the order of their creation, which is the order of the
-- listings. An email and a name in an OAuth profile are texts or null.
--
-- A migration is the list of the statements that it gives to Alembic. A schema is what the database
-- keeps of tables and indexes, and a statement that it refuses ends the script without a result.
--
-- Not modelled: logging and auditing, created_at and updated_at as fields of rows, CORS, the pages of
-- the API's documentation, the construction of services from a request (dependencies/providers.py),
-- the connection pool of the database, migrations/env.py, which opens Alembic's connection, and the
-- descriptions of roles in db/seed.py. The bodies of Routes/Bodies are not joined to their routes,
-- which take the fields of a body that was let through.
pub mod Common
pub mod Core
pub mod Models
pub mod State
pub mod RateLimit
pub mod Tokens
pub mod Sessions
pub mod Users
pub mod Accounts
pub mod TwoFactor
pub mod EmailAccounts
pub mod Oauth
pub mod Notifications
pub mod Seed
pub mod Migrations
pub mod Routes
mod Tests
