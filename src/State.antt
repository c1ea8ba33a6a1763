-- ===== src/State.antt =====
-- What a request reads and writes: the Redis key space, the database session with its unit of work
-- (backend/app/db/session.py), the clock, and the emails scheduled on the response.
pub mod Redis
pub mod RedisClient
pub mod World
pub mod Exec
pub mod Reads
pub mod Quiet
pub mod Background
pub mod Commands
pub mod UnitOfWork
pub mod Keeps
