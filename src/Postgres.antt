-- ===== src/Postgres.antt =====
-- internal/postgres: the errors of the Postgres client, and transactions on its connection pool.
pub mod Errors
pub mod Pool
pub mod Atomic
pub mod Identifier
