-- ===== src/Adapters.antt =====
-- src/adapters: the locks of the database adapters. The databases are given by their statements.
pub mod Table
pub mod Retry
pub mod Postgres
pub mod Sqlite
pub mod Mongo
pub mod Redis
