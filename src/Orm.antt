-- ===== src/Orm.antt =====
-- The query builder (rwf/src/model): values, columns, filters, and the statements made of them.
pub mod Value
pub mod Filter
pub mod Clauses
pub mod Select
pub mod Write
pub mod Query
pub mod Model
pub mod Migrations
mod Tests
