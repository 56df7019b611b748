-- ===== src/Fixtures.antt =====
-- fixtures/loader.go: rows of YAML files that are written into a PostgreSQL database.
pub mod Literal
pub mod Row
pub mod World
pub mod Query
pub mod Files
pub mod Tables
mod Reading
pub mod Finite
mod Names
pub mod Sends
mod Truncated
pub mod Order
pub mod Refs
pub mod Columns
pub mod Values
