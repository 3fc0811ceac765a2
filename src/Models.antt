-- ===== src/Models.antt =====
-- The domain model of shared/models.py: enumerations, rows of the tables, and the database.
pub mod Enums
pub mod Refs
pub mod Json
pub mod Events
pub mod Rows
pub mod Database
