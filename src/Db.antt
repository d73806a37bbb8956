-- ===== src/Db.antt =====
-- crates/db/src/lib.rs: PostgreSQL access, one child module for each group of tables.
pub mod Schema
pub mod Jobs
pub mod Nodes
pub mod Trash
pub mod Uploads
pub mod Imports
pub mod Favorites
pub mod Files
pub mod Artifacts
pub mod Metadata
pub mod Listing
pub mod Samples
