-- ===== src/Api.antt =====
-- The HTTP server of crates/api: the handlers that are modelled.
pub mod Uploads
pub mod Folders
pub mod Files
