-- ===== src/Meta.antt =====
-- The committed Bot API metadata (crates/telegram-api-meta).
pub mod Spec
pub mod Params
pub mod Catalog
pub mod Lookup
pub mod Naming
