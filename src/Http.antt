-- ===== src/Http.antt =====
-- The bulk API's request bodies (crates/telegram-bulk-delivery/src/http/api.rs and api_model.rs).
pub mod Envelope
pub mod Ingest
pub mod Batches
pub mod Stored
pub mod Accepts
pub mod Refused
