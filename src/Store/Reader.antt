-- ===== src/Store/Reader.antt =====
-- The read pool (crates/telegram-bulk-delivery/src/store/reader.rs): its queries as functions of the
-- tables. The four threads and the channels that carry a query to them keep no state of their own.
pub mod Rows
pub mod Queries
pub mod Upkeep
pub mod Walking
pub mod Paging
pub mod Gating
pub mod Leasing
