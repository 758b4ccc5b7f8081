-- ===== src/Store.antt =====
pub mod Tables
pub mod Sql
pub mod Lease
pub mod Accept
pub mod Complete
pub mod Recover
pub mod Webhooks
pub mod Upkeep
pub mod Execute
pub mod Ordering
pub mod Reader
pub mod Ledger
pub mod Tokens
pub mod Lasting
pub mod Fencing
