-- ===== src/Webhook.antt =====
-- Completion webhooks (crates/telegram-bulk-delivery/src/webhook.rs).
pub mod Pages
pub mod Splitting
pub mod Addresses
pub mod Ranges
pub mod Hosts
pub mod Literals
pub mod Backoff
pub mod Deliver
pub mod Outcomes
pub mod Attempts
pub mod Safety
pub mod Pump
pub mod Turns
