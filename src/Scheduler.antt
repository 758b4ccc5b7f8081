-- ===== src/Scheduler.antt =====
-- The scheduler (crates/telegram-bulk-delivery/src/scheduler).
pub mod Wdrr
pub mod Limiters
pub mod Dispatcher
