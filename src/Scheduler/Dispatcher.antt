-- ===== src/Scheduler/Dispatcher.antt =====
-- The dispatcher (crates/telegram-bulk-delivery/src/scheduler/dispatcher.rs): the policy that a
-- leased call carries, and the one writer command that an attempt's answer leads to.
pub mod Policy
pub mod Finish
pub mod Retries
