-- ===== src/Scheduler/Limiters.antt =====
-- Rate limiting (crates/telegram-bulk-delivery/src/scheduler/limiters.rs): token buckets for the
-- process, each bot, chat, group and method, their pauses and their in-flight counts. Times are u64
-- milliseconds; what f64 does is an interface, since it is not code of the repository.
pub mod Scopes
pub mod Buckets
pub mod Counting
pub mod Taking
pub mod Places
pub mod Bounds
pub mod Pausing
pub mod Running
