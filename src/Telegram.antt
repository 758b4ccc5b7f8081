-- ===== src/Telegram.antt =====
-- Telegram's answers (crates/telegram-bulk-delivery/src/telegram).
pub mod Masking
pub mod Classify
