-- ===== src/Meta/Params.antt =====
-- The parameter constants, in four files.
pub mod Core
pub mod Media
pub mod Chat
pub mod Stickers
