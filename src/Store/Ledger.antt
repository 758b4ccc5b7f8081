-- ===== src/Store/Ledger.antt =====
-- The ledger of jobs and recipients, and the commands that keep it.
pub mod Books
pub mod Moves
pub mod Step
pub mod Counters
pub mod Commit
pub mod Leasing
pub mod Releasing
pub mod Columns
pub mod Finishing
pub mod Completing
pub mod Closing
pub mod Behind
pub mod Reconciling
pub mod Sweeping
pub mod Recovering
pub mod Revoking
pub mod Accepting
pub mod Promoting
pub mod Deleting
pub mod Untouched
pub mod Commands
pub mod Delaying
