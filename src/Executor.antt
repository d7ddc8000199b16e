-- ===== src/Executor.antt =====
-- The executor of blocks.
pub mod World
pub mod CommitInfo
pub mod Update
pub mod Only
pub mod Next
pub mod Events
pub mod Apply
pub mod Votes
