-- ===== src/Database.antt =====
-- The client of the node's database (database/).
pub mod Client
pub mod Batch
pub mod Iterator
