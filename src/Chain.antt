-- ===== src/Chain.antt =====
-- The data and the pure functions of vm/types/state: blocks, states, validation and the codec.
pub mod Types
pub mod Library
pub mod Validate
