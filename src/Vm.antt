-- ===== src/Vm.antt =====
-- The virtual machine (vm/vm.go).
pub mod Storage
pub mod Machine
pub mod Blocks
pub mod Triple
pub mod Invariant
pub mod Accepting
pub mod Answers
pub mod Commit
pub mod Consensus
pub mod Starting
pub mod Boot
pub mod Closers
pub mod Initialize
pub mod Stopping
pub mod Messages
