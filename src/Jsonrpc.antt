-- ===== src/Jsonrpc.antt =====
-- The JSON-RPC server (jsonrpc/).
pub mod Handler
pub mod Replies
pub mod Crashes
pub mod Typed
pub mod Functions
