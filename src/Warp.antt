-- ===== src/Warp.antt =====
-- The warp backend (warp/): messages that are stored are signed on request.
pub mod Backend
pub mod Signing
pub mod Api
pub mod Answers
pub mod Client
