-- ===== src/Coms.antt =====
-- Requests between servers (server/src/coms.cpp).
pub mod Client
pub mod Server
pub mod Fetch
pub mod Answer
pub mod Register
pub mod Listener
pub mod Ends
pub mod Rounds
pub mod Deferred
pub mod Leak
