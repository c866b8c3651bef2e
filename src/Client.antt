-- ===== src/Client.antt =====
-- The client library, client/: its watchers, its cache, and the state machine of ClientImpl.
pub mod Watches
pub mod Cache
pub mod Impl
pub mod Reads
pub mod Loop
pub mod Quiet
pub mod Callbacks
pub mod Live
pub mod Reached
pub mod Progress
