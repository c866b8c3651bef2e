-- ===== src/Common.antt =====
-- Code that the server and the client share (common/).
pub mod Code
pub mod Status
