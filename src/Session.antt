-- ===== src/Session.antt =====
-- The state of a session (src/state.rs).
pub mod Data
pub mod Conclusions
pub mod Store
pub mod Receipts
pub mod Caches
