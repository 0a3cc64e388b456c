-- ===== src/Wp.antt =====
-- The goals of WP and what their failures say (src/mcp/wpclass.rs).
pub mod Failure
pub mod Route
pub mod Triage
