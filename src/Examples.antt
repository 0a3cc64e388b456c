-- ===== src/Examples.antt =====
-- The theorems at concrete inputs.
pub mod Link
pub mod Requests
pub mod Rows
pub mod Graph
pub mod Failures
pub mod Measured
pub mod Covered
pub mod Order
pub mod Stored
pub mod Gaps
pub mod Reported
pub mod Gates
pub mod Ready
pub mod Profiles
