-- ===== src/Core.antt =====
-- crates/core: the objective of a request, the verdict on it, and the report on a run.
pub mod Calibration
pub mod Capacity
pub mod Outcome
pub mod Report
pub mod Request
pub mod Run
mod Tests
