-- ===== src/Sched.antt =====
-- crates/sched: the schedulers of prefill and decode.
pub mod Policy
pub mod Prefill
pub mod Controller
pub mod Decode
mod Tests
