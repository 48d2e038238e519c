-- ===== src/Pyext.antt =====
-- crates/pyext: the admission decision behind the Python capacity scheduler.
pub mod Decide
mod Tests
