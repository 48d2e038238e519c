-- ===== src/Kvcache.antt =====
-- crates/kvcache: the paged block pool, the prefix cache and the radix index.
pub mod Pool
pub mod Radix
pub mod Prefix
mod Tests
