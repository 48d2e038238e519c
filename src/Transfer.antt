-- ===== src/Transfer.antt =====
-- crates/transfer: the transfer of a KV cache from a prefill worker to a decode worker.
pub mod Reshard
pub mod Local
mod Tests
