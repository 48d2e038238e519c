-- ===== src/Wire.antt =====
-- crates/wire: the stream of server-sent events from a worker, and the requests that read it.
pub mod Sse
pub mod Http
pub mod Stream
pub mod Telemetry
mod Tests
