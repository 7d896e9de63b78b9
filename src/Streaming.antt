-- ===== src/Streaming.antt =====
-- The streaming half of the core (crates/rqx-core/src/streaming) and of the bindings
-- (crates/rqx/src/stream.rs).
pub mod Chunking
pub mod Lines
pub mod LiveStream
pub mod Iterator
pub mod TextChunks
