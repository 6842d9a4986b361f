-- ===== src/Engine.antt =====
-- crates/sealstack-engine: how a text is cut into chunks, and how a search ranks what it finds.
pub mod Chunking
pub mod Fusion
pub mod Freshness
pub mod Retrieval
mod Tests
