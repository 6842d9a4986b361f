-- ===== src/VectorStore.antt =====
-- crates/sealstack-vectorstore: the filter language and the in-process store.
pub mod Filter
pub mod Memory
mod Tests
