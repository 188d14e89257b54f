-- ===== src/Indexer.antt =====
-- internal/indexer: the documents of the search index. The stores and the embedders are third-party
-- engines; the modules below have the logic around them.
pub mod Chunk
mod Tests
