-- ===== src/Blob.antt =====
-- The integrity and the deduplication of blobs in nova-blob.
pub mod Merkle
pub mod Chunks
pub mod Dedup
pub mod Tests
