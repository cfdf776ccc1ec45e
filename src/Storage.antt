-- ===== src/Storage.antt =====
-- The storage engine of nova-storage.
pub mod Bytes
pub mod Transactions
pub mod MemTable
pub mod Wal
pub mod Bloom
pub mod SsTable
