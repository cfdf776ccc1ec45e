-- ===== src/Memory.antt =====
-- The accounts of memory in nova-memory.
pub mod Budget
pub mod PageAllocator
pub mod Tests
