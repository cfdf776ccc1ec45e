-- ===== src/Scheduler.antt =====
-- Job timing: crates/nova-scheduler/src.
pub mod TimeWheel
pub mod PriorityQueue
