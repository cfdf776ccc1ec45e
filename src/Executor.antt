-- ===== src/Executor.antt =====
-- The request executor: crates/nova-executor/src.
pub mod OperationQueue
pub mod CircuitBreaker
