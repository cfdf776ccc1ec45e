-- ===== src/Event.antt =====
-- The event bus: crates/nova-event/src.
pub mod Topic
pub mod Trie
