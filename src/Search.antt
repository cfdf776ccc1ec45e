-- ===== src/Search.antt =====
-- Full-text search: crates/nova-search/src.
pub mod Levenshtein
