-- ===== src/Cache.antt =====
-- The caches of nova-cache: keys, values and entries of nova-cache/src/backend/mod.rs. A key is the list
-- of its characters, and `len` of it counts the bytes of its UTF-8.
pub mod Glob
pub mod Lru
pub mod HashMapBackend
pub mod Accounting
pub mod Matching
pub mod Wrapped
pub mod TtlBackend
pub mod Expiry
pub mod Tests
use nova_runtime.Base.{ℕ, ◌+◌, List, [], ◌∷◌, Option, Text, ltb, if◌then◌else◌}

abbrev pub CacheKey : Type 0
CacheKey = Text

abbrev pub CacheValue : Type 0
CacheValue = List ℕ

pub record CacheEntry : Type 0 where
  pub value : CacheValue
  pub created_at : ℕ
  pub expires_at : Option ℕ
  pub access_count : ℕ

abbrev pub char_len : ℕ → ℕ
char_len c = if ltb c 0x80 then 1 else if ltb c 0x800 then 2 else if ltb c 0x10000 then 3 else 4

abbrev pub key_len : CacheKey → ℕ
key_len [] = 0
key_len (c ∷ key) = char_len c + key_len key
