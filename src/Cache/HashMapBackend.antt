-- ===== src/Cache/HashMapBackend.antt =====
-- `HashMapBackend` of nova-cache/src/backend/hashmap.rs. The clock is an argument, and each call is one
-- step. Counters wrap around.
use nova_runtime.Base.{
  ℕ, zero, suc, ◌+◌, ◌-◌, ◌%◌, ◌^◌, ◌/◌, min, max, Bool, true, false, List, [], ◌∷◌, Option, none,
  some, length, map, retain, ltb, if◌then◌else◌, wrapping_add,
}
use nova_runtime.Cache.{CacheKey, CacheValue, CacheEntry, key_len}
use nova_runtime.Cache.Glob.{matches_glob}
use nova_runtime.Cache.Lru.{LruCache}

pub record CacheMetrics : Type 0 where
  pub hits : ℕ
  pub misses : ℕ
  pub sets : ℕ
  pub deletes : ℕ
  pub evictions : ℕ

-- `AtomicU64::fetch_sub`, which wraps around.
abbrev pub wrapping_sub : ℕ → ℕ → ℕ
wrapping_sub a b = (a + 2 ^ 64 - b) % 2 ^ 64

pub record HashMapBackend (C : Type 0) : Type 0 where
  pub cache : C
  pub max_bytes : ℕ
  pub current_bytes : ℕ
  pub metrics : CacheMetrics

-- The number of entries that a cache is made for.
abbrev pub max_entries : ℕ → ℕ
max_entries max_bytes = min (max (max_bytes / 100) 100) 1000000

abbrev pub entry_size : CacheKey → CacheValue → ℕ
entry_size key value = key_len key + length value

abbrev pub is_expired : ℕ → Option ℕ → Bool
is_expired now none = false
is_expired now (some expires_at) = ltb expires_at now

abbrev pub expiry : ℕ → Option ℕ → Option ℕ
expiry now none = none
expiry now (some ttl) = some (now + ttl)

module _ {C : Type 0} (lru : LruCache C) where
  abbrev pub hit : HashMapBackend C → HashMapBackend C
  hit b = record b { metrics = record (b.metrics) { hits = wrapping_add b.metrics.hits 1 } }

  abbrev pub miss : HashMapBackend C → HashMapBackend C
  miss b = record b { metrics = record (b.metrics) { misses = wrapping_add b.metrics.misses 1 } }

  abbrev pub popped : CacheKey → HashMapBackend C → HashMapBackend C
  popped key b = record b { cache = lru.pop key b.cache }

  -- An entry that has expired is taken out, and its bytes stay counted.
  abbrev pub get_entry :
      ℕ → CacheKey → Option CacheEntry → HashMapBackend C → Option CacheValue × HashMapBackend C
  get_entry now key none b = (none, miss b)
  get_entry now key (some entry) b =
      if is_expired now entry.expires_at
      then (none, miss (popped key b))
      else (some entry.value, hit b)

  unfoldable pub get_value : ℕ → CacheKey → HashMapBackend C → Option CacheValue × HashMapBackend C
  get_value now key b = get_entry now key (lru.peek key b.cache) b

  abbrev pub has_entry :
      ℕ → CacheKey → Option CacheEntry → HashMapBackend C → Bool × HashMapBackend C
  has_entry now key none b = (false, b)
  has_entry now key (some entry) b =
      if is_expired now entry.expires_at then (false, popped key b) else (true, b)

  unfoldable pub exists : ℕ → CacheKey → HashMapBackend C → Bool × HashMapBackend C
  exists now key b = has_entry now key (lru.peek key b.cache) b

  abbrev pub forget : CacheKey → CacheEntry → HashMapBackend C → HashMapBackend C
  forget key entry b = record b {
    current_bytes = wrapping_sub b.current_bytes (entry_size key entry.value);
  }

  abbrev pub evicted : CacheKey → CacheEntry → C → HashMapBackend C → HashMapBackend C
  evicted key entry rest b = record (forget key entry b) {
    cache = rest;
    metrics = record (b.metrics) { evictions = wrapping_add b.metrics.evictions 1 };
  }

  abbrev pub next_eviction :
      (HashMapBackend C → HashMapBackend C)
      → Option ((CacheKey × CacheEntry) × C)
      → HashMapBackend C
      → HashMapBackend C
  next_eviction onward none b = b
  next_eviction onward (some (entry, rest)) b = onward (evicted entry.0 entry.1 rest b)

  -- One unit of fuel for an entry: a round takes one out, or ends the loop.
  unfoldable pub make_room : ℕ → ℕ → HashMapBackend C → HashMapBackend C
  make_room zero new_size b = b
  make_room (suc fuel) new_size b =
      let onward = next_eviction (make_room fuel new_size) (lru.pop_lru b.cache) b in
      if ltb b.max_bytes (wrapping_add b.current_bytes new_size) then onward else b

  abbrev pub forget_old : CacheKey → Option CacheEntry → HashMapBackend C → HashMapBackend C
  forget_old key none b = b
  forget_old key (some existing) b = forget key existing b

  abbrev pub store_entry : CacheKey → CacheEntry → ℕ → HashMapBackend C → HashMapBackend C
  store_entry key entry new_size b = record b {
    cache = lru.put key entry b.cache;
    current_bytes = wrapping_add b.current_bytes new_size;
    metrics = record (b.metrics) { sets = wrapping_add b.metrics.sets 1 };
  }

  abbrev pub new_entry : ℕ → CacheValue → Option ℕ → CacheEntry
  new_entry now value ttl = record {
    value = value;
    created_at = now;
    expires_at = expiry now ttl;
    access_count = 0;
  }

  unfoldable pub set : ℕ → CacheKey → CacheValue → Option ℕ → HashMapBackend C → HashMapBackend C
  set now key value ttl b =
      let new_size = entry_size key value in
      let b' = forget_old key (lru.peek key b.cache) b in
      store_entry key (new_entry now value ttl) new_size
        (make_room (length (lru.iter b'.cache)) new_size b')

  abbrev pub delete_entry :
      CacheKey → Option CacheEntry → HashMapBackend C → Bool × HashMapBackend C
  delete_entry key none b = (false, b)
  delete_entry key (some entry) b = (
    true,
    record (forget key entry (popped key b)) {
      metrics = record (b.metrics) { deletes = wrapping_add b.metrics.deletes 1 };
    },
  )

  unfoldable pub delete : CacheKey → HashMapBackend C → Bool × HashMapBackend C
  delete key b = delete_entry key (lru.peek key b.cache) b

  abbrev pub count_deleted : Bool × HashMapBackend C → ℕ × HashMapBackend C → ℕ × HashMapBackend C
  count_deleted one more = (if one.0 then suc more.0 else more.0, more.1)

  unfoldable pub delete_all : List CacheKey → HashMapBackend C → ℕ × HashMapBackend C
  delete_all [] b = (0, b)
  delete_all (key ∷ keys) b = let one = delete key b in count_deleted one (delete_all keys one.1)

  unfoldable pub delete_matching : CacheKey → HashMapBackend C → ℕ × HashMapBackend C
  delete_matching pattern_text b =
      delete_all (retain (matches_glob pattern_text) (map (λ e. e.0) (lru.iter b.cache))) b

  unfoldable pub flush : HashMapBackend C → HashMapBackend C
  flush b = record b { cache = lru.clear b.cache; current_bytes = 0 }

  abbrev pub evict_one : CacheKey → Option CacheEntry → HashMapBackend C → HashMapBackend C
  evict_one key none b = b
  evict_one key (some entry) b = evicted key entry (lru.pop key b.cache) b

  unfoldable pub evict_all : List CacheKey → HashMapBackend C → HashMapBackend C
  evict_all [] b = b
  evict_all (key ∷ keys) b = evict_all keys (evict_one key (lru.peek key b.cache) b)

  unfoldable pub evict_expired : ℕ → HashMapBackend C → HashMapBackend C
  evict_expired now b =
      evict_all (map (λ e. e.0) (retain (λ e. is_expired now e.1.expires_at) (lru.iter b.cache))) b
