-- ===== src/Cache/Lru.antt =====
-- The crate `lru`, as far as nova-cache/src/backend/hashmap.rs uses it: a cache of at most `cap` entries, which
-- its iterator gives with the most recently used first.
use nova_runtime.Base.{ℕ, ◌<◌, ◌≡◌, [], ◌∷◌, ◌++◌, Option, none, some, length, ◌⊎◌, list_eq, nat_eq}
use nova_runtime.Base.Assoc.{Assoc, get, remove, Distinct}
use nova_runtime.Cache.{CacheKey, CacheEntry}

pub record LruCache (C : Type 0) : Type 0 where
  pub cap : ℕ
  pub iter : C → Assoc CacheKey CacheEntry
  pub peek : CacheKey → C → Option CacheEntry
  pub pop : CacheKey → C → C
  pub pop_lru : C → Option ((CacheKey × CacheEntry) × C)
  pub put : CacheKey → CacheEntry → C → C
  pub clear : C → C

-- What its documentation says of the calls. `put` is only described where there is room.
pub record IsLruCache {C : Type 0} (lru : LruCache C) : Type 0 where
  pub peek_eq : (k : CacheKey) (c : C) → lru.peek k c ≡ get k (lru.iter c)
  pub iter-Distinct : (c : C) → Distinct (lru.iter c)
  pub iter-pop : (k : CacheKey) (c : C) → lru.iter (lru.pop k c) ≡ remove k (lru.iter c)
  pub pop_lru_last :
      (c : C)
      → ((lru.iter c ≡ []) × (lru.pop_lru c ≡ none))
        ⊎ ((entry : CacheKey × CacheEntry) × (rest : C) × (lru.pop_lru c ≡ some (entry, rest))
            × (lru.iter c ≡ lru.iter rest ++ (entry ∷ [])))
  pub iter-put :
      (k : CacheKey) (entry : CacheEntry) (c : C)
      → length (remove k (lru.iter c)) < lru.cap
      → lru.iter (lru.put k entry c) ≡ (k, entry) ∷ remove k (lru.iter c)
  pub iter-clear : (c : C) → lru.iter (lru.clear c) ≡ []
