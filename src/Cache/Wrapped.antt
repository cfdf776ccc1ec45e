-- ===== src/Cache/Wrapped.antt =====
-- The calls of nova-cache/src/backend/hashmap.rs as a backend that nova-cache/src/backend/ttl.rs can wrap.
use nova_runtime.Base.{
  ℕ, ◌≡◌, refl, sym, ap, ◌∙◌, Bool, Option, none, some, Result, ok, length, map, if◌then◌else◌,
  list_eq, nat_eq, ◌==◌, arith,
}
use nova_runtime.Base.Assoc.{Assoc, get, remove, get-remove, remove_absent}
use nova_runtime.Cache.{CacheKey, CacheValue, CacheEntry}
use nova_runtime.Cache.Lru.{LruCache, IsLruCache}
use nova_runtime.Cache.HashMapBackend.{
  HashMapBackend, get_value, get_entry, set, delete, delete_entry, exists, flush, is_expired,
}
use nova_runtime.Cache.TtlBackend.{CacheBackend, IsCacheBackend}

module _ {C E : Type 0} (lru : LruCache C) where
  abbrev pub as_backend : CacheBackend (HashMapBackend C) E
  as_backend = record {
    get_value = λ now key b. let out = get_value lru now key b in (ok out.0, out.1);
    set = λ now key value ttl b. (ok tt, set lru now key value ttl b);
    delete = λ key b. let out = delete lru key b in (ok out.0, out.1);
    exists = λ now key b. let out = exists lru now key b in (ok out.0, out.1);
    flush = λ b. (ok tt, flush lru b);
    len = λ b. ok (length (lru.iter b.cache));
    keys = λ b. ok (map (λ e. e.0) (lru.iter b.cache));
  }

-- The value of an entry that has not expired.
abbrev live : ℕ → Option CacheEntry → Option CacheValue
live now none = none
live now (some entry) = if is_expired now entry.expires_at then none else some entry.value

live-if :
    (now : ℕ) (c : Bool) (o : Option CacheEntry)
    → live now (if c then none else o) ≡ (if c then none else live now o)
live-if now c o = ground arith

ok-if :
    {E A : Type 0} (c : Bool) (x y : A)
    → Path (Result E A) (ok (if c then x else y)) (if c then ok x else ok y)
ok-if c x y = ground arith

live-remove :
    (now : ℕ) (k j : CacheKey) (m : Assoc CacheKey CacheEntry)
    → live now (get j (remove k m)) ≡ (if k == j then none else live now (get j m))
live-remove now k j m = rw (get-remove k j m) (live-if now (k == j) (get j m))

module _ {C : Type 0} (lru : LruCache C) where
  get_entry-live :
      (now : ℕ) (key : CacheKey) (o : Option CacheEntry) (b : HashMapBackend C)
      → (get_entry lru now key o b).0 ≡ live now o
  get_entry-live now key none b = refl
  get_entry-live now key (some entry) b = ground arith

  module _ (laws : IsLruCache lru) where
    get_value-live :
        (now : ℕ) (key : CacheKey) (b : HashMapBackend C)
        → (get_value lru now key b).0 ≡ live now (get key (lru.iter b.cache))
    unfolding get_value
    get_value-live now key b =
        get_entry-live now key (lru.peek key b.cache) b ∙ ap (live now) (laws.peek_eq key b.cache)

    iter-delete_entry :
        (k : CacheKey) (o : Option CacheEntry) (b : HashMapBackend C)
        → get k (lru.iter b.cache) ≡ o
        → lru.iter ((delete_entry lru k o b).1).cache ≡ remove k (lru.iter b.cache)
    iter-delete_entry k none b e = sym (remove_absent k (lru.iter b.cache) e)
    iter-delete_entry k (some entry) b e = laws.iter-pop k b.cache

    iter-delete :
        (k : CacheKey) (b : HashMapBackend C)
        → lru.iter ((delete lru k b).1).cache ≡ remove k (lru.iter b.cache)
    unfolding delete
    iter-delete k b = iter-delete_entry k (lru.peek k b.cache) b (sym (laws.peek_eq k b.cache))

pub as_backend-IsCacheBackend :
    {C E : Type 0} (lru : LruCache C) → IsLruCache lru → IsCacheBackend (as_backend {E = E} lru)
as_backend-IsCacheBackend {E = E} lru laws = record {
  get_value-delete = λ now k j b.
      ap ok (
        get_value-live lru laws now j (delete lru k b).1
        ∙ ap (λ (m : Assoc CacheKey CacheEntry). live now (get j m)) (iter-delete lru laws k b)
        ∙ live-remove now k j (lru.iter b.cache)
        ∙ ap (λ (o : Option CacheValue). if k == j then none else o)
            (sym (get_value-live lru laws now j b)))
      ∙ ok-if (k == j) none (get_value lru now j b).0;
}
