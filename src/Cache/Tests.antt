-- ===== src/Cache/Tests.antt =====
-- Runs of the cache of nova-cache/src/backend/hashmap.rs over a list of entries, and of its patterns.
use nova_runtime.Base.{
  ◌≤◌, ◌≡◌, ◌↔◌, refl, ap, true, not, [], ◌∷◌, ◌++◌, Option, none, some, ◌⊎◌, inl, inr, list_eq,
  nat_eq, arith, retain, count_if, ok,
}
use mathlib.Core.Path.{subst}
use nova_runtime.Base.Assoc.{
  Assoc, get, insert, remove, Distinct, remove-Distinct, get-remove_self, get-append-none,
}
use nova_runtime.Cache.{CacheKey, CacheEntry}
use nova_runtime.Cache.Glob.{matches_glob, Fits, matches_glob_iff}
use nova_runtime.Cache.Lru.{LruCache, IsLruCache}
use nova_runtime.Cache.HashMapBackend.{
  HashMapBackend, CacheMetrics, set, make_room, get_value, delete_matching, new_entry, max_entries,
}
use nova_runtime.Cache.TtlBackend.{CacheBackend, TtlBackend}
use nova_runtime.Cache.TtlBackend as Ttl
use nova_runtime.Cache.Wrapped.{as_backend, as_backend-IsCacheBackend}
use nova_runtime.Cache.Expiry.{get_value-evict_expired}
use nova_runtime.Cache.Accounting.{footprint, IsExact, set-IsExact}
use nova_runtime.Cache.Matching.{delete_matching-retain}

abbrev Entries : Type 0
Entries = Assoc CacheKey CacheEntry

-- Entries with one for each key.
abbrev Listed : Type 0
Listed = (m : Entries) × Distinct m

abbrev LastView : Entries → Type 0
LastView m =
    (m ≡ []) ⊎ ((entry : CacheKey × CacheEntry) × (rest : Entries) × (m ≡ rest ++ (entry ∷ [])))

abbrev last_view : (m : Entries) → LastView m
last_view [] = inl refl
last_view (e ∷ m) = elim (last_view m) [
  | inl q ↦ inr (e, [], ap (λ (es : Entries). e ∷ es) q)
  | inr (last, rest, q) ↦ inr (last, e ∷ rest, ap (λ (es : Entries). e ∷ es) q)
]

init-Distinct : (m : Entries) (e : CacheKey × CacheEntry) → Distinct (m ++ (e ∷ [])) → Distinct m
init-Distinct [] e d = tt
init-Distinct ((k, w) ∷ m) e d = (get-append-none k m (e ∷ []) d.0, init-Distinct m e d.1)

abbrev pop_last : (c : Listed) → LastView c.0 → Option ((CacheKey × CacheEntry) × Listed)
pop_last c (inl q) = none
pop_last c (inr (last, rest, q)) =
    some (last, (rest, init-Distinct rest last (subst Distinct q c.1)))

abbrev list_lru : LruCache Listed
list_lru = record {
  cap = max_entries 0;
  iter = λ c. c.0;
  peek = λ k c. get k c.0;
  pop = λ k c. (remove k c.0, remove-Distinct k c.0 c.1);
  pop_lru = λ c. pop_last c (last_view c.0);
  put = λ k e c. ((k, e) ∷ remove k c.0, (get-remove_self k c.0, remove-Distinct k c.0 c.1));
  clear = λ c. ([], tt);
}

pop_last-law :
    (c : Listed) (v : LastView c.0)
    → ((c.0 ≡ []) × (pop_last c v ≡ none))
      ⊎ ((entry : CacheKey × CacheEntry) × (rest : Listed) × (pop_last c v ≡ some (entry, rest))
          × (c.0 ≡ rest.0 ++ (entry ∷ [])))
pop_last-law c (inl q) = inl (q, refl)
pop_last-law c (inr (last, rest, q)) = inr (last, _, refl, q)

list_lru-IsLruCache : IsLruCache list_lru
list_lru-IsLruCache = record {
  peek_eq = λ k c. refl;
  iter-Distinct = λ c. c.1;
  iter-pop = λ k c. refl;
  pop_lru_last = λ c. pop_last-law c (last_view c.0);
  iter-put = λ k e c h. refl;
  iter-clear = λ c. refl;
}

abbrev no_metrics : CacheMetrics
no_metrics = record { hits = 0; misses = 0; sets = 0; deletes = 0; evictions = 0 }

abbrev empty : HashMapBackend Listed
empty = record { cache = ([], tt); max_bytes = 10; current_bytes = 0; metrics = no_metrics }

-- The keys `a` and `b`.
abbrev a : CacheKey
a = 97 ∷ []

abbrev b : CacheKey
b = 98 ∷ []

abbrev with_a : HashMapBackend Listed
with_a = set list_lru 0 a (1 ∷ 2 ∷ 3 ∷ []) (some 5) empty

abbrev with_both : HashMapBackend Listed
with_both = set list_lru 0 b (1 ∷ 2 ∷ 3 ∷ []) none with_a

empty-IsExact : IsExact list_lru empty
unfolding footprint
empty-IsExact = record { exact = refl; bounded = omega arith }

with_a-IsExact : IsExact list_lru with_a
unfolding footprint set make_room get remove
with_a-IsExact = record { exact = refl; bounded = omega arith }

-- Replacing the least recently used entry by a larger one takes its bytes off the count twice: the
-- entries take one byte more than the limit, and the count is below it.
replaced :
    let after = set list_lru 0 a (1 ∷ 2 ∷ 3 ∷ 4 ∷ 5 ∷ 6 ∷ []) none with_both in
    (after.current_bytes ≡ 7) × (footprint after.cache.0 ≡ 11)
unfolding footprint set make_room get remove
replaced = (refl, refl)

matches_glob_iff_example :
    (matches_glob (42 ∷ 98 ∷ []) (97 ∷ 98 ∷ []) ≡ true) ↔ Fits (42 ∷ 98 ∷ []) (97 ∷ 98 ∷ [])
matches_glob_iff_example = matches_glob_iff (42 ∷ 98 ∷ []) (97 ∷ 98 ∷ [])

set-IsExact_example :
    let after = set list_lru 0 b (1 ∷ 2 ∷ 3 ∷ 4 ∷ 5 ∷ 6 ∷ 7 ∷ []) none with_a in
    IsExact list_lru after
    × (after.current_bytes ≤ 10)
    × (get b after.cache.0 ≡ some (new_entry list_lru 0 (1 ∷ 2 ∷ 3 ∷ 4 ∷ 5 ∷ 6 ∷ 7 ∷ []) none))
unfolding set make_room get remove
set-IsExact_example =
    set-IsExact list_lru list_lru-IsLruCache 0 b (1 ∷ 2 ∷ 3 ∷ 4 ∷ 5 ∷ 6 ∷ 7 ∷ []) none with_a
      with_a-IsExact refl (omega arith) (omega arith) (omega arith) (omega arith)

delete_matching-retain_example :
    let out = delete_matching list_lru (42 ∷ []) with_both in
    (out.0 ≡ count_if (λ e. matches_glob (42 ∷ []) e.0) with_both.cache.0)
    × ((out.1).cache.0 ≡ retain (λ e. not (matches_glob (42 ∷ []) e.0)) with_both.cache.0)
delete_matching-retain_example =
    delete_matching-retain list_lru list_lru-IsLruCache (42 ∷ []) with_both

-- The cache above inside the wrapper that keeps times of expiry.
abbrev wrapped : CacheBackend (HashMapBackend Listed) Unit
wrapped = as_backend list_lru

abbrev timed : TtlBackend (HashMapBackend Listed)
timed = (Ttl.set wrapped 0 a (1 ∷ []) (some 5) (Ttl.new wrapped empty)).1

abbrev untimed : TtlBackend (HashMapBackend Listed)
untimed = (Ttl.set wrapped 0 b (2 ∷ []) none timed).1

-- The pattern `*` misses the key that was set without a time.
missed :
    let out = Ttl.delete_matching wrapped (42 ∷ []) untimed in
    (out.0 ≡ ok 1) × ((Ttl.get_value wrapped 1 b out.1).0 ≡ ok (some (2 ∷ [])))
unfolding set make_room get remove get_value Ttl.set Ttl.delete_matching Ttl.get_value
    Ttl.delete_many insert matches_glob nova_runtime.Cache.Glob.glob Ttl.delete
    nova_runtime.Cache.HashMapBackend.delete
missed = (refl, refl)

get_value-evict_expired_example :
    (Ttl.get_value wrapped 7 a (Ttl.evict_expired wrapped 6 untimed)).0
    ≡ (Ttl.get_value wrapped 7 a untimed).0
unfolding set make_room get remove insert Ttl.set
get_value-evict_expired_example =
    get_value-evict_expired wrapped (as_backend-IsCacheBackend list_lru list_lru-IsLruCache) 6 7 a
      untimed (refl, tt) (omega arith)
