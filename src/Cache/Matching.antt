-- ===== src/Cache/Matching.antt =====
-- `delete_matching` of nova-cache/src/backend/hashmap.rs deletes exactly the keys that match.
use nova_runtime.Base.{
  ℕ, suc, ◌≡◌, refl, sym, ap, ap₂, ◌∙◌, Bool, true, false, not, List, [], ◌∷◌, Option, none, some,
  map, retain, count_if, All, if◌then◌else◌, if-cases, Bool-cases, inl, inr, list_eq, nat_eq, ◌==◌,
  ==_refl, list_beq_iff,
}
use nova_runtime.Base.Assoc.{Assoc, get, remove, Distinct, remove_absent}
use nova_runtime.Cache.{CacheKey, CacheEntry}
use nova_runtime.Cache.Glob.{matches_glob}
use nova_runtime.Cache.Lru.{LruCache, IsLruCache}
use nova_runtime.Cache.HashMapBackend.{
  HashMapBackend, delete, delete_entry, delete_all, delete_matching,
}
use mathlib.Core.Bool.{true≢false}

abbrev Entries : Type 0
Entries = Assoc CacheKey CacheEntry

abbrev present : Option CacheEntry → Bool
present none = false
present (some entry) = true

-- Deletions seen from the entries: how many there were, and what is left.
deletions : List CacheKey → Entries → ℕ × Entries
deletions [] m = (0, m)
deletions (k ∷ ks) m =
    let more = deletions ks (remove k m) in
    (if present (get k m) then suc more.0 else more.0, more.1)

abbrev keys_of : (CacheKey → Bool) → Entries → List CacheKey
keys_of p m = retain p (map (λ e. e.0) m)

-- Other keys leave an entry where it is.
deletions-cons :
    (ks : List CacheKey) (j : CacheKey) (w : CacheEntry) (m : Entries)
    → All (λ k. (j == k) ≡ false) ks
    → deletions ks ((j, w) ∷ m) ≡ ((deletions ks m).0, (j, w) ∷ (deletions ks m).1)
unfolding deletions get remove
deletions-cons [] j w m a = refl
deletions-cons (k ∷ ks) j w m a = rw (a.0, deletions-cons ks j w (remove k m) a.1) refl

apart-keys : (p : CacheKey → Bool) (j k : CacheKey) → p j ≡ false → p k ≡ true → (j == k) ≡ false
apart-keys p j k h e = elim (Bool-cases (j == k)) [
  | inl b ↦ absurd (true≢false (sym e ∙ (ap p (sym ((list_beq_iff j k).0 b)) ∙ h)))
  | inr b ↦ b
]

keys_of-apart :
    (p : CacheKey → Bool) (j : CacheKey) (m : Entries)
    → p j ≡ false
    → All (λ k. (j == k) ≡ false) (keys_of p m)
keys_of-apart p j [] h = tt
keys_of-apart p j ((k, w) ∷ m) h =
    if-cases (All (λ i. (j == i) ≡ false)) (p k) _ _
      (λ e. (apart-keys p j k h e, keys_of-apart p j m h)) (λ e. keys_of-apart p j m h)

-- A key takes its own entry.
deletions-head :
    (ks : List CacheKey) (j : CacheKey) (w : CacheEntry) (m : Entries)
    → get j m ≡ none
    → deletions (j ∷ ks) ((j, w) ∷ m) ≡ (suc (deletions ks m).0, (deletions ks m).1)
unfolding deletions get remove
deletions-head ks j w m h = rw (==_refl j, remove_absent j m h) refl

deletions-keys_of :
    (p : CacheKey → Bool) (m : Entries)
    → Distinct m
    → deletions (keys_of p m) m ≡ (count_if (λ e. p e.0) m, retain (λ e. not (p e.0)) m)
unfolding deletions
deletions-keys_of p [] d = refl
deletions-keys_of p ((j, w) ∷ m) d = elim (Bool-cases (p j)) [
  | inl e ↦ rw (e, deletions-head (keys_of p m) j w m d.0, deletions-keys_of p m d.1) refl
  | inr e ↦
      rw (e, deletions-cons (keys_of p m) j w m (keys_of-apart p j m e), deletions-keys_of p m d.1)
        refl
]

module _ {C : Type 0} (lru : LruCache C) (laws : IsLruCache lru) where
  delete-entries :
      (k : CacheKey) (o : Option CacheEntry) (b : HashMapBackend C)
      → get k (lru.iter b.cache) ≡ o
      → let out = delete_entry lru k o b in
        (out.0 ≡ present o) × (lru.iter (out.1).cache ≡ remove k (lru.iter b.cache))
  delete-entries k none b e = (refl, sym (remove_absent k (lru.iter b.cache) e))
  delete-entries k (some entry) b e = (refl, laws.iter-pop k b.cache)

  delete_all-deletions :
      (ks : List CacheKey) (b : HashMapBackend C)
      → let out = delete_all lru ks b in
        (out.0, lru.iter (out.1).cache) ≡ deletions ks (lru.iter b.cache)
  unfolding delete_all delete deletions
  delete_all-deletions [] b = refl
  delete_all-deletions (k ∷ ks) b =
      let one = delete-entries k (lru.peek k b.cache) b (sym (laws.peek_eq k b.cache)) in
      ap₂ (λ (done : Bool) (more : ℕ × Entries). (if done then suc more.0 else more.0, more.1))
        (one.0 ∙ ap present (laws.peek_eq k b.cache))
        (delete_all-deletions ks (delete lru k b).1 ∙ ap (λ (m : Entries). deletions ks m) one.1)

  -- If the crate lru does as documented, deleting by a pattern keeps exactly the entries whose
  -- keys do not match it, in their order, and returns the number of those that do.
  pub delete_matching-retain :
      (p : CacheKey) (b : HashMapBackend C)
      → let out = delete_matching lru p b in
        (out.0 ≡ count_if (λ e. matches_glob p e.0) (lru.iter b.cache))
        × (lru.iter (out.1).cache ≡ retain (λ e. not (matches_glob p e.0)) (lru.iter b.cache))
  unfolding delete_matching
  delete_matching-retain p b =
      let all =
        delete_all-deletions (keys_of (matches_glob p) (lru.iter b.cache)) b
        ∙ deletions-keys_of (matches_glob p) (lru.iter b.cache) (laws.iter-Distinct b.cache) in
      (ap (λ (o : ℕ × Entries). o.0) all, ap (λ (o : ℕ × Entries). o.1) all)
