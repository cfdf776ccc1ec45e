-- ===== src/Cache/TtlBackend.antt =====
-- `TtlBackend` of nova-cache/src/backend/ttl.rs, which keeps times of expiry beside any backend. The clock is an
-- argument, read once in a call. Results of the inner backend that the source drops are dropped.
use nova_runtime.Base.{
  ℕ, suc, ◌+◌, ◌≡◌, Bool, false, List, [], ◌∷◌, Option, none, some, Result, err, ok, map, retain,
  leb, if◌then◌else◌, list_eq, nat_eq, ◌==◌,
}
use nova_runtime.Base.Assoc.{Assoc, get, insert, remove}
use nova_runtime.Cache.{CacheKey, CacheValue}
use nova_runtime.Cache.Glob.{matches_glob}

-- The calls of the trait `CacheBackend` that the wrapper makes.
pub record CacheBackend (B E : Type 0) : Type 0 where
  pub get_value : ℕ → CacheKey → B → Result E (Option CacheValue) × B
  pub set : ℕ → CacheKey → CacheValue → Option ℕ → B → Result E (Unit {0}) × B
  pub delete : CacheKey → B → Result E Bool × B
  pub exists : ℕ → CacheKey → B → Result E Bool × B
  pub flush : B → Result E (Unit {0}) × B
  pub len : B → Result E ℕ
  pub keys : B → Result E (List CacheKey)

-- What a sweep relies on: a deleted key is gone, and other keys are read as before.
pub record IsCacheBackend {B E : Type 0} (backend : CacheBackend B E) : Type 0 where
  pub get_value-delete :
      (now : ℕ) (k j : CacheKey) (b : B)
      → (backend.get_value now j (backend.delete k b).1).0
        ≡ (if k == j then ok none else (backend.get_value now j b).0)

pub record TtlBackend (B : Type 0) : Type 0 where
  pub inner : B
  pub expires : Assoc CacheKey ℕ

abbrev pub is_past : ℕ → Option ℕ → Bool
is_past now none = false
is_past now (some expiry) = leb expiry now

abbrev pub set_expiry : ℕ → CacheKey → Option ℕ → Assoc CacheKey ℕ → Assoc CacheKey ℕ
set_expiry now key none expires = remove key expires
set_expiry now key (some ttl) expires = insert key (if ttl == 0 then now else now + ttl) expires

module _ {B E : Type 0} (backend : CacheBackend B E) where
  abbrev pub new : B → TtlBackend B
  new inner = record { inner = inner; expires = [] }

  abbrev pub has_expired : ℕ → CacheKey → TtlBackend B → Bool
  has_expired now key b = is_past now (get key b.expires)

  -- The outcome of a call of the inner backend, with its new state in its place.
  abbrev pub within : {A : Type 0} → TtlBackend B → A × B → A × TtlBackend B
  within b out = (out.0, record b { inner = out.1 })

  abbrev pub forget : CacheKey → TtlBackend B → TtlBackend B
  forget key b = record { inner = (backend.delete key b.inner).1; expires = remove key b.expires }

  unfoldable pub get_value :
      ℕ → CacheKey → TtlBackend B → Result E (Option CacheValue) × TtlBackend B
  get_value now key b =
      if has_expired now key b
      then (ok none, forget key b)
      else within b (backend.get_value now key b.inner)

  unfoldable pub set :
      ℕ → CacheKey → CacheValue → Option ℕ → TtlBackend B → Result E (Unit {0}) × TtlBackend B
  set now key value ttl b =
      within (record b { expires = set_expiry now key ttl b.expires })
        (backend.set now key value ttl b.inner)

  unfoldable pub delete : CacheKey → TtlBackend B → Result E Bool × TtlBackend B
  delete key b = within (record b { expires = remove key b.expires }) (backend.delete key b.inner)

  unfoldable pub exists : ℕ → CacheKey → TtlBackend B → Result E Bool × TtlBackend B
  exists now key b =
      if has_expired now key b
      then (ok false, forget key b)
      else within b (backend.exists now key b.inner)

  unfoldable pub flush : TtlBackend B → Result E (Unit {0}) × TtlBackend B
  flush b = within (record b { expires = [] }) (backend.flush b.inner)

  abbrev pub len : TtlBackend B → Result E ℕ
  len b = backend.len b.inner

  abbrev pub keys : TtlBackend B → Result E (List CacheKey)
  keys b = backend.keys b.inner

  unfoldable pub forget_all : List CacheKey → TtlBackend B → TtlBackend B
  forget_all [] b = b
  forget_all (key ∷ keys) b = forget_all keys (forget key b)

  unfoldable pub evict_expired : ℕ → TtlBackend B → TtlBackend B
  evict_expired now b = forget_all (map (λ e. e.0) (retain (λ e. leb e.1 now) b.expires)) b

  -- A failed deletion ends the loop.
  abbrev pub count_deleted :
      ℕ
      → (ℕ → TtlBackend B → Result E ℕ × TtlBackend B)
      → Result E Bool × TtlBackend B
      → Result E ℕ × TtlBackend B
  count_deleted count onward (err reason, b) = (err reason, b)
  count_deleted count onward (ok deleted, b) = onward (if deleted then suc count else count) b

  unfoldable pub delete_many : List CacheKey → ℕ → TtlBackend B → Result E ℕ × TtlBackend B
  delete_many [] count b = (ok count, b)
  delete_many (key ∷ keys) count b = count_deleted count (delete_many keys) (delete key b)

  unfoldable pub delete_matching : CacheKey → TtlBackend B → Result E ℕ × TtlBackend B
  delete_matching pattern_text b =
      delete_many (retain (matches_glob pattern_text) (map (λ e. e.0) b.expires)) 0 b

  abbrev Found : Type 0
  Found = List (CacheKey × CacheValue)

  abbrev pub add_found : CacheKey → Option CacheValue → Found → Found
  add_found key none found = found
  add_found key (some value) found = (key, value) ∷ found

  abbrev pub collected :
      CacheKey → Option CacheValue → Result E Found × TtlBackend B → Result E Found × TtlBackend B
  collected key value (err reason, b) = (err reason, b)
  collected key value (ok found, b) = (ok (add_found key value found), b)

  abbrev pub get_next :
      CacheKey
      → (TtlBackend B → Result E Found × TtlBackend B)
      → Result E (Option CacheValue) × TtlBackend B
      → Result E Found × TtlBackend B
  get_next key onward (err reason, b) = (err reason, b)
  get_next key onward (ok value, b) = collected key value (onward b)

  unfoldable pub get_many : ℕ → List CacheKey → TtlBackend B → Result E Found × TtlBackend B
  get_many now [] b = (ok [], b)
  get_many now (key ∷ keys) b = get_next key (get_many now keys) (get_value now key b)

  abbrev pub set_next :
      (TtlBackend B → Result E (Unit {0}) × TtlBackend B)
      → Result E (Unit {0}) × TtlBackend B
      → Result E (Unit {0}) × TtlBackend B
  set_next onward (err reason, b) = (err reason, b)
  set_next onward (ok done, b) = onward b

  unfoldable pub set_many :
      ℕ
      → List (CacheKey × CacheValue × Option ℕ)
      → TtlBackend B
      → Result E (Unit {0}) × TtlBackend B
  set_many now [] b = (ok tt, b)
  set_many now ((key, value, ttl) ∷ items) b =
      set_next (set_many now items) (set now key value ttl b)
