-- ===== src/Cache/Expiry.antt =====
-- `evict_expired` of nova-cache/src/backend/ttl.rs: what a sweep leaves of the times of expiry, and of what a
-- reader sees.
use nova_runtime.Base.{
  ℕ, ◌≤◌, ◌≡◌, refl, Bool, true, false, List, [], ◌∷◌, Option, none, some, Result, ok, map, retain,
  leb, if◌then◌else◌, Bool-cases, inl, inr, list_eq, nat_eq, ◌==◌, list_beq_iff, arith,
}
use mathlib.Core.Path.{subst}
use nova_runtime.Base.Assoc.{Assoc, get, get-remove, Distinct}
use nova_runtime.Cache.{CacheKey, CacheValue}
use nova_runtime.Cache.TtlBackend.{
  CacheBackend, IsCacheBackend, TtlBackend, get_value, forget, forget_all, evict_expired,
  has_expired, is_past,
}

abbrev Times : Type 0
Times = Assoc CacheKey ℕ

abbrev mem : CacheKey → List CacheKey → Bool
mem j [] = false
mem j (k ∷ ks) = if k == j then true else mem j ks

abbrev past : ℕ → Times → List CacheKey
past now m = map (λ e. e.0) (retain (λ e. leb e.1 now) m)

-- A key with no time is not past.
mem-past-none : (now : ℕ) (j : CacheKey) (m : Times) → get j m ≡ none → mem j (past now m) ≡ false
unfolding get
mem-past-none now j [] h = refl
mem-past-none now j ((k, w) ∷ m) h = ground (arith, h, mem-past-none now j m)

mem-past :
    (now : ℕ) (j : CacheKey) (m : Times) → Distinct m → mem j (past now m) ≡ is_past now (get j m)
unfolding get
mem-past now j [] d = refl
mem-past now j ((k, w) ∷ m) d = elim (Bool-cases (k == j)) [
  | inl h ↦ elim (Bool-cases (leb w now)) [
    | inl e ↦ rw (h, e, h) refl
    | inr e ↦
        rw (h, e)
          (mem-past-none now j m
            (subst (λ (i : CacheKey). get i m ≡ none) ((list_beq_iff k j).0 h) d.0))
  ]
  | inr h ↦ elim (Bool-cases (leb w now)) [
    | inl e ↦ rw (h, e, h) (mem-past now j m d.1)
    | inr e ↦ rw (h, e) (mem-past now j m d.1)
  ]
]

-- One key more, in front of the others.
if-or :
    {A : Type 0} (a c : Bool) (x y : A)
    → (if a then x else (if c then x else y)) ≡ (if (if c then true else a) then x else y)
if-or a c x y = ground arith

module _ {B E : Type 0} (backend : CacheBackend B E) where
  get-forget_all :
      (ks : List CacheKey) (j : CacheKey) (b : TtlBackend B)
      → get j (forget_all backend ks b).expires ≡ (if mem j ks then none else get j b.expires)
  unfolding forget_all
  get-forget_all [] j b = refl
  get-forget_all (k ∷ ks) j b =
      rw (get-forget_all ks j (forget backend k b), get-remove k j b.expires)
        (if-or (mem j ks) (k == j) none (get j b.expires))

  pub get-evict_expired :
      (now : ℕ) (j : CacheKey) (b : TtlBackend B)
      → Distinct b.expires
      → get j (evict_expired backend now b).expires
        ≡ (if has_expired backend now j b then none else get j b.expires)
  unfolding evict_expired
  get-evict_expired now j b d =
      rw (get-forget_all (past now b.expires) j b, mem-past now j b.expires d) refl

  module _ (laws : IsCacheBackend backend) where
    inner-forget_all :
        (ks : List CacheKey) (t : ℕ) (j : CacheKey) (b : TtlBackend B)
        → (backend.get_value t j (forget_all backend ks b).inner).0
          ≡ (if mem j ks then ok none else (backend.get_value t j b.inner).0)
    unfolding forget_all
    inner-forget_all [] t j b = refl
    inner-forget_all (k ∷ ks) t j b =
        rw (inner-forget_all ks t j (forget backend k b), laws.get_value-delete t k j b.inner)
          (if-or (mem j ks) (k == j) (ok none) (backend.get_value t j b.inner).0)

    -- What a reader sees, in terms of the two parts.
    abbrev read : ℕ → Option ℕ → Result E (Option CacheValue) → Result E (Option CacheValue)
    read t expiry found = if is_past t expiry then ok none else found

    get_value-read :
        (t : ℕ) (j : CacheKey) (b : TtlBackend B)
        → (get_value backend t j b).0 ≡ read t (get j b.expires) (backend.get_value t j b.inner).0
    unfolding get_value
    get_value-read t j b = ground arith

    later :
        (now t : ℕ) (o : Option ℕ) (found : Result E (Option CacheValue))
        → now ≤ t
        → read t (if is_past now o then none else o) (if is_past now o then ok none else found)
          ≡ read t o found
    later now t none found h = refl
    later now t (some e) found h = ground arith

    -- If in the inner backend a deleted key is gone and other keys are read as before, and each
    -- key has one time of expiry, then a sweep changes nothing that a reader sees: getting any key
    -- at that moment or later gives the same with the sweep as without it.
    pub get_value-evict_expired :
        (now t : ℕ) (j : CacheKey) (b : TtlBackend B)
        → Distinct b.expires
        → now ≤ t
        → (get_value backend t j (evict_expired backend now b)).0 ≡ (get_value backend t j b).0
    unfolding evict_expired
    get_value-evict_expired now t j b d h =
        rw
          (
            get_value-read t j (evict_expired backend now b),
            get_value-read t j b,
            get-evict_expired now j b d,
            inner-forget_all (past now b.expires) t j b,
            mem-past now j b.expires d,
          )
          (later now t (get j b.expires) (backend.get_value t j b.inner).0 h)
