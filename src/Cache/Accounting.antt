-- ===== src/Cache/Accounting.antt =====
-- The bytes that nova-cache/src/backend/hashmap.rs counts, and those that its entries take.
use nova_runtime.Base.{
  ℕ, zero, suc, ◌+◌, ◌^◌, ◌<◌, ◌≤◌, ◌≡◌, refl, sym, ap, ◌∙◌, Bool, true, [], ◌∷◌, ◌++◌, Option,
  none, some, length, length-append, ltb, if◌then◌else◌, wrapping_add, arith, Bool-cases, inl, inr,
  ◌⊎◌, list_eq, nat_eq, ◌==◌, list_beq_iff, append-nil, append_assoc, ==_refl,
}
use nova_runtime.Base.Assoc.{
  Assoc, get, remove, Distinct, remove_absent, get-append-none, get-remove_self,
}
use nova_runtime.Cache.{CacheKey, CacheValue, CacheEntry}
use nova_runtime.Cache.Lru.{LruCache, IsLruCache}
use nova_runtime.Cache.HashMapBackend.{
  HashMapBackend, entry_size, is_expired, get_value, set, make_room, evicted, store_entry,
  new_entry, delete, delete_entry,
}

-- The bytes of all entries.
unfoldable pub footprint : Assoc CacheKey CacheEntry → ℕ
footprint [] = 0
footprint (entry ∷ rest) = entry_size entry.0 (entry.1.value) + footprint rest

footprint-append :
    (xs ys : Assoc CacheKey CacheEntry) → footprint (xs ++ ys) ≡ footprint xs + footprint ys
unfolding footprint
footprint-append [] ys = omega arith
footprint-append (x ∷ xs) ys = omega (arith, footprint-append xs ys)

some_inj : {a b : CacheEntry} → ◌≡◌ {A = Option CacheEntry} (some a) (some b) → a ≡ b
some_inj e = cc

footprint-split :
    (m xs : Assoc CacheKey CacheEntry) (entry : CacheKey × CacheEntry)
    → m ≡ xs ++ (entry ∷ [])
    → footprint m ≡ footprint xs + entry_size entry.0 (entry.1.value)
unfolding footprint
footprint-split m xs entry e = rw e (omega (arith, footprint-append xs (entry ∷ [])))

no-entries : (m : Assoc CacheKey CacheEntry) → length m ≤ 0 → m ≡ []
no-entries [] h = refl
no-entries (x ∷ m) h = absurd (omega arith)

pub footprint-remove :
    (k : CacheKey) (m : Assoc CacheKey CacheEntry) (e : CacheEntry)
    → Distinct m
    → get k m ≡ some e
    → footprint m ≡ footprint (remove k m) + entry_size k e.value
unfolding footprint get remove
footprint-remove k [] e d h = cc
footprint-remove k ((j, w) ∷ m) e d h = elim (Bool-cases (j == k)) [
  | inl b ↦
      let p : j ≡ k = (list_beq_iff j k).0 b in
      let q : w ≡ e = some_inj (ap (λ (t : Bool). if t then some w else get k m) (sym b) ∙ h) in
      rw (b, remove_absent k m (ap (λ (i : CacheKey). get i m) (sym p) ∙ d.0), p, q) (omega arith)
  | inr b ↦
      let later : get k m ≡ some e = ap (λ (t : Bool). if t then some w else get k m) (sym b) ∙ h in
      rw b (omega (arith, footprint-remove k m e d.1 later))
]

module _ {C : Type 0} (lru : LruCache C) where
  -- The count is that of the entries, and fits its type.
  pub record IsExact (b : HashMapBackend C) : Type 0 where
    pub exact : b.current_bytes ≡ footprint (lru.iter b.cache)
    pub bounded : b.current_bytes < 2 ^ 64

  module _ (laws : IsLruCache lru) where
    -- What room has been made: some of the least recently used entries are gone.
    record HasRoom (new_size : ℕ) (b b' : HashMapBackend C) : Type 0 where
      is_exact : IsExact b'
      same_max : b'.max_bytes ≡ b.max_bytes
      gone : Assoc CacheKey CacheEntry
      split : lru.iter b.cache ≡ lru.iter b'.cache ++ gone
      fits : (lru.iter b'.cache ≡ []) ⊎ (b'.current_bytes + new_size ≤ b.max_bytes)

    room_now :
        (new_size : ℕ) (b : HashMapBackend C)
        → IsExact b
        → (lru.iter b.cache ≡ []) ⊎ (b.current_bytes + new_size ≤ b.max_bytes)
        → HasRoom new_size b b
    room_now new_size b x f = record {
      is_exact = x;
      same_max = refl;
      gone = [];
      split = sym (append-nil _);
      fits = f;
    }

    evicted-IsExact :
        (b : HashMapBackend C) (entry : CacheKey × CacheEntry) (rest : C)
        → lru.iter b.cache ≡ lru.iter rest ++ (entry ∷ [])
        → IsExact b
        → IsExact (evicted lru entry.0 entry.1 rest b)
    evicted-IsExact b entry rest split x =
        let parts = footprint-split (lru.iter b.cache) (lru.iter rest) entry split in
        record { exact = omega (arith, parts, x.exact, x.bounded); bounded = omega arith }

    evict-HasRoom :
        (new_size : ℕ) (b : HashMapBackend C) (entry : CacheKey × CacheEntry) (rest : C)
        (b' : HashMapBackend C)
        → lru.iter b.cache ≡ lru.iter rest ++ (entry ∷ [])
        → HasRoom new_size (evicted lru entry.0 entry.1 rest b) b'
        → HasRoom new_size b b'
    evict-HasRoom new_size b entry rest b' split r = record {
      is_exact = r.is_exact;
      same_max = r.same_max;
      gone = r.gone ++ (entry ∷ []);
      split =
          split
          ∙ ap (λ (m : Assoc CacheKey CacheEntry). m ++ (entry ∷ [])) r.split
          ∙ append_assoc (lru.iter b'.cache) r.gone (entry ∷ []);
      fits = r.fits;
    }

    make_room-HasRoom :
        (fuel new_size : ℕ) (b : HashMapBackend C)
        → IsExact b
        → b.current_bytes + new_size < 2 ^ 64
        → length (lru.iter b.cache) ≤ fuel
        → HasRoom new_size b (make_room lru fuel new_size b)
    unfolding make_room
    make_room-HasRoom zero new_size b x l f =
        room_now new_size b x (inl (no-entries (lru.iter b.cache) f))
    make_room-HasRoom (suc fuel) new_size b x l f =
        elim (Bool-cases (ltb b.max_bytes (wrapping_add b.current_bytes new_size))) [
          | inl full ↦ elim (laws.pop_lru_last b.cache) [
            | inl last ↦ rw (full, last.1) (room_now new_size b x (inl last.0))
            | inr (entry, rest, e, split) ↦
                let out = evicted lru entry.0 entry.1 rest b in
                let x' = evicted-IsExact b entry rest split x in
                rw (full, e)
                  (evict-HasRoom new_size b entry rest _ split (
                    make_room-HasRoom fuel new_size out x'
                      (omega (
                        arith,
                        x'.exact,
                        x.exact,
                        footprint-split (lru.iter b.cache) (lru.iter rest) entry split,
                      ))
                      (omega (arith, ap length split, length-append (lru.iter rest) (entry ∷ [])))))
          ]
          | inr free ↦ rw free (room_now new_size b x (inr (ground (arith, l, free))))
        ]

    room-le :
        (new_size : ℕ) (b m : HashMapBackend C)
        → new_size ≤ b.max_bytes
        → HasRoom new_size b m
        → m.current_bytes + new_size ≤ b.max_bytes
    unfolding footprint
    room-le new_size b m small r = elim (r.fits) [
      | inl e ↦ omega (arith, r.is_exact.exact ∙ ap footprint e, small)
      | inr l ↦ l
    ]

    stored :
        (now : ℕ) (key : CacheKey) (value : CacheValue) (ttl : Option ℕ) (b m : HashMapBackend C)
        → get key (lru.iter b.cache) ≡ none
        → length (lru.iter b.cache) < lru.cap
        → HasRoom (entry_size key value) b m
        → lru.iter (lru.put key (new_entry lru now value ttl) m.cache)
          ≡ (key, new_entry lru now value ttl) ∷ lru.iter m.cache
    stored now key value ttl b m absent few r =
        let gone = remove_absent key (lru.iter m.cache) (
          get-append-none key (lru.iter m.cache) r.gone
            (ap (λ (es : Assoc CacheKey CacheEntry). get key es) (sym r.split) ∙ absent)) in
        laws.iter-put key (new_entry lru now value ttl) m.cache
          (rw gone (omega (arith, few, ap length r.split, length-append (lru.iter m.cache) r.gone)))
        ∙ ap (λ (es : Assoc CacheKey CacheEntry). (key, new_entry lru now value ttl) ∷ es) gone

    stored-IsExact :
        (now : ℕ) (key : CacheKey) (value : CacheValue) (ttl : Option ℕ) (b m : HashMapBackend C)
        → get key (lru.iter b.cache) ≡ none
        → length (lru.iter b.cache) < lru.cap
        → entry_size key value ≤ b.max_bytes
        → b.current_bytes + entry_size key value < 2 ^ 64
        → b.max_bytes < 2 ^ 64
        → HasRoom (entry_size key value) b m
        → let b' = store_entry lru key (new_entry lru now value ttl) (entry_size key value) m in
          IsExact b'
          × (b'.current_bytes ≤ b.max_bytes)
          × (lru.peek key b'.cache ≡ some (new_entry lru now value ttl))
    unfolding footprint get
    stored-IsExact now key value ttl b m absent few small l k r =
        let e = stored now key value ttl b m absent few r in
        let taken = room-le (entry_size key value) b m small r in
        (
          record {
            exact = rw e (omega (arith, r.is_exact.exact, taken, k));
            bounded = omega arith;
          },
          omega (arith, taken, k),
          laws.peek_eq key _
              ∙ ap (λ (es : Assoc CacheKey CacheEntry). get key es) e
              ∙ rw (==_refl key) refl,
        )

    -- If the crate lru does as documented, the count of bytes is that of the entries, the key has
    -- none, there is one more entry to spare, the new entry fits the limit and its sum with the
    -- count 64 bits, then after storing it the count is again that of the entries and within the
    -- limit, and the key has the new entry.
    pub set-IsExact :
        (now : ℕ) (key : CacheKey) (value : CacheValue) (ttl : Option ℕ) (b : HashMapBackend C)
        → IsExact b
        → get key (lru.iter b.cache) ≡ none
        → length (lru.iter b.cache) < lru.cap
        → entry_size key value ≤ b.max_bytes
        → b.current_bytes + entry_size key value < 2 ^ 64
        → b.max_bytes < 2 ^ 64
        → let b' = set lru now key value ttl b in
          IsExact b'
          × (b'.current_bytes ≤ b.max_bytes)
          × (lru.peek key b'.cache ≡ some (new_entry lru now value ttl))
    unfolding set
    set-IsExact now key value ttl b x absent few small l k =
        rw (laws.peek_eq key b.cache ∙ absent) (
          stored-IsExact now key value ttl b _ absent few small l k (
            make_room-HasRoom (length (lru.iter b.cache)) (entry_size key value) b x l
              (omega arith)))

    peek-pop : (key : CacheKey) (c : C) → lru.peek key (lru.pop key c) ≡ none
    peek-pop key c =
        laws.peek_eq key (lru.pop key c)
        ∙ ap (λ (es : Assoc CacheKey CacheEntry). get key es) (laws.iter-pop key c)
        ∙ get-remove_self key (lru.iter c)

    footprint-pop :
        (key : CacheKey) (c : C) (entry : CacheEntry)
        → get key (lru.iter c) ≡ some entry
        → footprint (lru.iter c) ≡ footprint (lru.iter (lru.pop key c)) + entry_size key entry.value
    footprint-pop key c entry e =
        rw (laws.iter-pop key c) (footprint-remove key (lru.iter c) entry (laws.iter-Distinct c) e)

    delete_entry-IsExact :
        (key : CacheKey) (o : Option CacheEntry) (b : HashMapBackend C)
        → get key (lru.iter b.cache) ≡ o
        → IsExact b
        → let out = delete_entry lru key o b in IsExact out.1 × (lru.peek key (out.1).cache ≡ none)
    delete_entry-IsExact key none b e x = (x, laws.peek_eq key b.cache ∙ e)
    delete_entry-IsExact key (some entry) b e x = (
      record {
        exact = omega (arith, footprint-pop key b.cache entry e, x.exact, x.bounded);
        bounded = omega arith;
      },
      peek-pop key b.cache,
    )

    -- A key is gone after its deletion, and the count stays exact.
    pub delete-IsExact :
        (key : CacheKey) (b : HashMapBackend C)
        → IsExact b
        → let out = delete lru key b in IsExact out.1 × (lru.peek key (out.1).cache ≡ none)
    unfolding delete
    delete-IsExact key b x =
        delete_entry-IsExact key (lru.peek key b.cache) b (sym (laws.peek_eq key b.cache)) x

    -- If the crate lru does as documented and the count of bytes is that of the entries, then
    -- getting a key whose entry has expired gives nothing and takes the entry out, and the count
    -- is then above that of the entries by the size of that entry.
    pub get_value-expired :
        (now : ℕ) (key : CacheKey) (b : HashMapBackend C) (entry : CacheEntry)
        → IsExact b
        → get key (lru.iter b.cache) ≡ some entry
        → is_expired now entry.expires_at ≡ true
        → let out = get_value lru now key b in
          (out.0 ≡ none)
          × (lru.peek key (out.1).cache ≡ none)
          × ((out.1).current_bytes
              ≡ footprint (lru.iter (out.1).cache) + entry_size key entry.value)
    unfolding get_value
    get_value-expired now key b entry x e d =
        rw (laws.peek_eq key b.cache ∙ e, d)
          (refl, peek-pop key b.cache, x.exact ∙ footprint-pop key b.cache entry e)
