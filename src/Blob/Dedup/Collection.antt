-- ===== src/Blob/Dedup/Collection.antt =====
-- What collect_unreferenced of nova-blob/src/dedup.rs returns.
use nova_runtime.Base.{
  ℕ, ◌+◌, ◌-◌, ◌%◌, ◌^◌, ◌≤◌, ◌≡◌, ◌∙◌, refl, sym, Bool, true, false, List, [], ◌∷◌, none, some,
  Option-cases, Bool-cases, ◌⊎◌, ◌↔◌, inl, inr, map, retain, Any, if◌then◌else◌, Text, ◌==◌, nat_eq,
  list_eq, list_beq_iff, arith,
}
use mathlib.Core.Path.{subst}
use nova_runtime.Base.Assoc.{get, insert, remove, Distinct, insert-Distinct, remove-Distinct}
use nova_runtime.Blob.Dedup.{
  ChunkRecord, DeduplicationEngine, record_chunk, release_chunk, is_collectable, age_of,
  collect_unreferenced, remove_tracked,
}
use nova_runtime.Blob.Dedup.Counting.{Call, records, releases, forgets, step, run}

-- Each record stands under its own hash.
abbrev Keyed : DeduplicationEngine → Type 0
Keyed [] = Unit
Keyed ((k, r) ∷ m) = (r.hash ≡ k) × Keyed m

insert-Keyed :
    (k : Text) (r : ChunkRecord) (m : DeduplicationEngine)
    → r.hash ≡ k
    → Keyed m
    → Keyed (insert k r m)
unfolding insert
insert-Keyed k r [] h d = (h, tt)
insert-Keyed k r ((j, s) ∷ m) h d = elim (Bool-cases (j == k)) [
  | inl e ↦ rw e (h, d.1)
  | inr e ↦ rw e (d.0, insert-Keyed k r m h d.1)
]

remove-Keyed : (k : Text) (m : DeduplicationEngine) → Keyed m → Keyed (remove k m)
unfolding remove
remove-Keyed k [] d = tt
remove-Keyed k ((j, s) ∷ m) d = elim (Bool-cases (j == k)) [
  | inl e ↦ rw e (remove-Keyed k m d.1)
  | inr e ↦ rw e (d.0, remove-Keyed k m d.1)
]

get-Keyed :
    (k : Text) (m : DeduplicationEngine) {r : ChunkRecord} → Keyed m → get k m ≡ some r → r.hash ≡ k
unfolding get
get-Keyed k [] d h = cc
get-Keyed k ((j, s) ∷ m) {r} d h = ground (arith, list_beq_iff j k, d.0, get-Keyed k m {r = r} d.1)

record IsTable (m : DeduplicationEngine) : Type 0 where
  pub distinct : Distinct m
  pub keyed : Keyed m

insert-IsTable :
    (k : Text) (r : ChunkRecord) (m : DeduplicationEngine)
    → r.hash ≡ k
    → IsTable m
    → IsTable (insert k r m)
insert-IsTable k r m h t = record {
  distinct = insert-Distinct k r m t.distinct;
  keyed = insert-Keyed k r m h t.keyed;
}

record_chunk-IsTable :
    (hash : Text) (size now : ℕ) (m : DeduplicationEngine)
    → IsTable m
    → IsTable (record_chunk hash size now m).0
unfolding record_chunk
record_chunk-IsTable hash size now m t = elim (Option-cases (get hash m)) [
  | inl e ↦ rw (e, record_chunk) (insert-IsTable hash _ m refl t)
  | inr (r, e) ↦ rw (e, record_chunk) (insert-IsTable hash _ m (get-Keyed hash m t.keyed e) t)
]

release_chunk-IsTable :
    (hash : Text) (m : DeduplicationEngine) → IsTable m → IsTable (release_chunk hash m).0
unfolding release_chunk
release_chunk-IsTable hash m t = elim (Option-cases (get hash m)) [
  | inl e ↦ rw (e, release_chunk) t
  | inr (r, e) ↦ rw (e, release_chunk) (insert-IsTable hash _ m (get-Keyed hash m t.keyed e) t)
]

step-IsTable : (c : Call) (m : DeduplicationEngine) → IsTable m → IsTable (step c m)
unfolding remove_tracked
step-IsTable (records hash size now) m t = record_chunk-IsTable hash size now m t
step-IsTable (releases hash) m t = release_chunk-IsTable hash m t
step-IsTable (forgets hash) m t = record {
  distinct = remove-Distinct hash m t.distinct;
  keyed = remove-Keyed hash m t.keyed;
}

run-IsTable : (cs : List Call) (m : DeduplicationEngine) → IsTable m → IsTable (run cs m)
run-IsTable [] m t = t
run-IsTable (c ∷ cs) m t = run-IsTable cs (step c m) (step-IsTable c m t)

Any-if :
    (h : Text) (b : Bool) (r : ChunkRecord) (rs : List ChunkRecord)
    → Any (λ (t : Text). t ≡ h) (map (λ (r : ChunkRecord). r.hash) (if b then r ∷ rs else rs))
    → ((b ≡ true) × (r.hash ≡ h)) ⊎ Any (λ (t : Text). t ≡ h) (map (λ (r : ChunkRecord). r.hash) rs)
Any-if h true r rs (inl a) = inl (refl, a)
Any-if h true r rs (inr a) = inr a
Any-if h false r rs a = inr a

if-Any :
    (h : Text) (b : Bool) (r : ChunkRecord) (rs : List ChunkRecord)
    → ((b ≡ true) × (r.hash ≡ h)) ⊎ Any (λ (t : Text). t ≡ h) (map (λ (r : ChunkRecord). r.hash) rs)
    → Any (λ (t : Text). t ≡ h) (map (λ (r : ChunkRecord). r.hash) (if b then r ∷ rs else rs))
if-Any h true r rs (inl a) = inl a.1
if-Any h true r rs (inr a) = inr a
if-Any h false r rs (inl a) = absurd (cc a.0)
if-Any h false r rs (inr a) = a

module _ (now grace : ℕ) (h : Text) where
  abbrev Found : DeduplicationEngine → Type 0
  Found m = (r : ChunkRecord) × (get h m ≡ some r) × (is_collectable now grace r ≡ true)

  get-here :
      (k : Text) (r : ChunkRecord) (m : DeduplicationEngine) → k ≡ h → get h ((k, r) ∷ m) ≡ some r
  unfolding get
  get-here k r m e = ground (arith, list_beq_iff k h, e)

  get-later :
      (k : Text) (r s : ChunkRecord) (m : DeduplicationEngine)
      → get k m ≡ none
      → get h m ≡ some s
      → get h ((k, r) ∷ m) ≡ some s
  unfolding get
  get-later k r s m d e = elim (Bool-cases (k == h)) [
    | inl same ↦
        absurd
          (ground (arith, e, subst (λ (t : Text). get t m ≡ none) ((list_beq_iff k h).0 same) d))
    | inr other ↦ rw other e
  ]

  get-tail :
      (k : Text) (r s : ChunkRecord) (m : DeduplicationEngine)
      → (k == h) ≡ false
      → get h ((k, r) ∷ m) ≡ some s
      → get h m ≡ some s
  unfolding get
  get-tail k r s m other found = ground (arith, other, found)

  collectable-here :
      (k : Text) (r s : ChunkRecord) (m : DeduplicationEngine)
      → k ≡ h
      → get h ((k, r) ∷ m) ≡ some s
      → is_collectable now grace s ≡ true
      → is_collectable now grace r ≡ true
  collectable-here k r s m e found old =
      let same : s ≡ r = cc (get-here k r m e, found) in
      subst (λ (t : ChunkRecord). is_collectable now grace t ≡ true) same old

  collected-Found :
      (m : DeduplicationEngine)
      → Distinct m
      → Keyed m
      → Any (λ (t : Text). t ≡ h) (collect_unreferenced now grace m)
      → Found m
  unfolding collect_unreferenced
  collected-Found [] d k a = absurd a
  collected-Found ((j, r) ∷ m) d k a =
      elim (Any-if h (is_collectable now grace r) r
        (retain (is_collectable now grace) (map (λ (e : Text × ChunkRecord). e.1) m)) a) [
          | inl (e, here) ↦ (r, get-here j r m (sym k.0 ∙ here), e)
          | inr later ↦
              let (s, found, e) = collected-Found m d.1 k.1 later in
              (s, get-later j r s m d.0 found, e)
        ]

  Found-collected :
      (m : DeduplicationEngine)
      → Keyed m
      → Found m
      → Any (λ (t : Text). t ≡ h) (collect_unreferenced now grace m)
  unfolding collect_unreferenced get
  Found-collected [] k (s, found, e) = cc
  Found-collected ((j, r) ∷ m) k (s, found, e) =
      if-Any h (is_collectable now grace r) r
        (retain (is_collectable now grace) (map (λ (e : Text × ChunkRecord). e.1) m))
        (elim (Bool-cases (j == h)) [
          | inl same ↦ inl (
            collectable-here j r s m ((list_beq_iff j h).0 same) found e,
            k.0 ∙ (list_beq_iff j h).0 same,
          )
          | inr other ↦ inr (Found-collected m k.1 (s, get-tail j r s m other found, e))
        ])

-- The test of the collection: no reference, and an age of at least the grace period.
is_collectable_iff :
    (now grace : ℕ) (r : ChunkRecord)
    → (is_collectable now grace r ≡ true)
      ↔ ((r.ref_count ≡ 0) × (grace ≤ ((now + 2 ^ 64) - r.created_at) % 2 ^ 64))
unfolding is_collectable age_of
is_collectable_iff now grace r = (λ h. ground arith, λ h. ground (arith, h.0, h.1))

-- After any calls on a new table, the collected hashes are exactly those with a record in the
-- table whose count of references is 0 and whose age, modulo 2^64, is at least the grace period.
pub collect_unreferenced_iff :
    (now grace : ℕ) (h : Text) (cs : List Call)
    → Any (λ (t : Text). t ≡ h) (collect_unreferenced now grace (run cs [])) ↔ (
        (r : ChunkRecord) × (get h (run cs []) ≡ some r)
        × (r.ref_count ≡ 0)
        × (grace ≤ ((now + 2 ^ 64) - r.created_at) % 2 ^ 64))
collect_unreferenced_iff now grace h cs =
    let t = run-IsTable cs [] (record { distinct = tt; keyed = tt }) in
    (
      λ a.
          let (r, e, old) = collected-Found now grace h (run cs []) t.distinct t.keyed a in
          let (free, aged) = (is_collectable_iff now grace r).0 old in (r, e, free, aged),
      λ (r, e, free, aged).
          Found-collected now grace h (run cs []) t.keyed
            (r, e, (is_collectable_iff now grace r).1 (free, aged)),
    )
