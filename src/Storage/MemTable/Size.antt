-- ===== src/Storage/MemTable/Size.antt =====
-- The size that `MemTable` of nova-storage/src/lsm.rs keeps.
use nova_runtime.Base.{
  ℕ, ◌+◌, ◌≤◌, ◌≡◌, ap, true, List, [], ◌∷◌, none, some, Option-cases, Bool-cases, inl, inr, length,
  ◌==◌, nat_eq, list_eq, list_beq_iff, arith,
}
use nova_runtime.Base.Assoc.{Assoc, get, insert}
use nova_runtime.Storage.MemTable.{Key, Value, MemTable, MemTableEntry, new, insert_value, delete}
use nova_runtime.Storage.MemTable.Contents.{Write, puts, deletes, apply_all}

-- The bytes of all keys and values, and 8 for each entry.
unfoldable pub footprint : Assoc Key MemTableEntry → ℕ
footprint [] = 0
footprint ((k, e) ∷ m) = (length k + length e.value + 8) + footprint m

footprint-insert_new :
    (k : Key) (e : MemTableEntry) (m : Assoc Key MemTableEntry)
    → get k m ≡ none
    → footprint (insert k e m) ≡ footprint m + (length k + length e.value + 8)
unfolding footprint insert get
footprint-insert_new k e [] h = omega arith
footprint-insert_new k e ((j, w) ∷ m) h = elim (Bool-cases (j == k)) [
  | inl same ↦ absurd (ground (arith, same, h))
  | inr other ↦ rw other (omega (arith, footprint-insert_new k e m (ground (arith, other, h))))
]

found_here :
    (k j : Key) (w old : MemTableEntry) (m : Assoc Key MemTableEntry)
    → (j == k) ≡ true
    → get k ((j, w) ∷ m) ≡ some old
    → w ≡ old
unfolding get
found_here k j w old m same h = ground (arith, same, h)

footprint-insert_old :
    (k : Key) (e old : MemTableEntry) (m : Assoc Key MemTableEntry)
    → get k m ≡ some old
    → footprint (insert k e m) + length old.value ≡ footprint m + length e.value
unfolding footprint insert get
footprint-insert_old k e old [] h = cc
footprint-insert_old k e old ((j, w) ∷ m) h = elim (Bool-cases (j == k)) [
  | inl same ↦
      let key : j ≡ k = (list_beq_iff j k).0 same in
      let entry : w ≡ old = found_here k j w old m same h in
      rw same (
        omega
          (arith, ap (λ (t : Key). length t) key, ap (λ (t : MemTableEntry). length t.value) entry))
  | inr other ↦ rw other (omega (arith, footprint-insert_old k e old m (ground (arith, other, h))))
]

value-le-footprint :
    (k : Key) (old : MemTableEntry) (m : Assoc Key MemTableEntry)
    → get k m ≡ some old
    → length old.value ≤ footprint m
unfolding footprint get
value-le-footprint k old [] h = cc
value-le-footprint k old ((j, w) ∷ m) h = elim (Bool-cases (j == k)) [
  | inl same ↦
      omega (arith, ap (λ (t : MemTableEntry). length t.value) (found_here k j w old m same h))
  | inr other ↦ omega (arith, value-le-footprint k old m (ground (arith, other, h)))
]

-- A table whose size counts every byte that it holds.
record IsCounted (m : MemTable) : Type 0 where
  pub counted : footprint m.table ≤ m.size

insert_value-IsCounted :
    (k : Key) (v : Value) (m : MemTable) → IsCounted m → IsCounted (insert_value k v m)
unfolding insert_value
insert_value-IsCounted k v m c = elim (Option-cases (get k m.table)) [
  | inl h ↦ record {
    counted =
        rw (h, insert_value)
          (omega
            (arith, c.counted, footprint-insert_new k (record { value = v; flags = 0 }) m.table h));
  }
  | inr (old, h) ↦ record {
    counted =
        rw (h, insert_value)
          (omega (
            arith,
            c.counted,
            footprint-insert_old k (record { value = v; flags = 0 }) old m.table h,
          ));
  }
]

delete-IsCounted : (k : Key) (m : MemTable) → IsCounted m → IsCounted (delete k m)
unfolding delete
delete-IsCounted k m c = elim (Option-cases (get k m.table)) [
  | inl h ↦ record {
    counted =
        rw (h, delete)
          (omega (
            arith,
            c.counted,
            footprint-insert_new k (record { value = []; flags = 1 }) m.table h,
          ));
  }
  | inr (old, h) ↦ record {
    counted =
        rw (h, delete)
          (omega (
            arith,
            c.counted,
            footprint-insert_old k (record { value = []; flags = 1 }) old m.table h,
          ));
  }
]

apply_all-IsCounted : (ws : List Write) (m : MemTable) → IsCounted m → IsCounted (apply_all ws m)
apply_all-IsCounted [] m c = c
apply_all-IsCounted (puts k v ∷ ws) m c =
    apply_all-IsCounted ws (insert_value k v m) (insert_value-IsCounted k v m c)
apply_all-IsCounted (deletes k ∷ ws) m c =
    apply_all-IsCounted ws (delete k m) (delete-IsCounted k m c)

-- After any writes to a new table its size is at least the bytes of all keys and values in it and
-- 8 for each entry.
pub footprint-apply_all :
    (ws : List Write) → footprint (apply_all ws new).table ≤ (apply_all ws new).size
unfolding footprint
footprint-apply_all ws = (apply_all-IsCounted ws new (record { counted = omega arith })).counted
