-- ===== src/Storage/MemTable.antt =====
-- The table in memory before it is flushed: `MemTable` of nova-storage/src/lsm.rs. Keys and values are
-- lists of bytes. The `BTreeMap` is read by key only: its iterators, which go in the order of the
-- keys, are not modelled.
pub mod Contents
pub mod Size
pub mod Tests
use nova_runtime.Base.{
  ℕ, ◌+◌, ◌-◌, ◌%◌, Bool, true, false, not, List, [], ◌∷◌, Option, none, some, length, nat_beq,
  if◌then◌else◌, Eq, ◌==◌, nat_eq, list_eq,
}
use nova_runtime.Base.Assoc.{Assoc, get, insert}

abbrev pub Key : Type 0
Key = List ℕ

abbrev pub Value : Type 0
Value = List ℕ

pub record MemTableEntry : Type 0 where
  pub value : Value
  pub flags : ℕ

pub record MemTable : Type 0 where
  pub table : Assoc Key MemTableEntry
  pub size : ℕ
  pub immutable : Bool

abbrev pub new : MemTable
new = record { table = []; size = 0; immutable = false }

-- `flags & 0x01 != 0`.
abbrev pub is_tombstone : MemTableEntry → Bool
is_tombstone entry = not (nat_beq (entry.flags % 2) 0)

abbrev pub live_value : Option MemTableEntry → Option Value
live_value none = none
live_value (some entry) = if is_tombstone entry then none else some entry.value

unfoldable pub get_value : Key → MemTable → Option Value
get_value key m = live_value (get key m.table)

abbrev pub known_value : Option MemTableEntry → Option (Option Value)
known_value none = none
known_value (some entry) = if is_tombstone entry then some none else some (some entry.value)

unfoldable pub get_with_tombstone : Key → MemTable → Option (Option Value)
get_with_tombstone key m = known_value (get key m.table)

-- The size after an insertion, by the entry that stood at the key.
abbrev pub size_after_insert : Key → Value → ℕ → Option MemTableEntry → ℕ
size_after_insert key value size none = size + (length key + length value + 8)
size_after_insert key value size (some old) = (size - length old.value) + length value

unfoldable pub insert_value : Key → Value → MemTable → MemTable
insert_value key value m = record m {
  table = insert key (record { value = value; flags = 0 }) m.table;
  size = size_after_insert key value m.size (get key m.table);
}

abbrev pub size_after_delete : Key → ℕ → Option MemTableEntry → ℕ
size_after_delete key size none = size + (length key + 8)
size_after_delete key size (some old) = size

unfoldable pub delete : Key → MemTable → MemTable
delete key m = record m {
  table = insert key (record { value = []; flags = 1 }) m.table;
  size = size_after_delete key m.size (get key m.table);
}

unfoldable pub is_empty : MemTable → Bool
is_empty m = nat_beq (length m.table) 0

unfoldable pub set_immutable : MemTable → MemTable
set_immutable m = record m { immutable = true }
