-- ===== src/Storage/MemTable/Contents.antt =====
-- What `MemTable` of nova-storage/src/lsm.rs holds after writes.
use nova_runtime.Base.{
  ◌≡◌, ◌∙◌, refl, ap, List, [], ◌∷◌, Option, none, some, Bool-cases, inl, inr, if◌then◌else◌, ◌==◌,
  nat_eq, list_eq, arith,
}
use nova_runtime.Base.Assoc.{get, get-insert}
use nova_runtime.Storage.MemTable.{
  Key, Value, MemTable, MemTableEntry, live_value, known_value, get_value, get_with_tombstone,
  insert_value, delete,
}

-- A write puts a value or a tombstone.
pub data Write : Type 0 where
  puts : Key → Value → Write
  deletes : Key → Write

abbrev pub apply : Write → MemTable → MemTable
apply (puts key value) m = insert_value key value m
apply (deletes key) m = delete key m

abbrev pub apply_all : List Write → MemTable → MemTable
apply_all [] m = m
apply_all (w ∷ ws) m = apply_all ws (apply w m)

-- What is known of a key after writes, if that was known before.
abbrev pub last_write : Key → List Write → Option (Option Value) → Option (Option Value)
last_write key [] known = known
last_write key (puts k value ∷ ws) known =
    last_write key ws (if k == key then some (some value) else known)
last_write key (deletes k ∷ ws) known = last_write key ws (if k == key then some none else known)

get-insert_value :
    (key k : Key) (value : Value) (m : MemTable)
    → get_with_tombstone key (insert_value k value m)
      ≡ (if k == key then some (some value) else get_with_tombstone key m)
unfolding get_with_tombstone insert_value
get-insert_value key k value m =
    rw (get-insert k key (record { value = value; flags = 0 }) m.table)
      (elim (Bool-cases (k == key)) [ inl h ↦ rw h refl | inr h ↦ rw h refl ])

get-delete :
    (key k : Key) (m : MemTable)
    → get_with_tombstone key (delete k m)
      ≡ (if k == key then some none else get_with_tombstone key m)
unfolding get_with_tombstone delete
get-delete key k m =
    rw (get-insert k key (record { value = []; flags = 1 }) m.table)
      (elim (Bool-cases (k == key)) [ inl h ↦ rw h refl | inr h ↦ rw h refl ])

-- `Option::flatten`.
abbrev pub flatten : Option (Option Value) → Option Value
flatten none = none
flatten (some v) = v

flatten-known : (o : Option MemTableEntry) → live_value o ≡ flatten (known_value o)
flatten-known none = refl
flatten-known (some entry) = ground arith

get_with_tombstone-apply_all :
    (key : Key) (ws : List Write) (m : MemTable)
    → get_with_tombstone key (apply_all ws m) ≡ last_write key ws (get_with_tombstone key m)
get_with_tombstone-apply_all key [] m = refl
get_with_tombstone-apply_all key (puts k v ∷ ws) m =
    get_with_tombstone-apply_all key ws (insert_value k v m)
    ∙ ap (λ (o : Option (Option Value)). last_write key ws o) (get-insert_value key k v m)
get_with_tombstone-apply_all key (deletes k ∷ ws) m =
    get_with_tombstone-apply_all key ws (delete k m)
    ∙ ap (λ (o : Option (Option Value)). last_write key ws o) (get-delete key k m)

get_value-known : (key : Key) (m : MemTable) → get_value key m ≡ flatten (get_with_tombstone key m)
unfolding get_value get_with_tombstone
get_value-known key m = flatten-known (get key m.table)

-- After any writes to a table, the read with tombstones gives the last write of the key, a value
-- or a deletion, or what it gave before if there is none; the plain read gives that value, and
-- nothing for a deletion.
pub get_value-apply_all :
    (key : Key) (ws : List Write) (m : MemTable)
    → (get_with_tombstone key (apply_all ws m) ≡ last_write key ws (get_with_tombstone key m))
      × (get_value key (apply_all ws m) ≡ flatten (last_write key ws (get_with_tombstone key m)))
get_value-apply_all key ws m = (
  get_with_tombstone-apply_all key ws m,
  get_value-known key (apply_all ws m) ∙ ap flatten (get_with_tombstone-apply_all key ws m),
)
