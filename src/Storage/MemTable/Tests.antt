-- ===== src/Storage/MemTable/Tests.antt =====
-- The table in memory of nova-storage/src/lsm.rs at concrete inputs.
use nova_runtime.Base.{◌+◌, ◌≡◌, refl, List, [], ◌∷◌, none, some, nat_eq, list_eq}
use nova_runtime.Base.Assoc.{get, insert}
use nova_runtime.Storage.MemTable.{Key, new, get_value, get_with_tombstone, insert_value, delete}
use nova_runtime.Storage.MemTable.Contents.{
  Write, puts, deletes, apply_all, last_write, flatten, get_value-apply_all,
}
use nova_runtime.Storage.MemTable.Size.{footprint}

abbrev k1 : Key
k1 = 1 ∷ []

abbrev k2 : Key
k2 = 2 ∷ []

abbrev writes : List Write
writes = puts k1 (7 ∷ 7 ∷ []) ∷ puts k2 (8 ∷ []) ∷ deletes k1 ∷ []

deleted_is_known : get_with_tombstone k1 (apply_all writes new) ≡ some none
unfolding get_with_tombstone insert_value delete get insert
deleted_is_known = refl

kept : get_value k2 (apply_all writes new) ≡ some (8 ∷ [])
unfolding get_value insert_value delete get insert
kept = refl

-- A deletion leaves the bytes of the old value in the size.
overcounted : (apply_all writes new).size ≡ footprint (apply_all writes new).table + 2
unfolding insert_value delete get insert footprint
overcounted = refl

get_value-apply_all_example :
    (get_with_tombstone k1 (apply_all writes new)
      ≡ last_write k1 writes (get_with_tombstone k1 new))
    × (get_value k1 (apply_all writes new)
        ≡ flatten (last_write k1 writes (get_with_tombstone k1 new)))
get_value-apply_all_example = get_value-apply_all k1 writes new
