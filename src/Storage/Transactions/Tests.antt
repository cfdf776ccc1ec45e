-- ===== src/Storage/Transactions/Tests.antt =====
-- The transactions of nova-storage/src/txn.rs at concrete inputs.
use nova_runtime.Base.{◌≡◌, refl, [], ◌∷◌, Option, none, some, nat_eq, list_eq, Result, ok}
use nova_runtime.Base.Assoc.{get, insert}
use nova_runtime.Storage.Transactions.{
  Key, Value, TransactionManager, TransactionError, new, begin, register_write, snapshot_read,
  first_write, read_committed, optimistic, active,
}

abbrev k1 : Key
k1 = 1 ∷ []

abbrev old_value : Option Value
old_value = some (10 ∷ [])

abbrev new_value : Option Value
new_value = some (20 ∷ [])

abbrev empty_store : Key → Result TransactionError (Option Value)
empty_store key = ok none

abbrev started : TransactionManager
started = (begin read_committed optimistic new).0

abbrev written_once : Result TransactionError TransactionManager
written_once = register_write 1 k1 old_value started

-- The manager after one write of the key.
abbrev after_one : TransactionManager
after_one = record {
  next_txn_id = 2;
  active_txns =
      (
        1,
        record {
          id = 1;
          snapshot = record { transaction_id = 1; sequence = 0 };
          status = active;
          isolation = read_committed;
          lock_mode = optimistic;
          write_set = (k1, old_value) ∷ [];
        },
      )
      ∷ [];
}

first_is_written : written_once ≡ ok after_one
unfolding register_write begin insert get
first_is_written = refl

abbrev written_twice : Result TransactionError TransactionManager
written_twice = register_write 1 k1 new_value after_one

abbrev after_two : TransactionManager
after_two = record {
  next_txn_id = 2;
  active_txns =
      (
        1,
        record {
          id = 1;
          snapshot = record { transaction_id = 1; sequence = 0 };
          status = active;
          isolation = read_committed;
          lock_mode = optimistic;
          write_set = (k1, old_value) ∷ (k1, new_value) ∷ [];
        },
      )
      ∷ [];
}

second_is_written : register_write 1 k1 new_value after_one ≡ ok after_two
unfolding register_write insert get
second_is_written = refl

-- The transaction still reads its first write.
stale_read : snapshot_read 1 k1 empty_store after_two ≡ ok old_value
unfolding snapshot_read first_write get
stale_read = refl
