-- ===== src/Storage/Transactions.antt =====
-- Transactions: nova-storage/src/txn.rs. Keys and values are lists of bytes, the store that a read
-- falls back to is an argument, and the counter of ids wraps around.
pub mod Reads
pub mod Tests
use nova_runtime.Base.{
  ℕ, ◌+◌, ◌%◌, ◌^◌, Bool, true, false, List, [], ◌∷◌, ◌++◌, Option, none, some, if◌then◌else◌, Text,
  Eq, ◌==◌, nat_eq, list_eq, Result, ok, err, wrapping_add,
}
use nova_runtime.Base.Assoc.{Assoc, get, insert, remove}

abbrev pub Key : Type 0
Key = List ℕ

abbrev pub Value : Type 0
Value = List ℕ

pub data TxnStatus : Type 0 where
  active committing committed aborted : TxnStatus

pub data LockMode : Type 0 where
  conservative optimistic : LockMode

pub data IsolationLevel : Type 0 where
  read_committed repeatable_read snapshot serializable : IsolationLevel

pub record Snapshot : Type 0 where
  pub transaction_id : ℕ
  pub sequence : ℕ

pub record Transaction : Type 0 where
  pub id : ℕ
  pub snapshot : Snapshot
  pub status : TxnStatus
  pub isolation : IsolationLevel
  pub lock_mode : LockMode
  pub write_set : List (Key × Option Value)

pub record TransactionManager : Type 0 where
  pub next_txn_id : ℕ
  pub active_txns : Assoc ℕ Transaction

-- `RuntimeError::TransactionError`, for its two reasons.
pub data TransactionError : Type 0 where
  not_found : ℕ → TransactionError
  inactive : TransactionError

abbrev pub new : TransactionManager
new = record { next_txn_id = 1; active_txns = [] }

unfoldable pub begin :
    IsolationLevel → LockMode → TransactionManager → TransactionManager × Transaction
begin isolation lock_mode tm =
    let txn : Transaction = record {
      id = tm.next_txn_id;
      snapshot = record { transaction_id = tm.next_txn_id; sequence = 0 };
      status = active;
      isolation = isolation;
      lock_mode = lock_mode;
      write_set = [];
    } in
    (
      record {
        next_txn_id = wrapping_add tm.next_txn_id 1;
        active_txns = insert tm.next_txn_id txn tm.active_txns;
      },
      txn,
    )

-- `txn.status = TxnStatus::Committed`, where there is such a transaction.
abbrev pub mark_committed : ℕ → Assoc ℕ Transaction → Option Transaction → Assoc ℕ Transaction
mark_committed txn_id txns none = txns
mark_committed txn_id txns (some txn) = insert txn_id (record txn { status = committed }) txns

-- The new status is set on the entry that is removed next.
unfoldable pub commit : ℕ → TransactionManager → TransactionManager
commit txn_id tm = record tm {
  active_txns = remove txn_id (mark_committed txn_id tm.active_txns (get txn_id tm.active_txns));
}

unfoldable pub rollback : ℕ → TransactionManager → TransactionManager
rollback txn_id tm = record tm { active_txns = remove txn_id tm.active_txns }

unfoldable pub get_txn : ℕ → TransactionManager → Option Transaction
get_txn txn_id tm = get txn_id tm.active_txns

abbrev pub is_active : TxnStatus → Bool
is_active active = true
is_active _ = false

abbrev pub push_write : Key → Option Value → Transaction → Transaction
push_write key value txn = record txn { write_set = txn.write_set ++ ((key, value) ∷ []) }

-- The part of `register_write` after the transaction is found.
abbrev pub register_in :
    ℕ
    → Key
    → Option Value
    → TransactionManager
    → Option Transaction
    → Result TransactionError TransactionManager
register_in txn_id key value tm none = err (not_found txn_id)
register_in txn_id key value tm (some txn) =
    if is_active txn.status
    then ok (record tm { active_txns = insert txn_id (push_write key value txn) tm.active_txns })
    else err inactive

unfoldable pub register_write :
    ℕ → Key → Option Value → TransactionManager → Result TransactionError TransactionManager
register_write txn_id key value tm = register_in txn_id key value tm (get txn_id tm.active_txns)

-- The loop over the write set of `snapshot_read`: the first entry for the key.
unfoldable pub first_write : Key → List (Key × Option Value) → Option (Option Value)
first_write key [] = none
first_write key (w ∷ ws) = if w.0 == key then some w.1 else first_write key ws

-- The part of `snapshot_read` after the transaction is found; all isolation levels read the store.
abbrev pub read_through :
    {E : Type 0} → Option (Option Value) → Result E (Option Value) → Result E (Option Value)
read_through none stored = stored
read_through (some value) stored = ok value

-- The part of `snapshot_read` after the transaction is found.
abbrev pub read_in :
    ℕ
    → Key
    → (Key → Result TransactionError (Option Value))
    → Option Transaction
    → Result TransactionError (Option Value)
read_in txn_id key store_read none = err (not_found txn_id)
read_in txn_id key store_read (some txn) =
    read_through (first_write key txn.write_set) (store_read key)

unfoldable pub snapshot_read :
    ℕ
    → Key
    → (Key → Result TransactionError (Option Value))
    → TransactionManager
    → Result TransactionError (Option Value)
snapshot_read txn_id key store_read tm = read_in txn_id key store_read (get txn_id tm.active_txns)
