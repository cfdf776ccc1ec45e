-- ===== src/Storage/Wal.antt =====
-- The write-ahead log: nova-storage/src/wal.rs. A segment is the list of its bytes, and the log is
-- its segments in the order of their numbers, which the writer gives out from 1 without a gap. The
-- checksum of a payload is a function of the crate `crc32c`, a parameter. Times are the 64-bit
-- patterns of the nanoseconds, so a negative one is a number from 2 ^ 63 on.
--
-- Not modelled: failures of the file system, and flushing with its policy.
pub mod Writer
pub mod Reader
pub mod Payload
pub mod Records
pub mod Replay
pub mod Recovery
pub mod Log
pub mod Refinement
pub mod Order
pub mod Scanning
pub mod Checking
pub mod GroupCommit
pub mod Tests
use nova_runtime.Base.{
  ℕ, ◌+◌, ◌%◌, ◌^◌, Bool, true, false, List, [], ◌∷◌, ◌++◌, Option, none, some, length, take, drop,
  concat, ltb, nat_beq, if◌then◌else◌, Result, err, ok, wrapping_add, ◌>>=◌, ok_or, suc, zero, ◌*◌,
  ◌/◌,
}
use nova_runtime.Storage.Bytes.{Bytes, to_le, of_le}

abbrev pub wal_magic : ℕ
wal_magic = 0x4E4F5641

abbrev pub max_payload_size : ℕ
max_payload_size = 65535

pub data WalRecordType : Type 0 where
  begin commit rollback insert update delete checkpoint : WalRecordType

abbrev pub to_u16 : WalRecordType → ℕ
to_u16 begin = 0
to_u16 commit = 1
to_u16 rollback = 2
to_u16 insert = 3
to_u16 update = 4
to_u16 delete = 5
to_u16 checkpoint = 6

unfoldable pub from_u16 : ℕ → Option WalRecordType
from_u16 zero = some begin
from_u16 (suc zero) = some commit
from_u16 (suc (suc zero)) = some rollback
from_u16 (suc (suc (suc zero))) = some insert
from_u16 (suc (suc (suc (suc zero)))) = some update
from_u16 (suc (suc (suc (suc (suc zero))))) = some delete
from_u16 (suc (suc (suc (suc (suc (suc zero)))))) = some checkpoint
from_u16 _ = none

pub record WalRecord : Type 0 where
  pub lsn : ℕ
  pub tx_id : ℕ
  pub record_type : WalRecordType
  pub key : Bytes
  pub value : Option Bytes
  pub checksum : ℕ
  pub timestamp : ℕ

-- Errors are named for their messages. `out_of_fuel` is the model's own.
pub data WalError : Type 0 where
  payload_too_large : WalError
  payload_too_short key_truncated value_length_truncated value_truncated : WalError
  invalid_magic invalid_record_type unexpected_eof : WalError
  checksum_mismatch : (expected actual : ℕ) → WalError
  out_of_fuel : WalError

abbrev pub value_bytes : Option Bytes → Bytes
value_bytes none = []
value_bytes (some bytes) = bytes

unfoldable pub encode_payload : WalRecord → Bytes
encode_payload r =
    let value = value_bytes r.value in
    to_le 8 r.tx_id
    ++ (to_le 4 (length r.key % 2 ^ 32)
        ++ (r.key ++ (to_le 4 (length value % 2 ^ 32) ++ (value ++ to_le 8 r.timestamp))))

-- What a payload holds: the transaction, the key, the value and the time.
abbrev pub Decoded : Type 0
Decoded = ℕ × Bytes × Option Bytes × ℕ

unfoldable pub decode_timestamp : Bytes → ℕ
decode_timestamp bytes = if ltb (length bytes) 8 then 0 else of_le (take 8 bytes)

unfoldable pub decode_sized : ℕ → Bytes → ℕ → Bytes → Result WalError Decoded
decode_sized tx_id key value_len bytes =
    if ltb 0 value_len
    then if ltb (length bytes) value_len
      then err value_truncated
      else ok (tx_id, key, some (take value_len bytes), decode_timestamp (drop value_len bytes))
    else ok (tx_id, key, none, decode_timestamp bytes)

unfoldable pub decode_value : ℕ → Bytes → Bytes → Result WalError Decoded
decode_value tx_id key bytes =
    if ltb (length bytes) 4
    then err value_length_truncated
    else decode_sized tx_id key (of_le (take 4 bytes)) (drop 4 bytes)

unfoldable pub decode_key : ℕ → ℕ → Bytes → Result WalError Decoded
decode_key tx_id key_len bytes =
    if ltb (length bytes) key_len
    then err key_truncated
    else decode_value tx_id (take key_len bytes) (drop key_len bytes)

-- `bytes` is the payload from the offset `off` on.
unfoldable pub decode_payload : Bytes → Result WalError Decoded
decode_payload bytes =
    if ltb (length bytes) 24
    then err payload_too_short
    else let rest = drop 8 bytes in
      decode_key (of_le (take 8 bytes)) (of_le (take 4 rest)) (drop 4 rest)
