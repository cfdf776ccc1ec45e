-- ===== src/Storage/Wal/Records.antt =====
-- Whole records of nova-storage/src/wal.rs: a header and a payload, at the front of a segment.
use nova_runtime.Base.{
  ℕ, ◌+◌, ◌^◌, ◌<◌, ◌≤◌, ◌≡◌, refl, ap, ◌∙◌, ◌++◌, some, length, take, drop, Result, ok, arith,
  length-append, append_assoc,
}
use nova_runtime.Storage.Bytes.{
  Bytes, to_le, of_le, of_le-to_le, take-length_append, drop-length_append,
}
use nova_runtime.Storage.Wal.{
  WalRecord, WalRecordType, encode_payload, WalError, to_u16, from_u16, wal_magic, begin, commit,
  rollback, insert, update, delete, checkpoint, max_payload_size,
}
use nova_runtime.Storage.Wal.Reader.{read_record, read_body, read_payload}
use nova_runtime.Storage.Wal.Writer.{header}
use nova_runtime.Storage.Wal.Payload.{
  IsStorable, stored_value, decode_payload-encode_payload, length-encode_payload,
}

pub from_u16-to_u16 : (t : WalRecordType) → from_u16 (to_u16 t) ≡ some t
unfolding from_u16
from_u16-to_u16 begin = refl
from_u16-to_u16 commit = refl
from_u16-to_u16 rollback = refl
from_u16-to_u16 insert = refl
from_u16-to_u16 update = refl
from_u16-to_u16 delete = refl
from_u16-to_u16 checkpoint = refl

to_u16-lt : (t : WalRecordType) → to_u16 t < 256 ^ 2
to_u16-lt begin = omega arith
to_u16-lt commit = omega arith
to_u16-lt rollback = omega arith
to_u16-lt insert = omega arith
to_u16-lt update = omega arith
to_u16-lt delete = omega arith
to_u16-lt checkpoint = omega arith

-- The fields of a header, where `read_record` and the recovery look for them.
module _ (sum len lsn : ℕ) (t : WalRecordType) (rest : Bytes) where
  header_magic : of_le (take 4 (header sum len lsn t ++ rest)) ≡ wal_magic
  unfolding header to_le
  header_magic = of_le-to_le 4 wal_magic (omega arith)

  header_checksum : sum < 2 ^ 32 → of_le (take 4 (drop 4 (header sum len lsn t ++ rest))) ≡ sum
  unfolding header to_le
  header_checksum h = of_le-to_le 4 sum h

  pub header_len : len < 2 ^ 32 → of_le (take 4 (drop 8 (header sum len lsn t ++ rest))) ≡ len
  unfolding header to_le
  header_len h = of_le-to_le 4 len h

  pub header_lsn : lsn < 2 ^ 64 → of_le (take 8 (drop 12 (header sum len lsn t ++ rest))) ≡ lsn
  unfolding header to_le
  header_lsn h = of_le-to_le 8 lsn h

  header_type : of_le (take 2 (drop 20 (header sum len lsn t ++ rest))) ≡ to_u16 t
  unfolding header to_le
  header_type = of_le-to_le 2 (to_u16 t) (to_u16-lt t)

  pub drop-header : drop 24 (header sum len lsn t ++ rest) ≡ rest
  unfolding header to_le
  drop-header = refl

  pub length-header : length (header sum len lsn t ++ rest) ≡ 24 + length rest
  unfolding header to_le
  length-header = omega arith

module _ (crc32c : Bytes → ℕ) where
  -- A record as it is on the log: its bytes fit, its checksum is right and no value is empty.
  pub record IsWritten (r : WalRecord) : Type 0 where
    pub storable : IsStorable r
    pub small : length (encode_payload r) ≤ max_payload_size
    pub lsn-lt : r.lsn < 2 ^ 64
    pub checksum_eq : r.checksum ≡ crc32c (encode_payload r)
    pub checksum-lt : r.checksum < 2 ^ 32
    pub value_eq : stored_value r.value ≡ r.value

  unfoldable pub record_bytes : WalRecord → Bytes
  record_bytes r =
      header r.checksum (length (encode_payload r)) r.lsn r.record_type ++ encode_payload r

  read_payload-encode_payload :
      (r : WalRecord)
      → IsWritten r
      → read_payload crc32c r.lsn r.checksum r.record_type (encode_payload r) ≡ ok r
  unfolding read_payload
  read_payload-encode_payload r w = ground (
    arith,
    w.checksum_eq,
    w.value_eq,
    decode_payload-encode_payload r w.storable,
    length-encode_payload r,
  )

  read_body-append :
      (lsn sum : ℕ) (t : WalRecordType) (payload rest : Bytes)
      → read_body crc32c lsn sum (length payload) (some t) (payload ++ rest)
        ≡ (read_payload crc32c lsn sum t payload, rest)
  read_body-append lsn sum t payload rest = ground (
    arith,
    length-append payload rest,
    take-length_append (length payload) payload rest refl,
    drop-length_append (length payload) payload rest refl,
  )

  pub read_record-record_bytes :
      (r : WalRecord) (rest : Bytes)
      → IsWritten r
      → read_record crc32c (record_bytes r ++ rest) ≡ (ok r, rest)
  unfolding read_record record_bytes
  read_record-record_bytes r rest w =
      let sum = r.checksum in
      let payload = encode_payload r in
      let len = length payload in
      let len-lt : len < 2 ^ 32 = omega (arith, w.small) in
      rw
        (
          append_assoc,
          header_magic sum len r.lsn r.record_type (payload ++ rest),
          header_lsn sum len r.lsn r.record_type (payload ++ rest) w.lsn-lt,
          header_checksum sum len r.lsn r.record_type (payload ++ rest) w.checksum-lt,
          header_len sum len r.lsn r.record_type (payload ++ rest) len-lt,
          header_type sum len r.lsn r.record_type (payload ++ rest),
          from_u16-to_u16 r.record_type,
          drop-header sum len r.lsn r.record_type (payload ++ rest),
        )
        (read_body-append r.lsn sum r.record_type (payload) rest
          ∙ ap (λ (o : Result WalError WalRecord). (o, rest)) (read_payload-encode_payload r w))
