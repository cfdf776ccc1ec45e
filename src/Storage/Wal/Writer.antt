-- ===== src/Storage/Wal/Writer.antt =====
-- `WalWriter` of nova-storage/src/wal.rs: opening with the recovery of the last number, appending and
-- switching segments.
use nova_runtime.Base.{
  ℕ, ◌+◌, ◌%◌, ◌^◌, List, [], ◌∷◌, ◌++◌, length, take, drop, ltb, if◌then◌else◌, Result, err, ok,
  wrapping_add, suc, zero,
}
use nova_runtime.Storage.Bytes.{Bytes, to_le, of_le}
use nova_runtime.Storage.Wal.{
  WalRecordType, to_u16, WalRecord, WalError, payload_too_large, encode_payload, wal_magic,
  max_payload_size,
}

-- The writer: the segments it has closed and the open one.
pub record WalWriter : Type 0 where
  pub closed : List Bytes
  pub seg_file : Bytes
  pub seg_num : ℕ
  pub offset : ℕ
  pub current_lsn : ℕ

abbrev pub segments_of : WalWriter → List Bytes
segments_of w = w.closed ++ (w.seg_file ∷ [])

unfoldable pub header : ℕ → ℕ → ℕ → WalRecordType → Bytes
header checksum payload_len lsn record_type =
    to_le 4 wal_magic
    ++ (to_le 4 checksum
        ++ (to_le 4 payload_len ++ (to_le 8 lsn ++ (to_le 2 (to_u16 record_type) ++ to_le 2 0))))

-- A log with no segment gets the first one.
abbrev pub closed_of : List Bytes → List Bytes
closed_of [] = []
closed_of (s ∷ []) = []
closed_of (s ∷ t ∷ ss) = s ∷ closed_of (t ∷ ss)

abbrev pub last_of : List Bytes → Bytes
last_of [] = []
last_of (s ∷ []) = s
last_of (s ∷ t ∷ ss) = last_of (t ∷ ss)

abbrev pub larger : ℕ → ℕ → ℕ
larger lsn max_lsn = if ltb max_lsn lsn then lsn else max_lsn

-- `file` is what the loop has not read. A round takes a header at least.
unfoldable pub recover_loop : ℕ → Bytes → ℕ → ℕ
recover_loop zero file max_lsn = max_lsn
recover_loop (suc fuel) file max_lsn =
    let len = of_le (take 4 (drop 8 file)) in
    let found = larger (of_le (take 8 (drop 12 file))) max_lsn in
    let rest = drop 24 file in
    let onward = recover_loop fuel (drop len rest) found in
    if ltb (length file) 24 then max_lsn else if ltb (length rest) len then found else onward

unfoldable pub recover_lsn_from_segment : Bytes → ℕ
recover_lsn_from_segment file = recover_loop (length file) file 0

unfoldable pub highest_lsn : List Bytes → ℕ → ℕ
highest_lsn [] max_lsn = max_lsn
highest_lsn (s ∷ ss) max_lsn = highest_lsn ss (larger (recover_lsn_from_segment s) max_lsn)

unfoldable pub open_writer : List Bytes → WalWriter
open_writer segments = record {
  closed = closed_of segments;
  seg_file = last_of segments;
  seg_num = suc (length (closed_of segments));
  offset = length (last_of segments);
  current_lsn = highest_lsn segments 0;
}

unfoldable pub switch_segment : WalWriter → WalWriter
switch_segment w = record w {
  closed = w.closed ++ (w.seg_file ∷ []);
  seg_file = [];
  seg_num = suc w.seg_num;
  offset = 0;
}

module _ (crc32c : Bytes → ℕ) where
  -- The record's number is used up even if the record is refused.
  unfoldable pub append : WalRecord → WalWriter → Result WalError ℕ × WalWriter
  append r w =
      let lsn = wrapping_add w.current_lsn 1 in
      let payload = encode_payload r in
      let payload_len = length payload % 2 ^ 32 in
      if ltb max_payload_size payload_len
      then (err payload_too_large, record w { current_lsn = lsn })
      else (
        ok lsn,
        record w {
          current_lsn = lsn;
          seg_file =
              w.seg_file ++ (header (crc32c payload) payload_len lsn r.record_type ++ payload);
          offset = w.offset + (24 + payload_len);
        },
      )
