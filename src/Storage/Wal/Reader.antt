-- ===== src/Storage/Wal/Reader.antt =====
-- `WalReader` of nova-storage/src/wal.rs.
use nova_runtime.Base.{
  ℕ, List, [], ◌∷◌, ◌++◌, Option, none, some, length, take, drop, concat, ltb, nat_beq,
  if◌then◌else◌, Result, err, ok, ◌>>=◌, suc, zero,
}
use nova_runtime.Storage.Bytes.{Bytes, of_le}
use nova_runtime.Storage.Wal.{
  WalRecordType, from_u16, WalRecord, WalError, invalid_magic, invalid_record_type, unexpected_eof,
  checksum_mismatch, out_of_fuel, decode_payload, Decoded, wal_magic,
}

-- A reader: the segments of its directory, those after the open one, and the unread rest of that.
pub record WalReader : Type 0 where
  pub segments : List Bytes
  pub later : List Bytes
  pub file : Option Bytes

abbrev pub seek : WalReader → WalReader
seek r = elim (r.segments) [
  | [] ↦ record r { later = []; file = some [] }
  | s ∷ ss ↦ record r { later = ss; file = some s }
]

abbrev pub open_reader : List Bytes → WalReader
open_reader segments = seek (record { segments = segments; later = []; file = none })

module _ (crc32c : Bytes → ℕ) where
  abbrev pub with_payload : ℕ → WalRecordType → ℕ → Decoded → WalRecord
  with_payload lsn record_type checksum d = record {
    lsn = lsn;
    tx_id = d.0;
    record_type = record_type;
    key = d.1;
    value = d.2;
    checksum = checksum;
    timestamp = d.3;
  }

  abbrev pub decode_any : Bytes → Result WalError Decoded
  decode_any payload =
      if ltb 0 (length payload) then decode_payload payload else ok (0, [], none, 0)

  -- The payload, checked against the checksum of the header.
  unfoldable pub read_payload : ℕ → ℕ → WalRecordType → Bytes → Result WalError WalRecord
  read_payload lsn checksum record_type payload =
      if nat_beq (crc32c payload) checksum
      then (decode_any payload >>= λ d. ok (with_payload lsn record_type checksum d))
      else err (checksum_mismatch checksum (crc32c payload))

  -- The rest of the record after its header, and what of the file is then unread.
  abbrev pub read_body :
      ℕ → ℕ → ℕ → Option WalRecordType → Bytes → Result WalError WalRecord × Bytes
  read_body lsn checksum len none rest = (err invalid_record_type, rest)
  read_body lsn checksum len (some record_type) rest =
      if ltb (length rest) len
      then (err unexpected_eof, [])
      else (read_payload lsn checksum record_type (take len rest), drop len rest)

  -- `file` holds a whole header.
  unfoldable pub read_record : Bytes → Result WalError WalRecord × Bytes
  read_record file =
      let rest = drop 24 file in
      if nat_beq (of_le (take 4 file)) wal_magic
      then read_body (of_le (take 8 (drop 12 file))) (of_le (take 4 (drop 4 file)))
          (of_le (take 4 (drop 8 file))) (from_u16 (of_le (take 2 (drop 20 file)))) rest
      else (err invalid_magic, rest)

  abbrev pub Read : Type 0
  Read = Result WalError (Option WalRecord) × List Bytes × Option Bytes

  abbrev pub one_read : List Bytes → Result WalError WalRecord × Bytes → Read
  one_read later out = (out.0 >>= λ r. ok (some r), later, some out.1)

  -- At the end of a segment the next one is opened.
  unfoldable pub read_segments : List Bytes → Bytes → Read
  read_segments [] file =
      if ltb (length file) 24 then (ok none, [], none) else one_read [] (read_record file)
  read_segments (s ∷ ss) file =
      let next = read_segments ss s in
      if ltb (length file) 24 then next else one_read (s ∷ ss) (read_record file)

  abbrev pub read_open : List Bytes → Option Bytes → Read
  read_open later none = (ok none, later, none)
  read_open later (some file) = read_segments later file

  unfoldable pub read_next : WalReader → Result WalError (Option WalRecord) × WalReader
  read_next r =
      let out = read_open r.later r.file in (out.0, record r { later = out.1; file = out.2 })

  abbrev pub Scan : Type 0
  Scan = Result WalError (List WalRecord) × WalReader

  abbrev pub scan_step :
      (WalReader → List WalRecord → Scan)
      → WalReader
      → List WalRecord
      → Result WalError (Option WalRecord)
      → Scan
  scan_step onward r records (err reason) = (err reason, r)
  scan_step onward r records (ok none) = (ok records, r)
  scan_step onward r records (ok (some found)) = onward r (records ++ (found ∷ []))

  unfoldable pub scan : ℕ → WalReader → List WalRecord → Scan
  scan zero r records = (err out_of_fuel, r)
  scan (suc fuel) r records = let next = read_next r in scan_step (scan fuel) next.1 records next.0

  -- Each record found takes a byte at least, so one round more than there are bytes is enough.
  unfoldable pub read_from : WalReader → Scan
  read_from r = scan (suc (length (concat r.segments))) (seek r) []
