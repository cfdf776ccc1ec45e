-- ===== src/Storage/Wal/Log.antt =====
-- The log of nova-storage/src/wal.rs as an abstract list of records, and what a writer does to it:
-- `append`, `switch_segment`, and closing and opening the log again.
use nova_runtime.Base.{ℕ, List, [], ◌∷◌, ◌++◌, length, ltb, if◌then◌else◌, suc}
use nova_runtime.Storage.Bytes.{Bytes}
use nova_runtime.Storage.Wal.{WalRecord, encode_payload, max_payload_size}
use nova_runtime.Storage.Wal.Writer.{WalWriter, segments_of, open_writer, switch_segment, append}
use nova_runtime.Storage.Wal.Payload.{IsStorable, stored_value}
use nova_runtime.Storage.Wal.Recovery.{highest}

pub data WalCommand : Type 0 where
  append_record : WalRecord → WalCommand
  next_segment : WalCommand
  reopen : WalCommand

abbrev pub IsStorableCommand : WalCommand → Type 0
IsStorableCommand (append_record r) = IsStorable r
IsStorableCommand next_segment = Unit
IsStorableCommand reopen = Unit

pub record Log : Type 0 where
  pub records : List WalRecord
  pub lsn : ℕ

abbrev pub empty_log : Log
empty_log = record { records = []; lsn = 0 }

module _ (crc32c : Bytes → ℕ) where
  -- What the log keeps of a record: it gets its number and its checksum.
  abbrev pub stored : ℕ → WalRecord → WalRecord
  stored lsn r = record r {
    lsn = lsn;
    value = stored_value r.value;
    checksum = crc32c (encode_payload r);
  }

  unfoldable pub log_step : WalCommand → Log → Log
  log_step (append_record r) log =
      let lsn = suc log.lsn in
      if ltb max_payload_size (length (encode_payload r))
      then record log { lsn = lsn }
      else record { records = log.records ++ (stored lsn r ∷ []); lsn = lsn }
  log_step next_segment log = log
  log_step reopen log = record log { lsn = highest log.records 0 }

  unfoldable pub run_log : List WalCommand → Log → Log
  run_log [] log = log
  run_log (c ∷ cs) log = run_log cs (log_step c log)

  unfoldable pub writer_step : WalCommand → WalWriter → WalWriter
  writer_step (append_record r) w = (append crc32c r w).1
  writer_step next_segment w = switch_segment w
  writer_step reopen w = open_writer (segments_of w)

  unfoldable pub run_writer : List WalCommand → WalWriter → WalWriter
  run_writer [] w = w
  run_writer (c ∷ cs) w = run_writer cs (writer_step c w)
