-- ===== src/Storage/Wal/Tests.antt =====
-- Runs of the log of nova-storage/src/wal.rs on concrete records.
use nova_runtime.Base.{
  ℕ, ◌%◌, ◌^◌, ◌<◌, ◌≡◌, ◌≢◌, refl, List, [], ◌∷◌, none, some, ok, err, arith, take, All, ◌++◌,
}
use nova_runtime.Storage.Bytes.{Bytes, of_le, to_le}
use nova_runtime.Storage.Wal.{
  WalRecord, insert, delete, encode_payload, decode_payload, decode_key, decode_value, decode_sized,
  decode_timestamp, out_of_fuel, from_u16,
}
use nova_runtime.Storage.Wal.Reader.{read_from, open_reader, read_record, read_payload}
use nova_runtime.Storage.Wal.Writer.{open_writer, segments_of, header}
use nova_runtime.Storage.Wal.Payload.{IsStorable, decode_payload-encode_payload}
use nova_runtime.Storage.Wal.Records.{record_bytes}
use nova_runtime.Storage.Wal.Log.{
  WalCommand, append_record, next_segment, reopen, IsStorableCommand, run_writer, run_log,
  empty_log,
}
use nova_runtime.Storage.Wal.Refinement.{read_from-run_writer}
use nova_runtime.Storage.Wal.Order.{IsAscending, read_from-IsAscending}
use nova_runtime.Storage.Wal.Scanning.{read_from-neq-out_of_fuel}
use nova_runtime.Storage.Wal.Checking.{IsChecked, read_record-IsChecked}
use nova_runtime.Storage.Wal.GroupCommit.{
  GroupCommit, make_record, CommitOutcome, run_once, run_once-CommitOutcome,
}

-- A checksum: the first bytes as a number.
abbrev sum_of : Bytes → ℕ
sum_of bytes = of_le (take 4 bytes) % 2 ^ 32

sum_of-lt : (bytes : Bytes) → sum_of bytes < 2 ^ 32
sum_of-lt bytes = omega arith

abbrev first : WalRecord
first = make_record 1000 insert 7 (1 ∷ 2 ∷ []) (some (9 ∷ 8 ∷ []))

abbrev second : WalRecord
second = make_record 1001 delete 7 (1 ∷ []) none

first-IsStorable : IsStorable first
first-IsStorable = record {
  tx_id-lt = omega arith;
  timestamp-lt = omega arith;
  size-lt = omega arith;
}

second-IsStorable : IsStorable second
second-IsStorable = record {
  tx_id-lt = omega arith;
  timestamp-lt = omega arith;
  size-lt = omega arith;
}

abbrev commands : List WalCommand
commands =
    append_record first ∷ next_segment ∷ reopen ∷ append_record second ∷ append_record first ∷ []

commands-IsStorable : All IsStorableCommand commands
commands-IsStorable = (first-IsStorable, (tt, (tt, (second-IsStorable, (first-IsStorable, tt)))))

-- An empty value is read back as none.
empty_value :
    decode_payload (encode_payload (make_record 5 insert 7 (1 ∷ []) (some [])))
    ≡ ok (7, 1 ∷ [], none, 5)
unfolding decode_payload encode_payload decode_key decode_value decode_sized decode_timestamp to_le
    of_le
empty_value = refl

decode_payload-encode_payload_example :
    decode_payload (encode_payload first) ≡ ok (7, 1 ∷ 2 ∷ [], some (9 ∷ 8 ∷ []), 1000)
decode_payload-encode_payload_example = decode_payload-encode_payload first first-IsStorable

read_from-run_writer_example :
    (read_from sum_of (open_reader (segments_of (run_writer sum_of commands (open_writer []))))).0
    ≡ ok (run_log sum_of commands empty_log).records
read_from-run_writer_example =
    read_from-run_writer sum_of sum_of-lt commands commands-IsStorable (omega arith)

read_from-IsAscending_example :
    (rs : List WalRecord) × ((read_from sum_of
        (open_reader (segments_of (run_writer sum_of commands (open_writer []))))).0
      ≡ ok rs)
    × IsAscending rs
read_from-IsAscending_example =
    read_from-IsAscending sum_of sum_of-lt commands commands-IsStorable (omega arith)

read_from-neq-out_of_fuel_example :
    (read_from sum_of (open_reader ((65 ∷ 86 ∷ []) ∷ [] ∷ []))).0 ≢ err out_of_fuel
read_from-neq-out_of_fuel_example =
    read_from-neq-out_of_fuel sum_of (open_reader ((65 ∷ 86 ∷ []) ∷ [] ∷ []))

abbrev written : WalRecord
written = record first { lsn = 1; checksum = 7 }

read_record-IsChecked_example :
    IsChecked sum_of (record_bytes sum_of written ++ (5 ∷ [])) written (5 ∷ [])
unfolding read_record read_payload from_u16 of_le to_le encode_payload decode_payload decode_key
    decode_value decode_sized decode_timestamp header record_bytes
read_record-IsChecked_example =
    read_record-IsChecked sum_of (record_bytes sum_of written ++ (5 ∷ [])) written (5 ∷ []) refl

abbrev batch : GroupCommit
batch = record { pending = first ∷ second ∷ [] }

run_once-CommitOutcome_example :
    let out = run_once sum_of batch (open_writer []) in
    (out.1.pending ≡ []) × CommitOutcome sum_of batch.pending (open_writer []) out.0 out.2
run_once-CommitOutcome_example =
    run_once-CommitOutcome sum_of batch (open_writer []) (refl, (refl, tt))
