-- ===== src/Storage/Wal/Replay.antt =====
-- The log of nova-storage/src/wal.rs as what its reader sees: the records that were accepted.
use nova_runtime.Base.{
  ℕ, ◌<◌, ◌≤◌, ◌≡◌, refl, sym, ap, ◌∙◌, List, [], ◌∷◌, ◌++◌, some, length, concat, ok, arith,
  length-append, suc, zero, append_assoc, append-nil, All, map,
}
use nova_runtime.Storage.Bytes.{Bytes}
use nova_runtime.Storage.Wal.{WalRecord, encode_payload}
use nova_runtime.Storage.Wal.Reader.{
  WalReader, read_record, read_segments, read_next, one_read, scan, read_from, open_reader,
}
use nova_runtime.Storage.Wal.Records.{
  IsWritten, record_bytes, read_record-record_bytes, length-header,
}

module _ (crc32c : Bytes → ℕ) where
  unfoldable pub records_bytes : List WalRecord → Bytes
  records_bytes [] = []
  records_bytes (r ∷ rs) = record_bytes crc32c r ++ records_bytes rs

  pub records_bytes-append :
      (xs ys : List WalRecord) → records_bytes (xs ++ ys) ≡ records_bytes xs ++ records_bytes ys
  unfolding records_bytes
  records_bytes-append [] ys = refl
  records_bytes-append (x ∷ xs) ys =
      rw (records_bytes-append xs ys)
        (sym (append_assoc (record_bytes crc32c x) (records_bytes xs) (records_bytes ys)))

  pub record_bytes-long :
      (r : WalRecord) (rest : Bytes) → 24 ≤ length (record_bytes crc32c r ++ rest)
  unfolding record_bytes
  record_bytes-long r rest = rw append_assoc (
      omega (
        arith,
        length-header r.checksum (length (encode_payload r)) r.lsn r.record_type
            (encode_payload r ++ rest),
      ))

  one_read-record_bytes :
      (later : List Bytes) (r : WalRecord) (rest : Bytes)
      → IsWritten crc32c r
      → one_read crc32c later (read_record crc32c (record_bytes crc32c r ++ rest))
        ≡ (ok (some r), later, some rest)
  one_read-record_bytes later r rest w = rw (read_record-record_bytes crc32c r rest w) refl

  -- The reader takes the record at the front.
  read_segments-record_bytes :
      (later : List Bytes) (r : WalRecord) (rest : Bytes)
      → IsWritten crc32c r
      → read_segments crc32c later (record_bytes crc32c r ++ rest) ≡ (ok (some r), later, some rest)
  unfolding read_segments
  read_segments-record_bytes [] r rest w =
      ground (arith, record_bytes-long r rest, one_read-record_bytes [] r rest w)
  read_segments-record_bytes (s ∷ ss) r rest w =
      ground (arith, record_bytes-long r rest, one_read-record_bytes (s ∷ ss) r rest w)

  -- The state of a reader whose unread segments hold these records.
  abbrev reading : List Bytes → List (List WalRecord) → List WalRecord → WalReader
  reading segments later file = record {
    segments = segments;
    later = map records_bytes later;
    file = some (records_bytes file);
  }

  scan-reading :
      (fuel : ℕ) (segments : List Bytes) (later : List (List WalRecord))
      (file found : List WalRecord)
      → All (IsWritten crc32c) (file ++ concat later)
      → length (file ++ concat later) < fuel
      → (scan crc32c fuel (reading segments later file) found).0
        ≡ ok (found ++ (file ++ concat later))
  unfolding scan read_next read_segments records_bytes
  scan-reading zero segments later file found w h = absurd (omega arith)
  scan-reading (suc fuel) segments [] [] found w h = rw append-nil refl
  scan-reading (suc fuel) segments (f ∷ fs) [] found w h =
      scan-reading (suc fuel) segments fs f found w h
  scan-reading (suc fuel) segments later (r ∷ file) found w h =
      rw (read_segments-record_bytes (map records_bytes later) r (records_bytes file) w.0) (
        scan-reading fuel segments later file (found ++ (r ∷ [])) w.1 (omega arith)
        ∙ ap ok (append_assoc found (r ∷ []) (file ++ concat later)))

  pub length-records_bytes : (rs : List WalRecord) → length rs ≤ length (records_bytes rs)
  unfolding records_bytes
  length-records_bytes [] = omega arith
  length-records_bytes (r ∷ rs) = omega (
    arith,
    length-append (record_bytes crc32c r) (records_bytes rs),
    record_bytes-long r [],
    length-records_bytes rs,
    length-append (record_bytes crc32c r) [],
  )

  length-concat :
      (parts : List (List WalRecord))
      → length (concat parts) ≤ length (concat (map records_bytes parts))
  length-concat [] = omega arith
  length-concat (p ∷ ps) = omega (
    arith,
    length-append p (concat ps),
    length-records_bytes p,
    length-concat ps,
    length-append (records_bytes p) (concat (map records_bytes ps)),
  )

  pub read_from-records_bytes :
      (parts : List (List WalRecord))
      → All (IsWritten crc32c) (concat parts)
      → (read_from crc32c (open_reader (map records_bytes parts))).0 ≡ ok (concat parts)
  unfolding read_from records_bytes
  read_from-records_bytes [] w = scan-reading 1 [] [] [] [] w (omega arith)
  read_from-records_bytes (p ∷ ps) w =
      scan-reading _ (map records_bytes (p ∷ ps)) ps p [] w (omega (arith, length-concat (p ∷ ps)))
