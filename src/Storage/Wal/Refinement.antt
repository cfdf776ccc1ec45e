-- ===== src/Storage/Wal/Refinement.antt =====
-- The bytes that a writer of nova-storage/src/wal.rs leaves, and the abstract log that they stand for.
use nova_runtime.Base.{
  ℕ, ◌+◌, ◌^◌, ◌<◌, ◌≤◌, ◌≡◌, refl, sym, ap, ap₂, ◌∙◌, List, [], ◌∷◌, ◌++◌, Option, none, some,
  length, concat, ltb, arith, suc, append_assoc, ok, append-nil, All, All-append, map, Bool-cases,
  inl, inr, wrapping_add,
}
use nova_runtime.Storage.Bytes.{Bytes}
use nova_runtime.Storage.Wal.{WalRecord, encode_payload, value_bytes, max_payload_size}
use nova_runtime.Storage.Wal.Reader.{read_from, open_reader}
use nova_runtime.Storage.Wal.Writer.{
  WalWriter, segments_of, open_writer, switch_segment, append, highest_lsn, header,
}
use nova_runtime.Storage.Wal.Payload.{IsStorable, stored_value, length-encode_payload, mod_small}
use nova_runtime.Storage.Wal.Records.{IsWritten, record_bytes}
use nova_runtime.Storage.Wal.Replay.{records_bytes, records_bytes-append, read_from-records_bytes}
use nova_runtime.Storage.Wal.Recovery.{
  highest, highest-append, highest_lsn-records_bytes, closed_of-append, last_of-append,
}
use nova_runtime.Storage.Wal.Log.{
  WalCommand, append_record, next_segment, reopen, IsStorableCommand, Log, empty_log, stored,
  log_step, run_log, writer_step, run_writer,
}

value_bytes-stored_value : (v : Option Bytes) → value_bytes (stored_value v) ≡ value_bytes v
value_bytes-stored_value none = refl
value_bytes-stored_value (some []) = refl
value_bytes-stored_value (some (b ∷ bs)) = refl

stored_value_idem : (v : Option Bytes) → stored_value (stored_value v) ≡ stored_value v
stored_value_idem none = refl
stored_value_idem (some []) = refl
stored_value_idem (some (b ∷ bs)) = refl

map-snoc {ℓ κ} :
    {A : Type ℓ} {B : Type κ} (f : A → B) (xs : List A) (x : A)
    → map f (xs ++ (x ∷ [])) ≡ map f xs ++ (f x ∷ [])
map-snoc f [] x = refl
map-snoc f (y ∷ xs) x = ap (λ l. f y ∷ l) (map-snoc f xs x)

concat-snoc {ℓ} :
    {A : Type ℓ} (xss : List (List A)) (xs : List A) → concat (xss ++ (xs ∷ [])) ≡ concat xss ++ xs
concat-snoc [] xs = append-nil xs
concat-snoc (ys ∷ xss) xs =
    ap (λ l. ys ++ l) (concat-snoc xss xs) ∙ sym (append_assoc ys (concat xss) xs)

module _ (crc32c : Bytes → ℕ) where
  -- The bytes of a writer hold the records of a log.
  record Holds (w : WalWriter) (log : Log) : Type 0 where
    parts : List (List WalRecord)
    open_part : List WalRecord
    closed_eq : w.closed ≡ map (records_bytes crc32c) parts
    seg_file_eq : w.seg_file ≡ records_bytes crc32c open_part
    records_eq : concat parts ++ open_part ≡ log.records
    written : All (IsWritten crc32c) log.records
    lsn_eq : w.current_lsn ≡ log.lsn
    highest-le : highest log.records 0 ≤ log.lsn

  payload-stored :
      (lsn : ℕ) (r : WalRecord) → encode_payload (stored crc32c lsn r) ≡ encode_payload r
  unfolding encode_payload
  payload-stored lsn r = rw (value_bytes-stored_value r.value) refl

  stored-IsStorable : (lsn : ℕ) (r : WalRecord) → IsStorable r → IsStorable (stored crc32c lsn r)
  stored-IsStorable lsn r s = record {
    tx_id-lt = s.tx_id-lt;
    timestamp-lt = s.timestamp-lt;
    size-lt = rw (value_bytes-stored_value r.value) s.size-lt;
  }

  switch_segment-Holds : (w : WalWriter) (log : Log) → Holds w log → Holds (switch_segment w) log
  unfolding switch_segment records_bytes
  switch_segment-Holds w log h = record {
    parts = h.parts ++ (h.open_part ∷ []);
    open_part = [];
    closed_eq =
        ap₂ (λ (cs : List Bytes) (s : Bytes). cs ++ (s ∷ [])) h.closed_eq h.seg_file_eq
        ∙ sym (map-snoc (records_bytes crc32c) h.parts h.open_part);
    seg_file_eq = refl;
    records_eq = append-nil _ ∙ concat-snoc h.parts h.open_part ∙ h.records_eq;
    written = h.written;
    lsn_eq = h.lsn_eq;
    highest-le = h.highest-le;
  }

  segments-Holds :
      (w : WalWriter) (log : Log) (h : Holds w log)
      → segments_of w ≡ map (records_bytes crc32c) (h.parts ++ (h.open_part ∷ []))
  segments-Holds w log h =
      ap₂ (λ (cs : List Bytes) (s : Bytes). cs ++ (s ∷ [])) h.closed_eq h.seg_file_eq
      ∙ sym (map-snoc (records_bytes crc32c) h.parts h.open_part)

  all_records :
      (w : WalWriter) (log : Log) (h : Holds w log)
      → concat (h.parts ++ (h.open_part ∷ [])) ≡ log.records
  all_records w log h = concat-snoc h.parts h.open_part ∙ h.records_eq

  reopen-Holds :
      (w : WalWriter) (log : Log)
      → Holds w log
      → Holds (open_writer (segments_of w)) (log_step crc32c reopen log)
  unfolding open_writer log_step
  reopen-Holds w log h = record {
    parts = h.parts;
    open_part = h.open_part;
    closed_eq = closed_of-append w.closed w.seg_file ∙ h.closed_eq;
    seg_file_eq = last_of-append w.closed w.seg_file ∙ h.seg_file_eq;
    records_eq = h.records_eq;
    written = h.written;
    lsn_eq =
        ap (λ (ss : List Bytes). highest_lsn ss 0) (segments-Holds w log h)
        ∙ highest_lsn-records_bytes crc32c (h.parts ++ (h.open_part ∷ [])) 0
            (rw (all_records w log h) h.written)
        ∙ ap (λ (rs : List WalRecord). highest rs 0) (all_records w log h);
    highest-le = omega arith;
  }

  new-Holds : Holds (open_writer []) empty_log
  unfolding open_writer records_bytes highest highest_lsn
  new-Holds = record {
    parts = [];
    open_part = [];
    closed_eq = refl;
    seg_file_eq = refl;
    records_eq = refl;
    written = tt;
    lsn_eq = refl;
    highest-le = omega arith;
  }

  append-lsn :
      (r : WalRecord) (log : Log) (cs : List WalCommand)
      → log.lsn + suc (length cs) < 2 ^ 64
      → (log_step crc32c (append_record r) log).lsn + length cs < 2 ^ 64
  unfolding log_step
  append-lsn r log cs l = ground arith

  module _ (crc32c-lt : (bytes : Bytes) → crc32c bytes < 2 ^ 32) where
    stored-IsWritten :
        (lsn : ℕ) (r : WalRecord)
        → IsStorable r
        → lsn < 2 ^ 64
        → length (encode_payload r) ≤ max_payload_size
        → IsWritten crc32c (stored crc32c lsn r)
    stored-IsWritten lsn r s l p = record {
      storable = stored-IsStorable lsn r s;
      small = rw (payload-stored lsn r) p;
      lsn-lt = l;
      checksum_eq = ap crc32c (sym (payload-stored lsn r));
      checksum-lt = crc32c-lt (encode_payload r);
      value_eq = stored_value_idem r.value;
    }

    -- A refused record takes a number and leaves the bytes alone.
    refused-Holds :
        (w : WalWriter) (log : Log) (lsn : ℕ)
        → lsn ≡ suc log.lsn
        → Holds w log
        → Holds (record w { current_lsn = lsn }) (record log { lsn = suc log.lsn })
    refused-Holds w log lsn e h = record {
      parts = h.parts;
      open_part = h.open_part;
      closed_eq = h.closed_eq;
      seg_file_eq = h.seg_file_eq;
      records_eq = h.records_eq;
      written = h.written;
      lsn_eq = e;
      highest-le = omega (arith, h.highest-le);
    }

    record_bytes-stored :
        (lsn : ℕ) (r : WalRecord)
        → let payload = encode_payload r in
          record_bytes crc32c (stored crc32c lsn r)
          ≡ header (crc32c payload) (length payload) lsn r.record_type ++ payload
    unfolding record_bytes
    record_bytes-stored lsn r = rw (payload-stored lsn r) refl

    accepted-Holds :
        (w : WalWriter) (log : Log) (r : WalRecord) (offset : ℕ)
        → IsWritten crc32c (stored crc32c (suc log.lsn) r)
        → Holds w log
        → let payload = encode_payload r in
          Holds
            (record w {
              seg_file =
                  w.seg_file
                  ++ (header (crc32c payload) (length payload) (suc log.lsn) r.record_type
                      ++ payload);
              offset = offset;
              current_lsn = suc log.lsn;
            })
            (record {
              records = log.records ++ (stored crc32c (suc log.lsn) r ∷ []);
              lsn = suc log.lsn;
            })
    unfolding records_bytes highest
    accepted-Holds w log r offset new h = record {
      parts = h.parts;
      open_part = h.open_part ++ (stored crc32c (suc log.lsn) r ∷ []);
      closed_eq = h.closed_eq;
      seg_file_eq =
          ap₂ (λ (a b : Bytes). a ++ b) h.seg_file_eq
            (sym (record_bytes-stored (suc log.lsn) r) ∙ sym (append-nil _))
          ∙ sym (records_bytes-append crc32c h.open_part (stored crc32c (suc log.lsn) r ∷ []));
      records_eq =
          sym (append_assoc (concat h.parts) h.open_part (stored crc32c (suc log.lsn) r ∷ []))
          ∙ ap (λ (rs : List WalRecord). rs ++ (stored crc32c (suc log.lsn) r ∷ [])) h.records_eq;
      written =
          All-append (IsWritten crc32c) log.records (stored crc32c (suc log.lsn) r ∷ []) h.written
            (new, tt);
      lsn_eq = refl;
      highest-le =
          rw (highest-append log.records (stored crc32c (suc log.lsn) r ∷ []) 0)
            (ground (arith, h.highest-le));
    }

    append-Holds :
        (r : WalRecord) (w : WalWriter) (log : Log)
        → IsStorable r
        → suc log.lsn < 2 ^ 64
        → Holds w log
        → Holds (append crc32c r w).1 (log_step crc32c (append_record r) log)
    unfolding append log_step
    append-Holds r w log s l h =
        let next : wrapping_add w.current_lsn 1 ≡ suc log.lsn = omega (arith, h.lsn_eq) in
        let whole =
          mod_small (length (encode_payload r))
            (omega (arith, length-encode_payload r, s.size-lt)) in
        elim (Bool-cases (ltb max_payload_size (length (encode_payload r)))) [
          | inl b ↦ rw (whole, b) (refused-Holds w log (wrapping_add w.current_lsn 1) next h)
          | inr b ↦
              rw (whole, b, next)
                (accepted-Holds w log r (w.offset + (24 + length (encode_payload r)))
                  (stored-IsWritten (suc log.lsn) r s l (ground arith)) h)
        ]

    -- After `n` commands no number is above `n`.
    run-Holds :
        (cs : List WalCommand) (w : WalWriter) (log : Log)
        → All IsStorableCommand cs
        → log.lsn + length cs < 2 ^ 64
        → Holds w log
        → Holds (run_writer crc32c cs w) (run_log crc32c cs log)
    unfolding run_writer run_log writer_step log_step
    run-Holds [] w log s l h = h
    run-Holds (append_record r ∷ cs) w log s l h =
        run-Holds cs _ _ s.1 (append-lsn r log cs l) (append-Holds r w log s.0 (omega arith) h)
    run-Holds (next_segment ∷ cs) w log s l h =
        run-Holds cs _ _ s.1 (omega arith) (switch_segment-Holds w log h)
    run-Holds (reopen ∷ cs) w log s l h =
        run-Holds cs _ _ s.1 (omega (arith, h.highest-le)) (reopen-Holds w log h)

    -- If checksums fit 32 bits, after any fewer than 2^64 appends of records that fit the types of
    -- their fields, switches of segment and reopenings of a new log, reading from the start gives
    -- exactly the records of the abstract log in order: those whose payload is at most 65535 bytes
    -- long, each with its number and checksum, an empty value as none.
    pub read_from-run_writer :
        (cs : List WalCommand)
        → All IsStorableCommand cs
        → length cs < 2 ^ 64
        → (read_from crc32c (open_reader (segments_of (run_writer crc32c cs (open_writer []))))).0
          ≡ ok (run_log crc32c cs empty_log).records
    read_from-run_writer cs s l =
        let h = run-Holds cs (open_writer []) empty_log s (omega arith) new-Holds in
        rw (segments-Holds _ _ h) (
          read_from-records_bytes crc32c _ (rw (all_records _ _ h) h.written)
          ∙ ap ok (all_records _ _ h))
