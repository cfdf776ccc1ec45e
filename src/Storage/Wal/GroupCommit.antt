-- ===== src/Storage/Wal/GroupCommit.antt =====
-- `GroupCommit` of nova-storage/src/wal.rs, and `make_record`, whose records have the number 0. The
-- time of a record is a parameter. The stable sort of the standard library is by insertion.
use nova_runtime.Base.{
  ℕ, true, false, List, [], ◌∷◌, ◌++◌, Option, length, ltb, leb, if◌then◌else◌, Result, err, ok,
  ◌≡◌, ◌≤◌, ◌<◌, ltb→lt, refl, ap, ◌∙◌, arith, All, map, Bool-cases, inl, inr, ◌%◌, ◌^◌,
  wrapping_add,
}
use nova_runtime.Storage.Bytes.{Bytes}
use nova_runtime.Storage.Wal.{
  WalRecord, WalRecordType, WalError, payload_too_large, encode_payload, max_payload_size,
}
use nova_runtime.Storage.Wal.Writer.{WalWriter, append}
use nova_runtime.Storage.Wal.Log.{append_record, run_writer, writer_step}

abbrev pub make_record : ℕ → WalRecordType → ℕ → Bytes → Option Bytes → WalRecord
make_record now record_type tx_id key value = record {
  lsn = 0;
  tx_id = tx_id;
  record_type = record_type;
  key = key;
  value = value;
  checksum = 0;
  timestamp = now;
}

pub record GroupCommit : Type 0 where
  pub pending : List WalRecord

abbrev pub submit : WalRecord → GroupCommit → GroupCommit
submit r g = record { pending = g.pending ++ (r ∷ []) }

unfoldable pub insert_by_lsn : WalRecord → List WalRecord → List WalRecord
insert_by_lsn r [] = r ∷ []
insert_by_lsn r (s ∷ rs) = if leb r.lsn s.lsn then r ∷ s ∷ rs else s ∷ insert_by_lsn r rs

unfoldable pub sort_by_lsn : List WalRecord → List WalRecord
sort_by_lsn [] = []
sort_by_lsn (r ∷ rs) = insert_by_lsn r (sort_by_lsn rs)

abbrev pub Committed : Type 0
Committed = Result WalError (Unit {0})

module _ (crc32c : Bytes → ℕ) where
  abbrev pub append_next :
      (WalWriter → Committed × WalWriter) → Result WalError ℕ × WalWriter → Committed × WalWriter
  append_next onward out = elim (out.0) [ err reason ↦ (err reason, out.1) | ok lsn ↦ onward out.1 ]

  -- The loop over the batch, which the first refusal ends.
  unfoldable pub append_all : List WalRecord → WalWriter → Committed × WalWriter
  append_all [] w = (ok tt, w)
  append_all (r ∷ rs) w = append_next (append_all rs) (append crc32c r w)

  -- The batch is taken out of the queue before it is written.
  unfoldable pub run_once : GroupCommit → WalWriter → Committed × GroupCommit × WalWriter
  run_once g w =
      let out = append_all (sort_by_lsn g.pending) w in (out.0, record { pending = [] }, out.1)

  -- The payload of the record, its length modulo 2^32, is not too large.
  abbrev pub IsAccepted : WalRecord → Type 0
  IsAccepted r = length (encode_payload r) % 2 ^ 32 ≤ max_payload_size

  -- A batch is written whole, or up to a record that is refused, and then the rest of it is in
  -- neither the queue nor the log.
  pub data CommitOutcome (batch : List WalRecord) (w : WalWriter) (result : Committed)
      (w' : WalWriter) : Type 0 where
    committed :
        result ≡ ok tt
        → All IsAccepted batch
        → w' ≡ run_writer crc32c (map append_record batch) w
        → CommitOutcome batch w result w'
    refused :
        (done : List WalRecord) (large : WalRecord) (lost : List WalRecord)
        → batch ≡ done ++ (large ∷ lost)
        → All IsAccepted done
        → max_payload_size < length (encode_payload large) % 2 ^ 32
        → result ≡ err payload_too_large
        → w' ≡ run_writer crc32c (map append_record (done ++ (large ∷ []))) w
        → CommitOutcome batch w result w'

  CommitOutcome-cons :
      (r : WalRecord) (batch : List WalRecord) (w : WalWriter) (result : Committed) (w' : WalWriter)
      → IsAccepted r
      → CommitOutcome batch (append crc32c r w).1 result w'
      → CommitOutcome (r ∷ batch) w result w'
  unfolding run_writer writer_step
  CommitOutcome-cons r batch w result w' b (committed e a f) = committed e (b, a) f
  CommitOutcome-cons r batch w result w' b (refused done large lost e a l f g) =
      refused (r ∷ done) large lost (ap (λ (rs : List WalRecord). r ∷ rs) e) (b, a) l f g

  append-refused :
      (r : WalRecord) (w : WalWriter)
      → ltb max_payload_size (length (encode_payload r) % 2 ^ 32) ≡ true
      → (append crc32c r w).0 ≡ err payload_too_large
  unfolding append
  append-refused r w h = rw h refl

  append-accepted :
      (r : WalRecord) (w : WalWriter)
      → ltb max_payload_size (length (encode_payload r) % 2 ^ 32) ≡ false
      → (append crc32c r w).0 ≡ ok (wrapping_add w.current_lsn 1)
  unfolding append
  append-accepted r w h = rw h refl

  append_all-CommitOutcome :
      (batch : List WalRecord) (w : WalWriter)
      → CommitOutcome batch w (append_all batch w).0 (append_all batch w).1
  unfolding append_all run_writer writer_step
  append_all-CommitOutcome [] w = committed refl tt refl
  append_all-CommitOutcome (r ∷ batch) w =
      elim (Bool-cases (ltb max_payload_size (length (encode_payload r) % 2 ^ 32))) [
        | inl b ↦ rw (append-refused r w b) (refused [] r batch refl tt (ltb→lt _ _ b) refl refl)
        | inr b ↦ rw (append-accepted r w b) (
            CommitOutcome-cons r batch w _ _ (ground arith)
              (append_all-CommitOutcome batch (append crc32c r w).1))
      ]

  insert_by_lsn-first :
      (r : WalRecord) (rs : List WalRecord) → r.lsn ≡ 0 → insert_by_lsn r rs ≡ r ∷ rs
  unfolding insert_by_lsn
  insert_by_lsn-first r [] h = refl
  insert_by_lsn-first r (s ∷ rs) h = ground arith

  sort_by_lsn_submitted : (rs : List WalRecord) → All (λ r. r.lsn ≡ 0) rs → sort_by_lsn rs ≡ rs
  unfolding sort_by_lsn
  sort_by_lsn_submitted [] h = refl
  sort_by_lsn_submitted (r ∷ rs) h =
      ap (insert_by_lsn r) (sort_by_lsn_submitted rs h.1) ∙ insert_by_lsn-first r rs h.0

  -- If no submitted record has a number, a run empties the queue. Either it succeeds, and it has
  -- accepted every record and appended all of them in the order of submission; or it fails, and it
  -- has appended those up to the first whose payload is too large, having accepted each before
  -- that, and those after it are lost.
  pub run_once-CommitOutcome :
      (g : GroupCommit) (w : WalWriter)
      → All (λ r. r.lsn ≡ 0) g.pending
      → let out = run_once g w in (out.1.pending ≡ []) × CommitOutcome g.pending w out.0 out.2
  unfolding run_once
  run_once-CommitOutcome g w h =
      rw (sort_by_lsn_submitted g.pending h) (refl, append_all-CommitOutcome g.pending w)
