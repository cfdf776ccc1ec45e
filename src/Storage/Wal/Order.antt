-- ===== src/Storage/Wal/Order.antt =====
-- The numbers of the records that nova-storage/src/wal.rs gives out, also over restarts.
use nova_runtime.Base.{
  ℕ, ◌^◌, ◌<◌, ◌≤◌, ◌≡◌, List, [], ◌∷◌, ◌++◌, length, ltb, arith, suc, ok, All, All-append,
  Bool-cases, inl, inr,
}
use nova_runtime.Storage.Bytes.{Bytes}
use nova_runtime.Storage.Wal.{WalRecord, encode_payload, max_payload_size}
use nova_runtime.Storage.Wal.Reader.{read_from, open_reader}
use nova_runtime.Storage.Wal.Writer.{segments_of, open_writer, larger}
use nova_runtime.Storage.Wal.Recovery.{highest}
use nova_runtime.Storage.Wal.Log.{
  WalCommand, append_record, next_segment, reopen, IsStorableCommand, Log, empty_log, log_step,
  run_log, run_writer, stored,
}
use nova_runtime.Storage.Wal.Refinement.{read_from-run_writer}

-- Each record has a greater number than those before it.
abbrev pub IsAscending : List WalRecord → Type 0
IsAscending [] = Unit
IsAscending (r ∷ rs) = All (λ s. r.lsn < s.lsn) rs × IsAscending rs

abbrev IsUpTo : ℕ → List WalRecord → Type 0
IsUpTo lsn rs = All (λ r. r.lsn ≤ lsn) rs

IsUpTo-mono : (a b : ℕ) (rs : List WalRecord) → a ≤ b → IsUpTo a rs → IsUpTo b rs
IsUpTo-mono a b [] h u = tt
IsUpTo-mono a b (r ∷ rs) h u = (omega (arith, u.0), IsUpTo-mono a b rs h u.1)

le-highest : (rs : List WalRecord) (a : ℕ) → a ≤ highest rs a
unfolding highest
le-highest [] a = omega arith
le-highest (r ∷ rs) a = ground (arith, le-highest rs (larger r.lsn a))

highest-IsUpTo : (rs : List WalRecord) (a : ℕ) → IsUpTo (highest rs a) rs
unfolding highest
highest-IsUpTo [] a = tt
highest-IsUpTo (r ∷ rs) a =
    (ground (arith, le-highest rs (larger r.lsn a)), highest-IsUpTo rs (larger r.lsn a))

IsAscending-snoc :
    (rs : List WalRecord) (r : WalRecord) (lsn : ℕ)
    → lsn < r.lsn
    → IsUpTo lsn rs
    → IsAscending rs
    → IsAscending (rs ++ (r ∷ []))
IsAscending-snoc [] r lsn h u a = (tt, tt)
IsAscending-snoc (s ∷ rs) r lsn h u a = (
  All-append (λ (t : WalRecord). s.lsn < t.lsn) rs (r ∷ []) a.0 (omega (arith, u.0), tt),
  IsAscending-snoc rs r lsn h u.1 a.1,
)

record IsOrdered (log : Log) : Type 0 where
  ascending : IsAscending log.records
  bounded : IsUpTo log.lsn log.records

module _ (crc32c : Bytes → ℕ) where
  append-IsOrdered :
      (r : WalRecord) (log : Log)
      → IsOrdered log
      → IsOrdered (log_step crc32c (append_record r) log)
  unfolding log_step
  append-IsOrdered r log o =
      let lsn = suc log.lsn in
      let up = IsUpTo-mono log.lsn lsn log.records (omega arith) o.bounded in
      elim (Bool-cases (ltb max_payload_size (length (encode_payload r)))) [
        | inl b ↦ rw b (record { ascending = o.ascending; bounded = up })
        | inr b ↦ rw b (record {
          ascending =
              IsAscending-snoc log.records (stored crc32c lsn r) log.lsn (omega arith) o.bounded
                o.ascending;
          bounded =
              All-append (λ (s : WalRecord). s.lsn ≤ lsn) log.records (stored crc32c lsn r ∷ []) up
                (omega arith, tt);
        })
      ]

  run_log-IsOrdered :
      (cs : List WalCommand) (log : Log) → IsOrdered log → IsOrdered (run_log crc32c cs log)
  unfolding run_log log_step
  run_log-IsOrdered [] log o = o
  run_log-IsOrdered (append_record r ∷ cs) log o = run_log-IsOrdered cs _ (append-IsOrdered r log o)
  run_log-IsOrdered (next_segment ∷ cs) log o = run_log-IsOrdered cs _ o
  run_log-IsOrdered (reopen ∷ cs) log o =
      run_log-IsOrdered cs _
        (record { ascending = o.ascending; bounded = highest-IsUpTo log.records 0 })

  -- Under the same conditions, reading from the start succeeds and each record has a greater
  -- number than all before it, also over reopenings of the log.
  pub read_from-IsAscending :
      (crc32c-lt : (bytes : Bytes) → crc32c bytes < 2 ^ 32) (cs : List WalCommand)
      → All IsStorableCommand cs
      → length cs < 2 ^ 64
      → (rs : List WalRecord) × ((read_from crc32c
            (open_reader (segments_of (run_writer crc32c cs (open_writer []))))).0
          ≡ ok rs)
        × IsAscending rs
  read_from-IsAscending crc32c-lt cs s l = (
    (run_log crc32c cs empty_log).records,
    read_from-run_writer crc32c crc32c-lt cs s l,
    (run_log-IsOrdered cs empty_log (record { ascending = tt; bounded = tt })).ascending,
  )
