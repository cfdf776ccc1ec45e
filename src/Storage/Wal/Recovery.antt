-- ===== src/Storage/Wal/Recovery.antt =====
-- The record number with which a writer of nova-storage/src/wal.rs resumes.
use nova_runtime.Base.{
  ℕ, ◌≤◌, ◌≡◌, refl, sym, ap, ◌∙◌, List, [], ◌∷◌, ◌++◌, length, concat, arith, length-append, suc,
  zero, append_assoc, All, All-split, map,
}
use nova_runtime.Storage.Bytes.{Bytes, drop-length_append}
use nova_runtime.Storage.Wal.{WalRecord, encode_payload}
use nova_runtime.Storage.Wal.Writer.{
  recover_loop, recover_lsn_from_segment, highest_lsn, larger, header, closed_of, last_of,
}
use nova_runtime.Storage.Wal.Records.{
  IsWritten, record_bytes, header_len, header_lsn, drop-header, length-header,
}
use nova_runtime.Storage.Wal.Replay.{records_bytes, length-records_bytes}

-- The highest number among records, or the one given.
unfoldable pub highest : List WalRecord → ℕ → ℕ
highest [] lsn = lsn
highest (r ∷ rs) lsn = highest rs (larger r.lsn lsn)

highest-larger : (rs : List WalRecord) (a b : ℕ) → highest rs (larger a b) ≡ larger (highest rs a) b
unfolding highest
highest-larger [] a b = refl
highest-larger (r ∷ rs) a b =
    ap (λ (n : ℕ). highest rs n) (larger_assoc r.lsn a b) ∙ highest-larger rs (larger r.lsn a) b
  where
    larger_assoc : (x y z : ℕ) → larger x (larger y z) ≡ larger (larger x y) z
    larger_assoc x y z = ground arith

pub highest-append :
    (xs ys : List WalRecord) (lsn : ℕ) → highest (xs ++ ys) lsn ≡ highest ys (highest xs lsn)
unfolding highest
highest-append [] ys lsn = refl
highest-append (x ∷ xs) ys lsn = highest-append xs ys (larger x.lsn lsn)

pub closed_of-append : (cs : List Bytes) (s : Bytes) → closed_of (cs ++ (s ∷ [])) ≡ cs
closed_of-append [] s = refl
closed_of-append (c ∷ []) s = refl
closed_of-append (c ∷ d ∷ cs) s = ap (λ (l : List Bytes). c ∷ l) (closed_of-append (d ∷ cs) s)

pub last_of-append : (cs : List Bytes) (s : Bytes) → last_of (cs ++ (s ∷ [])) ≡ s
last_of-append [] s = refl
last_of-append (c ∷ []) s = refl
last_of-append (c ∷ d ∷ cs) s = last_of-append (d ∷ cs) s

larger_zero : (lsn : ℕ) → larger 0 lsn ≡ lsn
larger_zero lsn = ground arith

module _ (crc32c : Bytes → ℕ) where
  recover_loop-step :
      (fuel : ℕ) (r : WalRecord) (rest : Bytes) (lsn : ℕ)
      → IsWritten crc32c r
      → recover_loop (suc fuel) (record_bytes crc32c r ++ rest) lsn
        ≡ recover_loop fuel rest (larger r.lsn lsn)
  unfolding recover_loop record_bytes
  recover_loop-step fuel r rest lsn w =
      let sum = r.checksum in
      let payload = encode_payload r in
      let len = length payload in
      let t = r.record_type in
      rw
        (
          append_assoc (header sum len r.lsn t) payload rest,
          header_len sum len r.lsn t (payload ++ rest) (omega (arith, w.small)),
          header_lsn sum len r.lsn t (payload ++ rest) w.lsn-lt,
          drop-header sum len r.lsn t (payload ++ rest),
          length-header sum len r.lsn t (payload ++ rest),
          drop-length_append len payload rest refl,
        )
        (ground (arith, length-append payload rest))

  recover_loop-records_bytes :
      (fuel : ℕ) (rs : List WalRecord) (lsn : ℕ)
      → All (IsWritten crc32c) rs
      → length rs ≤ fuel
      → recover_loop fuel (records_bytes crc32c rs) lsn ≡ highest rs lsn
  unfolding highest records_bytes recover_loop
  recover_loop-records_bytes zero [] lsn w h = refl
  recover_loop-records_bytes (suc fuel) [] lsn w h = refl
  recover_loop-records_bytes zero (r ∷ rs) lsn w h = absurd (omega arith)
  recover_loop-records_bytes (suc fuel) (r ∷ rs) lsn w h =
      recover_loop-step fuel r (records_bytes crc32c rs) lsn w.0
      ∙ recover_loop-records_bytes fuel rs (larger r.lsn lsn) w.1 (omega arith)

  pub highest_lsn-records_bytes :
      (parts : List (List WalRecord)) (lsn : ℕ)
      → All (IsWritten crc32c) (concat parts)
      → highest_lsn (map (records_bytes crc32c) parts) lsn ≡ highest (concat parts) lsn
  unfolding highest_lsn recover_lsn_from_segment highest
  highest_lsn-records_bytes [] lsn w = refl
  highest_lsn-records_bytes (p ∷ ps) lsn w =
      let ws = All-split (IsWritten crc32c) p (concat ps) w in
      ap (λ (n : ℕ). highest_lsn (map (records_bytes crc32c) ps) n)
        (ap (λ (n : ℕ). larger n lsn)
            (recover_loop-records_bytes (length (records_bytes crc32c p)) p 0 ws.0
              (length-records_bytes crc32c p))
          ∙ sym (highest-larger p 0 lsn)
          ∙ ap (λ (n : ℕ). highest p n) (larger_zero lsn))
      ∙ (highest_lsn-records_bytes ps (highest p lsn) ws.1 ∙ sym (highest-append p (concat ps) lsn))
