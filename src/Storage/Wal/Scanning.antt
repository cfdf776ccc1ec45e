-- ===== src/Storage/Wal/Scanning.antt =====
-- What the reader of nova-storage/src/wal.rs does on any bytes, those of a damaged log included.
use nova_runtime.Base.{
  ℕ, ◌+◌, ◌<◌, ◌≤◌, ◌≡◌, ◌≢◌, refl, sym, ap, List, [], ◌∷◌, ◌++◌, Option, none, some, length, take,
  drop, concat, ltb, nat_beq, if-both, List-cases, ◌⊎◌, ◌∙◌, arith, suc, zero, ok, err, Result,
  ◌>>=◌, Bool-cases, inl, inr, length-append, length-drop, Bool, true, false,
}
use mathlib.Core.Bool.{true≢false}
use nova_runtime.Storage.Bytes.{Bytes, of_le}
use nova_runtime.Storage.Wal.{
  WalRecord, WalRecordType, WalError, decode_payload, decode_key, decode_value, decode_sized,
  out_of_fuel, wal_magic, payload_too_short, key_truncated, value_length_truncated,
}
use nova_runtime.Storage.Wal.Reader.{
  WalReader, read_from, scan, scan_step, read_next, read_open, read_segments, Scan, one_read,
  read_record, read_body, read_payload, decode_any, with_payload, seek, Read,
}

abbrev is_out_of_fuel : WalError → Bool
is_out_of_fuel out_of_fuel = true
is_out_of_fuel _ = false

abbrev ran_out : {A : Type 0} → Result WalError A → Bool
ran_out (ok a) = false
ran_out (err e) = is_out_of_fuel e

-- A result that the code can give.
IsProper : {A : Type 0} → Result WalError A → Type 0
IsProper r = ran_out r ≡ false

ok-IsProper : {A : Type 0} (a : A) → IsProper {A = A} (ok a)
unfolding IsProper
ok-IsProper a = refl

err-IsProper : (A : Type 0) (e : WalError) → is_out_of_fuel e ≡ false → IsProper {A = A} (err e)
unfolding IsProper
err-IsProper A e h = h

then-IsProper :
    {A B : Type 0} (r : Result WalError A) (f : A → B) → IsProper r → IsProper (r >>= λ a. ok (f a))
unfolding IsProper
then-IsProper (ok a) f p = refl
then-IsProper (err e) f p = p

decode_sized-IsProper :
    (tx : ℕ) (key : Bytes) (n : ℕ) (bytes : Bytes) → IsProper (decode_sized tx key n bytes)
unfolding decode_sized
decode_sized-IsProper tx key n bytes =
    if-both IsProper _ _ _ (if-both IsProper _ _ _ (err-IsProper _ _ refl) (ok-IsProper _))
      (ok-IsProper _)

decode_value-IsProper : (tx : ℕ) (key bytes : Bytes) → IsProper (decode_value tx key bytes)
unfolding decode_value
decode_value-IsProper tx key bytes =
    if-both IsProper (ltb (length bytes) 4) _ _ (err-IsProper _ value_length_truncated refl)
      (decode_sized-IsProper tx key (of_le (take 4 bytes)) (drop 4 bytes))

decode_key-IsProper : (tx n : ℕ) (bytes : Bytes) → IsProper (decode_key tx n bytes)
unfolding decode_key
decode_key-IsProper tx n bytes =
    if-both IsProper (ltb (length bytes) n) _ _ (err-IsProper _ key_truncated refl)
      (decode_value-IsProper tx (take n bytes) (drop n bytes))

decode_payload-IsProper : (bytes : Bytes) → IsProper (decode_payload bytes)
unfolding decode_payload
decode_payload-IsProper bytes =
    if-both IsProper (ltb (length bytes) 24) _ _ (err-IsProper _ payload_too_short refl) (
      decode_key-IsProper (of_le (take 8 bytes)) (of_le (take 4 (drop 8 bytes)))
        (drop 4 (drop 8 bytes)))

module _ (crc32c : Bytes → ℕ) where
  read_payload-IsProper :
      (lsn sum : ℕ) (t : WalRecordType) (payload : Bytes)
      → IsProper (read_payload crc32c lsn sum t payload)
  unfolding read_payload
  read_payload-IsProper lsn sum t payload =
      if-both IsProper _ _ _
        (then-IsProper (decode_any crc32c payload) (with_payload crc32c lsn t sum)
          (if-both IsProper _ _ _ (decode_payload-IsProper payload) (ok-IsProper _)))
        (err-IsProper _ _ refl)

  read_body-IsProper :
      (lsn sum n : ℕ) (t : Option WalRecordType) (rest : Bytes)
      → IsProper (read_body crc32c lsn sum n t rest).0
        × (length (read_body crc32c lsn sum n t rest).1 ≤ length rest)
  read_body-IsProper lsn sum n none rest = (err-IsProper _ _ refl, omega arith)
  read_body-IsProper lsn sum n (some t) rest =
      if-both (λ (o : Result WalError WalRecord × Bytes). IsProper o.0 × (length o.1 ≤ length rest))
        (ltb (length rest) n) _ _ (err-IsProper _ _ refl, omega arith)
        (read_payload-IsProper lsn sum t (take n rest), omega (arith, length-drop n rest))

  read_record-IsProper :
      (file : Bytes)
      → IsProper (read_record crc32c file).0
        × (length (read_record crc32c file).1 ≤ length (drop 24 file))
  unfolding read_record
  read_record-IsProper file =
      if-both
        (λ (o : Result WalError WalRecord × Bytes).
          IsProper o.0 × (length o.1 ≤ length (drop 24 file)))
        (nat_beq (of_le (take 4 file)) wal_magic) _ _ (read_body-IsProper _ _ _ _ (drop 24 file))
        (err-IsProper _ _ refl, omega arith)

  -- How many bytes a reader has before it.
  abbrev pub unread : List Bytes → Option Bytes → ℕ
  unread later none = 0
  unread later (some file) = length file + length (concat later)

  -- A read ends properly, and one that gives a record leaves less to read.
  IsProgress : ℕ → Read crc32c → Type 0
  IsProgress n out =
      IsProper out.0 × ((r : WalRecord) → out.0 ≡ ok (some r) → unread out.1 out.2 < n)

  IsProgress-mono : (m n : ℕ) (out : Read crc32c) → m ≤ n → IsProgress m out → IsProgress n out
  unfolding IsProgress
  IsProgress-mono m n out h p = (p.0, λ r e. omega (arith, p.1 r e))

  -- The segments are at their end.
  end-IsProgress : (n : ℕ) (later : List Bytes) → IsProgress n (ok none, later, none)
  unfolding IsProgress
  end-IsProgress n later = (ok-IsProper none, λ r e. cc)

  one_read-IsProgress :
      (later : List Bytes) (file : Bytes)
      → 24 ≤ length file
      → IsProgress (unread later (some file)) (one_read crc32c later (read_record crc32c file))
  unfolding IsProgress
  one_read-IsProgress later file h =
      let p = read_record-IsProper file in
      (
        then-IsProper (read_record crc32c file).0 some p.0,
        λ r e. omega (arith, p.1, length-drop 24 file),
      )

  read_segments-IsProgress :
      (later : List Bytes) (file : Bytes)
      → IsProgress (unread later (some file)) (read_segments crc32c later file)
  unfolding read_segments
  read_segments-IsProgress [] file = elim (Bool-cases (ltb (length file) 24)) [
    | inl h ↦ rw h (end-IsProgress _ [])
    | inr h ↦ rw h (one_read-IsProgress [] file (ground arith))
  ]
  read_segments-IsProgress (s ∷ ss) file = elim (Bool-cases (ltb (length file) 24)) [
    | inl h ↦ rw h (
        IsProgress-mono _ _ _ (omega (arith, length-append s (concat ss)))
          (read_segments-IsProgress ss s))
    | inr h ↦ rw h (one_read-IsProgress (s ∷ ss) file (ground arith))
  ]

  read_open-IsProgress :
      (later : List Bytes) (file : Option Bytes)
      → IsProgress (unread later file) (read_open crc32c later file)
  read_open-IsProgress later none = end-IsProgress 0 later
  read_open-IsProgress later (some file) = read_segments-IsProgress later file

  scan_step-IsProper :
      (onward : WalReader → List WalRecord → Scan crc32c) (r : WalReader) (found : List WalRecord)
      (result : Result WalError (Option WalRecord))
      → IsProper result
      → ((x : WalRecord) → result ≡ ok (some x) → IsProper (onward r (found ++ (x ∷ []))).0)
      → IsProper (scan_step crc32c onward r found result).0
  unfolding IsProper
  scan_step-IsProper onward r found (err e) p k = p
  scan_step-IsProper onward r found (ok none) p k = refl
  scan_step-IsProper onward r found (ok (some x)) p k = k x refl

  scan-IsProper :
      (fuel : ℕ) (r : WalReader) (found : List WalRecord)
      → unread r.later r.file < fuel
      → IsProper (scan crc32c fuel r found).0
  unfolding scan read_next IsProgress
  scan-IsProper zero r found h = absurd (omega arith)
  scan-IsProper (suc fuel) r found h =
      let p = read_open-IsProgress r.later r.file in
      scan_step-IsProper (scan crc32c fuel) (read_next crc32c r).1 found (read_next crc32c r).0 p.0
        (λ x e.
          scan-IsProper fuel (read_next crc32c r).1 (found ++ (x ∷ [])) (omega (arith, p.1 x e)))

  seek-unread : (r : WalReader) → unread (seek r).later (seek r).file ≤ length (concat r.segments)
  seek-unread r = seek_at (List-cases r.segments)
    where
      seek_at :
          (r.segments ≡ []) ⊎ ((x : Bytes) × (ys : List Bytes) × (r.segments ≡ x ∷ ys))
          → unread (seek r).later (seek r).file ≤ length (concat r.segments)
      seek_at (inl e) = rw e (omega arith)
      seek_at (inr (s, ss, e)) = rw e (omega (arith, length-append s (concat ss)))

  -- Reading from the start ends on any bytes in any number of segments: one round more than there
  -- are bytes is enough.
  pub read_from-neq-out_of_fuel : (r : WalReader) → (read_from crc32c r).0 ≢ err out_of_fuel
  unfolding read_from IsProper
  read_from-neq-out_of_fuel r = λ e.
      let p =
        scan-IsProper (suc (length (concat r.segments))) (seek r) []
          (omega (arith, seek-unread r)) in
      true≢false (sym (ap ran_out e) ∙ p)
