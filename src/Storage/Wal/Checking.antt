-- ===== src/Storage/Wal/Checking.antt =====
-- What the reader of nova-storage/src/wal.rs has checked of a record that it gives out.
use nova_runtime.Base.{
  ℕ, Bool, true, false, ◌≤◌, ◌≡◌, ◌≢◌, refl, sym, ap, Option, none, some, length, take, drop, ltb,
  nat_beq, nat_beq_iff, if◌then◌else◌, arith, ok, err, Result, >>=-eq-ok, ok_inj, ◌∙◌,
}
use nova_runtime.Storage.Bytes.{Bytes, of_le}
use nova_runtime.Storage.Wal.{WalRecord, WalRecordType, WalError, wal_magic, from_u16}
use nova_runtime.Storage.Wal.Reader.{read_record, read_body, read_payload, decode_any, with_payload}

if-eq-ok :
    {A : Type 0} (b : Bool) (x : Result WalError A) (e : WalError) (a : A)
    → (if b then x else err e) ≡ ok a
    → (b ≡ true) × (x ≡ ok a)
if-eq-ok true x e a h = (refl, h)
if-eq-ok false x e a h = cc

-- A result, and the bytes that are left.
abbrev Outcome : Type 0
Outcome = Result WalError WalRecord × Bytes

err-neq-ok :
    (e : WalError) (a : Bytes) (o : Outcome) → (err e, a) ≡ o → (r : WalRecord) → o.0 ≢ ok r
err-neq-ok e a o h r = λ k. absurd (err_ok (ap (λ (p : Outcome). p.0) h ∙ k))
  where
    err_ok : ◌≡◌ {A = Result WalError WalRecord} (err e) (ok r) → ⊥
    err_ok k = cc

then-eq-ok :
    (b : Bool) (x : Outcome) (e : WalError) (a : Bytes) (r : WalRecord) (rest : Bytes)
    → (if b then x else (err e, a)) ≡ (ok r, rest)
    → (b ≡ true) × (x ≡ (ok r, rest))
then-eq-ok true x e a r rest h = (refl, h)
then-eq-ok false x e a r rest h = absurd (err-neq-ok e a _ h r refl)

else-eq-ok :
    (b : Bool) (x : Outcome) (e : WalError) (a : Bytes) (r : WalRecord) (rest : Bytes)
    → (if b then (err e, a) else x) ≡ (ok r, rest)
    → (b ≡ false) × (x ≡ (ok r, rest))
else-eq-ok true x e a r rest h = absurd (err-neq-ok e a _ h r refl)
else-eq-ok false x e a r rest h = (refl, h)

module _ (crc32c : Bytes → ℕ) where
  read_payload-checksum :
      (lsn sum : ℕ) (t : WalRecordType) (payload : Bytes) (r : WalRecord)
      → read_payload crc32c lsn sum t payload ≡ ok r
      → (t ≡ r.record_type) × (r.lsn ≡ lsn) × (r.checksum ≡ sum) × (crc32c payload ≡ r.checksum)
  unfolding read_payload
  read_payload-checksum lsn sum t payload r h =
      let checked = if-eq-ok (nat_beq (crc32c payload) sum) _ _ r h in
      let decoded =
        >>=-eq-ok (decode_any crc32c payload) (λ d. ok (with_payload crc32c lsn t sum d))
          checked.1 in
      let made = ok_inj decoded.2 in
      let sums : crc32c payload ≡ sum = (nat_beq_iff _ _).0 checked.0 in
      (
        ap (λ (s : WalRecord). s.record_type) made,
        sym (ap (λ (s : WalRecord). s.lsn) made),
        sym (ap (λ (s : WalRecord). s.checksum) made),
        sums ∙ ap (λ (s : WalRecord). s.checksum) made,
      )

  read_body-checksum :
      (lsn sum len : ℕ) (t : Option WalRecordType) (body : Bytes) (r : WalRecord) (rest : Bytes)
      → read_body crc32c lsn sum len t body ≡ (ok r, rest)
      → (t ≡ some r.record_type)
        × (r.lsn ≡ lsn)
        × (r.checksum ≡ sum)
        × (len ≤ length body)
        × (crc32c (take len body) ≡ r.checksum)
        × (rest ≡ drop len body)
  read_body-checksum lsn sum len none body r rest h = absurd (err-neq-ok _ _ _ h r refl)
  read_body-checksum lsn sum len (some t) body r rest h =
      let long = else-eq-ok (ltb (length body) len) _ _ _ r rest h in
      let p =
        read_payload-checksum lsn sum t (take len body) r (ap (λ (o : Outcome). o.0) long.1) in
      (ap some p.0, p.1, p.2, len-le long.0, p.3, sym (ap (λ (o : Outcome). o.1) long.1))
    where
      len-le : ltb (length body) len ≡ false → len ≤ length body
      len-le e = ground arith

  -- The header and payload that stand behind a record.
  abbrev pub IsChecked : Bytes → WalRecord → Bytes → Type 0
  IsChecked file r rest =
      let len = of_le (take 4 (drop 8 file)) in
      let body = drop 24 file in
      (of_le (take 4 file) ≡ wal_magic)
      × (from_u16 (of_le (take 2 (drop 20 file))) ≡ some r.record_type)
      × (r.lsn ≡ of_le (take 8 (drop 12 file)))
      × (r.checksum ≡ of_le (take 4 (drop 4 file)))
      × (len ≤ length body)
      × (crc32c (take len body) ≡ r.checksum)
      × (rest ≡ drop len body)

  -- If a record is read from the front of some bytes, its header begins with the magic number and
  -- holds the type, the number and the checksum of the record, its whole payload is there and has
  -- that checksum, and what is unread is what follows the payload.
  pub read_record-IsChecked :
      (file : Bytes) (r : WalRecord) (rest : Bytes)
      → read_record crc32c file ≡ (ok r, rest)
      → IsChecked file r rest
  unfolding read_record
  read_record-IsChecked file r rest h =
      let known = then-eq-ok (nat_beq (of_le (take 4 file)) wal_magic) _ _ _ r rest h in
      let p = read_body-checksum _ _ _ _ _ r rest known.1 in
      ((nat_beq_iff _ _).0 known.0, p.0, p.1, p.2, p.3, p.4, p.5)
