-- ===== src/Storage/Wal/Payload.antt =====
-- The bytes of a record of nova-storage/src/wal.rs, written and read back.
use nova_runtime.Base.{
  ℕ, ◌+◌, ◌%◌, ◌^◌, ◌<◌, ◌≤◌, ◌≡◌, refl, false, [], ◌∷◌, ◌++◌, Option, none, some, length, ltb, ok,
  arith, length-append, suc,
}
use nova_runtime.Storage.Bytes.{
  Bytes, to_le, length-to_le, of_le-to_le, take-length_append, drop-length_append, of_le-take,
  drop-to_le, length-to_le_append,
}
use nova_runtime.Storage.Wal.{
  WalRecord, encode_payload, decode_payload, decode_key, decode_value, decode_sized,
  decode_timestamp, value_bytes,
}

-- What can be read back of a value: an empty one is read as no value.
abbrev pub stored_value : Option Bytes → Option Bytes
stored_value none = none
stored_value (some []) = none
stored_value (some (b ∷ bs)) = some (b ∷ bs)

-- The fields fit their types and the buffer's length its 32 bits.
pub record IsStorable (r : WalRecord) : Type 0 where
  pub tx_id-lt : r.tx_id < 2 ^ 64
  pub timestamp-lt : r.timestamp < 2 ^ 64
  pub size-lt : length r.key + length (value_bytes r.value) + 24 < 2 ^ 32

decode_timestamp-to_le : (t : ℕ) → t < 2 ^ 64 → decode_timestamp (to_le 8 t) ≡ t
unfolding decode_timestamp to_le
decode_timestamp-to_le t h = of_le-to_le 8 t h

pub mod_small : (n : ℕ) → n < 2 ^ 32 → n % 2 ^ 32 ≡ n
mod_small n h = omega arith

-- A buffer that begins with `xs` is long enough for them.
ltb-length_append : (xs ys : Bytes) (n : ℕ) → length xs ≡ n → ltb (length (xs ++ ys)) n ≡ false
ltb-length_append xs ys n h = ground (arith, length-append xs ys)

decode_sized-some :
    (tx_id : ℕ) (key : Bytes) (n : ℕ) (xs : Bytes) (t : ℕ)
    → t < 2 ^ 64
    → 0 < n
    → length xs ≡ n
    → decode_sized tx_id key n (xs ++ to_le 8 t) ≡ ok (tx_id, key, some xs, t)
unfolding decode_sized
decode_sized-some tx_id key n xs t h p e = ground (
  arith,
  ltb-length_append xs (to_le 8 t) n e,
  take-length_append n xs (to_le 8 t) e,
  drop-length_append n xs (to_le 8 t) e,
  decode_timestamp-to_le t h,
)

decode_sized-append :
    (tx_id : ℕ) (key : Bytes) (v : Option Bytes) (t : ℕ)
    → t < 2 ^ 64
    → decode_sized tx_id key (length (value_bytes v)) (value_bytes v ++ to_le 8 t)
      ≡ ok (tx_id, key, stored_value v, t)
unfolding decode_sized
decode_sized-append tx_id key none t h = rw (decode_timestamp-to_le t h) refl
decode_sized-append tx_id key (some []) t h = rw (decode_timestamp-to_le t h) refl
decode_sized-append tx_id key (some (b ∷ bs)) t h =
    decode_sized-some tx_id key (suc (length bs)) (b ∷ bs) t h (omega arith) refl

decode_value-append :
    (tx_id : ℕ) (key : Bytes) (n : ℕ) (rest : Bytes)
    → n < 2 ^ 32
    → decode_value tx_id key (to_le 4 n ++ rest) ≡ decode_sized tx_id key n rest
unfolding decode_value
decode_value-append tx_id key n rest h =
    ground (arith, length-to_le_append 4 n rest, of_le-take 4 n rest h, drop-to_le 4 n rest)

decode_key-append :
    (tx_id n : ℕ) (key rest : Bytes)
    → length key ≡ n
    → decode_key tx_id n (key ++ rest) ≡ decode_value tx_id key rest
unfolding decode_key
decode_key-append tx_id n key rest h = ground (
  arith,
  ltb-length_append key rest n h,
  take-length_append n key rest h,
  drop-length_append n key rest h,
)

decode_payload-append :
    (tx_id n : ℕ) (rest : Bytes)
    → tx_id < 2 ^ 64
    → n < 2 ^ 32
    → 12 ≤ length rest
    → decode_payload (to_le 8 tx_id ++ (to_le 4 n ++ rest)) ≡ decode_key tx_id n rest
unfolding decode_payload
decode_payload-append tx_id n rest h k l = ground (
  arith,
  length-to_le_append 8 tx_id (to_le 4 n ++ rest),
  length-to_le_append 4 n rest,
  of_le-take 8 tx_id (to_le 4 n ++ rest) h,
  drop-to_le 8 tx_id (to_le 4 n ++ rest),
  of_le-take 4 n rest k,
  drop-to_le 4 n rest,
)

body-length :
    (key : Bytes) (n : ℕ) (value : Bytes) (t : ℕ)
    → length (key ++ (to_le 4 n ++ (value ++ to_le 8 t))) ≡ length key + length value + 12
body-length key n value t = omega (
  arith,
  length-append key (to_le 4 n ++ (value ++ to_le 8 t)),
  length-to_le_append 4 n (value ++ to_le 8 t),
  length-append value (to_le 8 t),
  length-to_le 8 t,
)

pub length-encode_payload :
    (r : WalRecord) → length (encode_payload r) ≡ length r.key + length (value_bytes r.value) + 24
unfolding encode_payload to_le
length-encode_payload r = omega (
  arith,
  body-length r.key (length (value_bytes r.value) % 2 ^ 32) (value_bytes r.value) r.timestamp,
)

-- If the transaction and the time fit 64 bits and the payload is shorter than 2^32 bytes, the
-- payload of a record decodes to its transaction, its key, its value and its time, where an empty
-- value comes back as none.
pub decode_payload-encode_payload :
    (r : WalRecord)
    → IsStorable r
    → decode_payload (encode_payload r) ≡ ok (r.tx_id, r.key, stored_value r.value, r.timestamp)
unfolding encode_payload
decode_payload-encode_payload r h =
    let value = value_bytes r.value in
    let tail = to_le 4 (length value) ++ (value ++ to_le 8 r.timestamp) in
    let long : 12 ≤ length (r.key ++ tail) =
      omega (arith, body-length r.key (length value) value r.timestamp) in
    rw
      (
        mod_small (length r.key) (omega (arith, h.size-lt)),
        mod_small (length value) (omega (arith, h.size-lt)),
        decode_payload-append r.tx_id (length r.key) (r.key ++ tail) h.tx_id-lt
            (omega (arith, h.size-lt)) long,
        decode_key-append r.tx_id (length r.key) r.key tail refl,
        decode_value-append r.tx_id r.key (length value) (value ++ to_le 8 r.timestamp)
            (omega (arith, h.size-lt)),
      )
      (decode_sized-append r.tx_id r.key r.value r.timestamp h.timestamp-lt)
