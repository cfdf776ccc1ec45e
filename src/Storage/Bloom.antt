-- ===== src/Storage/Bloom.antt =====
-- `BloomFilter` of nova-storage/src/lsm.rs. The hash of the crate `xxhash` is a parameter, and so is the
-- number of hashes that `new` computes in floating point. `next_power_of_two` is modelled up to
-- 2 ^ 63, where the standard library's ends.
pub mod Members
pub mod Encoding
pub mod Tests
use nova_runtime.Base.{
  ℕ, zero, suc, ◌+◌, ◌-◌, ◌*◌, ◌/◌, ◌%◌, ◌^◌, min, max, Bool, true, false, List, [], ◌∷◌, ◌++◌,
  Option, none, some, length, map, take, drop, get_elem?, ltb, leb, nat_beq, if◌then◌else◌, ◌||◌,
  not, Result, err, ok, is_ok, wrapping_add,
}
use nova_runtime.Storage.Bytes.{Bytes, to_le, of_le}

pub record BloomFilter : Type 0 where
  pub bits : List ℕ
  pub num_hashes : ℕ
  pub num_bits : ℕ
  pub num_keys : ℕ

abbrev pub default_bloom_bits_per_key : ℕ
default_bloom_bits_per_key = 10

abbrev pub zeros : ℕ → List ℕ
zeros zero = []
zeros (suc n) = 0 ∷ zeros n

-- The first doubling of `power` that is no less than `n`.
unfoldable pub power_above : ℕ → ℕ → ℕ → ℕ
power_above zero power n = power
power_above (suc fuel) power n =
    let onward = power_above fuel (2 * power) n in if leb n power then power else onward

-- 63 doublings of 1.
abbrev pub next_power_of_two : ℕ → ℕ
next_power_of_two n = power_above 63 1 n

abbrev pub bits_for : ℕ → ℕ
bits_for raw_bits = if ltb raw_bits 64 then 64 else next_power_of_two raw_bits

abbrev pub clamp : ℕ → ℕ
clamp n = min (max n 1) 30

-- `word & (1 << bit) != 0` and `word | (1 << bit)`.
unfoldable pub test_bit : ℕ → ℕ → Bool
test_bit zero word = nat_beq (word % 2) 1
test_bit (suc bit) word = test_bit bit (word / 2)

unfoldable pub set_bit : ℕ → ℕ → ℕ
set_bit zero word = if nat_beq (word % 2) 1 then word else word + 1
set_bit (suc bit) word = set_bit bit (word / 2) * 2 + word % 2

unfoldable pub set_word : ℕ → ℕ → List ℕ → List ℕ
set_word word bit [] = []
set_word zero bit (w ∷ ws) = set_bit bit w ∷ ws
set_word (suc word) bit (w ∷ ws) = w ∷ set_word word bit ws

abbrev pub test_in : ℕ → Option ℕ → Bool
test_in bit none = false
test_in bit (some w) = test_bit bit w

abbrev pub is_set : ℕ → List ℕ → Bool
is_set idx bits = test_in (idx % 64) (get_elem? bits (idx / 64))

abbrev pub flip_bit : Bytes → Bytes
flip_bit key = map (λ b. 255 - b) key

module _ (hashes_for : ℕ → ℕ → ℕ) where
  unfoldable pub new : ℕ → ℕ → BloomFilter
  new num_keys bits_per_key =
      let bits_per = if nat_beq bits_per_key 0 then default_bloom_bits_per_key else bits_per_key in
      let keys = max num_keys 1 in
      let num_bits = bits_for (keys * bits_per) in
      record {
        bits = zeros (max (num_bits / 64) 1);
        num_hashes = clamp (hashes_for num_bits keys);
        num_bits = num_bits;
        num_keys = keys;
      }

module _ (xxh3_64 : Bytes → ℕ) where
  -- The bit of the `i`-th hash of a key.
  abbrev pub probe : ℕ → Bytes → ℕ → ℕ
  probe num_bits key i = wrapping_add (xxh3_64 key) (i * xxh3_64 (flip_bit key) % 2 ^ 64) % num_bits

  -- The loop has `left` rounds to go, from `i` on.
  unfoldable pub insert_loop : ℕ → ℕ → ℕ → Bytes → List ℕ → List ℕ
  insert_loop zero i num_bits key bits = bits
  insert_loop (suc left) i num_bits key bits =
      let idx = probe num_bits key i in
      insert_loop left (suc i) num_bits key (set_word (idx / 64) (idx % 64) bits)

  unfoldable pub insert : Bytes → BloomFilter → BloomFilter
  insert key f = record f { bits = insert_loop f.num_hashes 0 f.num_bits key f.bits }

  unfoldable pub contain_loop : ℕ → ℕ → ℕ → Bytes → List ℕ → Bool
  contain_loop zero i num_bits key bits = true
  contain_loop (suc left) i num_bits key bits =
      let rest = contain_loop left (suc i) num_bits key bits in
      if is_set (probe num_bits key i) bits then rest else false

  unfoldable pub may_contain : Bytes → BloomFilter → Bool
  may_contain key f =
      if nat_beq (length f.bits) 0
      then true
      else if nat_beq f.num_bits 0
      then true
      else contain_loop f.num_hashes 0 f.num_bits key f.bits

unfoldable pub encode_words : List ℕ → Bytes
encode_words [] = []
encode_words (w ∷ ws) = to_le 8 w ++ encode_words ws

unfoldable pub encode : BloomFilter → Bytes
encode f =
    to_le 4 f.num_hashes
    ++ (to_le 8 f.num_bits
        ++ (to_le 4 f.num_keys ++ (to_le 4 (length f.bits % 2 ^ 32) ++ encode_words f.bits)))

pub data BloomError : Type 0 where
  too_short zero_hashes_or_bits invalid_bit_len truncated : BloomError

unfoldable pub decode_words : ℕ → Bytes → List ℕ
decode_words zero bytes = []
decode_words (suc n) bytes = of_le (take 8 bytes) ∷ decode_words n (drop 8 bytes)

unfoldable pub decode_bits : ℕ → ℕ → ℕ → ℕ → Bytes → Result BloomError BloomFilter
decode_bits num_hashes num_bits num_keys bit_len rest =
    if nat_beq num_hashes 0 || nat_beq num_bits 0
    then err zero_hashes_or_bits
    else if nat_beq bit_len 0 || ltb (1024 * 1024) bit_len
    then err invalid_bit_len
    else if ltb (length rest) (bit_len * 8)
    then err truncated
    else ok (record {
      bits = decode_words bit_len rest;
      num_hashes = num_hashes;
      num_bits = num_bits;
      num_keys = num_keys;
    })

unfoldable pub decode : Bytes → Result BloomError BloomFilter
decode bytes =
    if ltb (length bytes) 20
    then err too_short
    else decode_bits (of_le (take 4 bytes)) (of_le (take 8 (drop 4 bytes)))
        (of_le (take 4 (drop 12 bytes))) (of_le (take 4 (drop 16 bytes))) (drop 20 bytes)
