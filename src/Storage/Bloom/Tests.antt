-- ===== src/Storage/Bloom/Tests.antt =====
-- Runs of the filter of nova-storage/src/lsm.rs with a small hash.
use nova_runtime.Base.{ℕ, ◌+◌, ◌*◌, ◌≡◌, refl, true, false, [], ◌∷◌, All, ok, arith}
use nova_runtime.Storage.Bytes.{Bytes, of_le}
use nova_runtime.Storage.Bloom.{
  BloomFilter, new, power_above, insert, insert_loop, set_word, set_bit, test_bit, may_contain,
  contain_loop, decode, encode,
}
use nova_runtime.Storage.Bloom.Members.{insert_all, may_contain-insert_all}
use nova_runtime.Storage.Bloom.Encoding.{IsEncodable, decode-encode}

abbrev hash : Bytes → ℕ
hash key = of_le key * 7 + 3

abbrev three : ℕ → ℕ → ℕ
three num_bits num_keys = 3

-- A filter with one key denies another.
denied : may_contain hash (2 ∷ []) (insert_all hash ((1 ∷ []) ∷ []) (new three 4 10)) ≡ false
unfolding may_contain insert_all insert insert_loop new set_word set_bit test_bit contain_loop of_le
    power_above
denied = refl

may_contain-insert_all_example :
    All
      (λ key.
        may_contain hash key (insert_all hash ((1 ∷ []) ∷ (2 ∷ []) ∷ []) (new three 4 10)) ≡ true)
      ((1 ∷ []) ∷ (2 ∷ []) ∷ [])
may_contain-insert_all_example = may_contain-insert_all three hash 4 10 ((1 ∷ []) ∷ (2 ∷ []) ∷ [])

abbrev filter : BloomFilter
filter = record { bits = 5 ∷ []; num_hashes = 3; num_bits = 64; num_keys = 4 }

filter-IsEncodable : IsEncodable filter
filter-IsEncodable = record {
  num_hashes-lt = omega arith;
  hashed = omega arith;
  num_bits-lt = omega arith;
  sized = omega arith;
  num_keys-lt = omega arith;
  some_words = omega arith;
  few_words = omega arith;
  words-lt = (omega arith, tt);
}

decode-encode_example : decode (encode filter) ≡ ok filter
decode-encode_example = decode-encode filter filter-IsEncodable
