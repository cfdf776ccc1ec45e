-- ===== src/Storage/Bloom/Encoding.antt =====
-- The bytes of a filter of nova-storage/src/lsm.rs, written and read back.
use nova_runtime.Base.{
  ℕ, ◌*◌, ◌%◌, ◌^◌, ◌≤◌, ◌<◌, ◌≡◌, refl, ap, ap₂, ◌∙◌, false, List, [], ◌∷◌, ◌++◌, length, take,
  drop, ltb, ok, All, arith,
}
use nova_runtime.Storage.Bytes.{
  Bytes, to_le, of_le, of_le-to_le, of_le-take, drop-to_le, length-to_le_append,
}
use nova_runtime.Storage.Bloom.{
  BloomFilter, encode, encode_words, decode, decode_bits, decode_words,
}

-- The fields fit their types, and the words are as many as a reader takes.
pub record IsEncodable (f : BloomFilter) : Type 0 where
  pub num_hashes-lt : f.num_hashes < 2 ^ 32
  pub hashed : 0 < f.num_hashes
  pub num_bits-lt : f.num_bits < 2 ^ 64
  pub sized : 0 < f.num_bits
  pub num_keys-lt : f.num_keys < 2 ^ 32
  pub some_words : 0 < length f.bits
  pub few_words : length f.bits ≤ 1024 * 1024
  pub words-lt : All (λ w. w < 2 ^ 64) f.bits

length-encode_words : (ws : List ℕ) → length (encode_words ws) ≡ length ws * 8
unfolding encode_words
length-encode_words [] = refl
length-encode_words (w ∷ ws) =
    omega (arith, length-to_le_append 8 w (encode_words ws), length-encode_words ws)

decode_words-encode_words :
    (ws : List ℕ) → All (λ w. w < 2 ^ 64) ws → decode_words (length ws) (encode_words ws) ≡ ws
unfolding decode_words encode_words
decode_words-encode_words [] h = refl
decode_words-encode_words (w ∷ ws) h =
    ap₂ (λ (v : ℕ) (vs : List ℕ). v ∷ vs) (of_le-take 8 w (encode_words ws) h.0)
      (ap (λ (rest : Bytes). decode_words (length ws) rest) (drop-to_le 8 w (encode_words ws))
        ∙ decode_words-encode_words ws h.1)

decode_bits-words :
    (f : BloomFilter)
    → IsEncodable f
    → decode_bits f.num_hashes f.num_bits f.num_keys (length f.bits) (encode_words f.bits) ≡ ok f
unfolding decode_bits
decode_bits-words f h = ground (
  arith,
  h.hashed,
  h.sized,
  h.some_words,
  h.few_words,
  length-encode_words f.bits,
  decode_words-encode_words f.bits h.words-lt,
)

module _ (a b c d : ℕ) (words : Bytes) where
  abbrev filter_bytes : Bytes
  filter_bytes = to_le 4 a ++ (to_le 8 b ++ (to_le 4 c ++ (to_le 4 d ++ words)))

  field_hashes : a < 2 ^ 32 → of_le (take 4 filter_bytes) ≡ a
  unfolding to_le
  field_hashes h = of_le-to_le 4 a h

  field_bits : b < 2 ^ 64 → of_le (take 8 (drop 4 filter_bytes)) ≡ b
  unfolding to_le
  field_bits h = of_le-to_le 8 b h

  field_keys : c < 2 ^ 32 → of_le (take 4 (drop 12 filter_bytes)) ≡ c
  unfolding to_le
  field_keys h = of_le-to_le 4 c h

  field_words : d < 2 ^ 32 → of_le (take 4 (drop 16 filter_bytes)) ≡ d
  unfolding to_le
  field_words h = of_le-to_le 4 d h

  after_fields : drop 20 filter_bytes ≡ words
  unfolding to_le
  after_fields = refl

  long_enough : ltb (length filter_bytes) 20 ≡ false
  unfolding to_le
  long_enough = ground arith

  decode-fields :
      a < 2 ^ 32
      → b < 2 ^ 64
      → c < 2 ^ 32
      → d < 2 ^ 32
      → decode filter_bytes ≡ decode_bits a b c d words
  unfolding decode
  decode-fields ha hb hc hd =
      rw (long_enough, field_hashes ha, field_bits hb, field_keys hc, field_words hd, after_fields)
        refl

-- If the fields of a filter fit their types, it has hashes and bits, and it has between one and
-- 2^20 words, decoding its encoding gives it back.
pub decode-encode : (f : BloomFilter) → IsEncodable f → decode (encode f) ≡ ok f
unfolding encode
decode-encode f h =
    let whole : length f.bits % 2 ^ 32 ≡ length f.bits = omega (arith, h.few_words) in
    rw whole (
      decode-fields f.num_hashes f.num_bits f.num_keys (length f.bits) (encode_words f.bits)
        h.num_hashes-lt h.num_bits-lt h.num_keys-lt (omega (arith, h.few_words))
      ∙ decode_bits-words f h)
