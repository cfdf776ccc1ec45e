-- ===== src/Storage/Bloom/Members.antt =====
-- The filter of nova-storage/src/lsm.rs never denies a key that was inserted.
use nova_runtime.Base.{
  ℕ, zero, suc, ◌+◌, ◌*◌, ◌/◌, ◌%◌, ◌≤◌, ◌<◌, max, ◌≡◌, refl, ap, ◌∙◌, Bool, true, false, List, [],
  ◌∷◌, length, get_elem?, ltb, leb, nat_beq, if◌then◌else◌, if-cases, All, arith,
}
use nova_runtime.Storage.Bytes.{Bytes}
use nova_runtime.Storage.Bloom.{
  BloomFilter, zeros, power_above, bits_for, test_bit, set_bit, set_word, test_in, is_set, new,
  probe, insert_loop, insert, contain_loop, may_contain, default_bloom_bits_per_key,
}

test-set_bit_self : (i w : ℕ) → test_bit i (set_bit i w) ≡ true
unfolding test_bit set_bit
test-set_bit_self zero w = ground arith
test-set_bit_self (suc i) w =
    let half : (set_bit i (w / 2) * 2 + w % 2) / 2 ≡ set_bit i (w / 2) = omega arith in
    rw half (test-set_bit_self i (w / 2))

test-set_bit : (i j w : ℕ) → test_bit i w ≡ true → test_bit i (set_bit j w) ≡ true
unfolding test_bit set_bit
test-set_bit zero zero w h = ground (arith, h)
test-set_bit zero (suc j) w h = ground (arith, h)
test-set_bit (suc i) zero w h =
    let half : (if nat_beq (w % 2) 1 then w else w + 1) / 2 ≡ w / 2 = ground arith in rw half h
test-set_bit (suc i) (suc j) w h =
    let half : (set_bit j (w / 2) * 2 + w % 2) / 2 ≡ set_bit j (w / 2) = omega arith in
    rw half (test-set_bit i j (w / 2) h)

length-set_word : (word bit : ℕ) (ws : List ℕ) → length (set_word word bit ws) ≡ length ws
unfolding set_word
length-set_word zero bit [] = refl
length-set_word (suc word) bit [] = refl
length-set_word zero bit (w ∷ ws) = refl
length-set_word (suc word) bit (w ∷ ws) = ap suc (length-set_word word bit ws)

set_word-sets :
    (word bit : ℕ) (ws : List ℕ)
    → word < length ws
    → test_in bit (get_elem? (set_word word bit ws) word) ≡ true
unfolding set_word
set_word-sets word bit [] h = absurd (omega arith)
set_word-sets zero bit (w ∷ ws) h = test-set_bit_self bit w
set_word-sets (suc word) bit (w ∷ ws) h = set_word-sets word bit ws (omega arith)

set_word-keeps :
    (word bit k i : ℕ) (ws : List ℕ)
    → test_in i (get_elem? ws k) ≡ true
    → test_in i (get_elem? (set_word word bit ws) k) ≡ true
unfolding set_word
set_word-keeps zero bit k i [] h = h
set_word-keeps (suc word) bit k i [] h = h
set_word-keeps zero bit zero i (w ∷ ws) h = test-set_bit i bit w h
set_word-keeps zero bit (suc k) i (w ∷ ws) h = h
set_word-keeps (suc word) bit zero i (w ∷ ws) h = h
set_word-keeps (suc word) bit (suc k) i (w ∷ ws) h = set_word-keeps word bit k i ws h

if-both-true : (a b : Bool) → (if a then b else false) ≡ true → (a ≡ true) × (b ≡ true)
if-both-true true b h = (refl, h)
if-both-true false b h = cc

module _ (xxh3_64 : Bytes → ℕ) where
  insert_loop-keeps :
      (left i n : ℕ) (key : Bytes) (bits : List ℕ) (idx : ℕ)
      → is_set idx bits ≡ true
      → is_set idx (insert_loop xxh3_64 left i n key bits) ≡ true
  unfolding insert_loop
  insert_loop-keeps zero i n key bits idx h = h
  insert_loop-keeps (suc left) i n key bits idx h = insert_loop-keeps left (suc i) n key _ idx (
      set_word-keeps (probe xxh3_64 n key i / 64) (probe xxh3_64 n key i % 64) (idx / 64) (idx % 64)
        bits h)

  length-insert_loop :
      (left i n : ℕ) (key : Bytes) (bits : List ℕ)
      → length (insert_loop xxh3_64 left i n key bits) ≡ length bits
  unfolding insert_loop
  length-insert_loop zero i n key bits = refl
  length-insert_loop (suc left) i n key bits =
      length-insert_loop left (suc i) n key _ ∙ length-set_word _ _ bits

  contain_loop-keeps :
      (left i n : ℕ) (key : Bytes) (bits bits' : List ℕ)
      → ((idx : ℕ) → is_set idx bits ≡ true → is_set idx bits' ≡ true)
      → contain_loop xxh3_64 left i n key bits ≡ true
      → contain_loop xxh3_64 left i n key bits' ≡ true
  unfolding contain_loop
  contain_loop-keeps zero i n key bits bits' f h = refl
  contain_loop-keeps (suc left) i n key bits bits' f h =
      let both = if-both-true (is_set (probe xxh3_64 n key i) bits) _ h in
      rw
        (
          f (probe xxh3_64 n key i) both.0,
          contain_loop-keeps left (suc i) n key bits bits' f both.1,
        )
        refl

  probe-lt : (n : ℕ) (key : Bytes) (i : ℕ) → 0 < n → probe xxh3_64 n key i < n
  probe-lt n key i h = omega arith

  contain-insert_loop :
      (left i n : ℕ) (key : Bytes) (bits : List ℕ)
      → 0 < n
      → n ≤ 64 * length bits
      → contain_loop xxh3_64 left i n key (insert_loop xxh3_64 left i n key bits) ≡ true
  unfolding contain_loop insert_loop
  contain-insert_loop zero i n key bits h l = refl
  contain-insert_loop (suc left) i n key bits h l =
      let idx = probe xxh3_64 n key i in
      let bits' = set_word (idx / 64) (idx % 64) bits in
      let here : is_set idx (insert_loop xxh3_64 left (suc i) n key bits') ≡ true =
        insert_loop-keeps left (suc i) n key bits' idx
          (set_word-sets (idx / 64) (idx % 64) bits (omega (arith, l, probe-lt n key i h))) in
      rw
        (
          here,
          contain-insert_loop left (suc i) n key bits' h
              (omega (arith, l, length-set_word (idx / 64) (idx % 64) bits)),
        )
        refl

  -- The bits cover all indices of a probe.
  abbrev IsCovered : BloomFilter → Type 0
  IsCovered f = (0 < f.num_bits) × (f.num_bits ≤ 64 * length f.bits)

  abbrev Holds : Bytes → BloomFilter → Type 0
  Holds key f = contain_loop xxh3_64 f.num_hashes 0 f.num_bits key f.bits ≡ true

  Holds-may_contain :
      (key : Bytes) (f : BloomFilter) → Holds key f → may_contain xxh3_64 key f ≡ true
  unfolding may_contain
  Holds-may_contain key f h = ground (arith, h)

  insert-IsCovered :
      (key : Bytes) (f : BloomFilter) → IsCovered f → IsCovered (insert xxh3_64 key f)
  unfolding insert
  insert-IsCovered key f c =
      (c.0, omega (arith, c.1, length-insert_loop f.num_hashes 0 f.num_bits key f.bits))

  insert-Holds : (key : Bytes) (f : BloomFilter) → IsCovered f → Holds key (insert xxh3_64 key f)
  unfolding insert
  insert-Holds key f c = contain-insert_loop f.num_hashes 0 f.num_bits key f.bits c.0 c.1

  keep-Holds :
      (key other : Bytes) (f : BloomFilter) → Holds key f → Holds key (insert xxh3_64 other f)
  unfolding insert
  keep-Holds key other f h =
      contain_loop-keeps f.num_hashes 0 f.num_bits key f.bits _
        (insert_loop-keeps f.num_hashes 0 f.num_bits other f.bits) h

  unfoldable pub insert_all : List Bytes → BloomFilter → BloomFilter
  insert_all [] f = f
  insert_all (key ∷ keys) f = insert_all keys (insert xxh3_64 key f)

  keep_all-Holds :
      (key : Bytes) (keys : List Bytes) (f : BloomFilter)
      → Holds key f
      → Holds key (insert_all keys f)
  unfolding insert_all
  keep_all-Holds key [] f h = h
  keep_all-Holds key (k ∷ keys) f h =
      keep_all-Holds key keys (insert xxh3_64 k f) (keep-Holds key k f h)

  insert_all-Holds :
      (keys : List Bytes) (f : BloomFilter)
      → IsCovered f
      → All (λ key. may_contain xxh3_64 key (insert_all keys f) ≡ true) keys
  unfolding insert_all
  insert_all-Holds [] f c = tt
  insert_all-Holds (k ∷ keys) f c = (
    Holds-may_contain k _ (keep_all-Holds k keys (insert xxh3_64 k f) (insert-Holds k f c)),
    insert_all-Holds keys (insert xxh3_64 k f) (insert-IsCovered k f c),
  )

-- The size is a multiple of a word.
IsWhole : ℕ → Type 0
IsWhole n = (64 ≤ n) × (n % 64 ≡ 0)

word-IsWhole : IsWhole 64
unfolding IsWhole
word-IsWhole = (omega arith, omega arith)

power_above-IsWhole : (fuel power n : ℕ) → IsWhole power → IsWhole (power_above fuel power n)
unfolding power_above IsWhole
power_above-IsWhole zero power n w = w
power_above-IsWhole (suc fuel) power n w =
    if-cases IsWhole (leb n power) _ _ (λ e. w)
      (λ e. power_above-IsWhole fuel (2 * power) n (omega (arith, w.0), omega (arith, w.1)))

power_above-skip :
    (fuel power n : ℕ) → power < n → power_above (suc fuel) power n ≡ power_above fuel (2 * power) n
unfolding power_above
power_above-skip fuel power n h = let more : leb n power ≡ false = ground arith in rw more refl

-- The first six doublings are below the size of a word.
bits_for-IsWhole : (n : ℕ) → IsWhole (bits_for n)
bits_for-IsWhole n =
    if-cases IsWhole (ltb n 64) _ _ (λ e. word-IsWhole)
      (λ e.
        let h : 64 ≤ n = ground arith in
        let skip : power_above 63 1 n ≡ power_above 57 64 n =
          power_above-skip 62 1 n (omega arith)
          ∙ power_above-skip 61 2 n (omega arith)
          ∙ power_above-skip 60 4 n (omega arith)
          ∙ power_above-skip 59 8 n (omega arith)
          ∙ power_above-skip 58 16 n (omega arith)
          ∙ power_above-skip 57 32 n (omega arith) in
        rw skip (power_above-IsWhole 57 64 n word-IsWhole))

length-zeros : (n : ℕ) → length (zeros n) ≡ n
length-zeros zero = refl
length-zeros (suc n) = ap suc (length-zeros n)

zeros-cover : (b : ℕ) → IsWhole b → (0 < b) × (b ≤ 64 * length (zeros (max (b / 64) 1)))
unfolding IsWhole
zeros-cover b w = (omega (arith, w.0), omega (arith, w.0, w.1, length-zeros (max (b / 64) 1)))

new-IsCovered :
    (hashes_for : ℕ → ℕ → ℕ) (xxh3_64 : Bytes → ℕ) (n k : ℕ)
    → IsCovered xxh3_64 (new hashes_for n k)
unfolding new
new-IsCovered hashes_for xxh3_64 n k =
    let size = if nat_beq k 0 then default_bloom_bits_per_key else k in
    zeros-cover (bits_for (max n 1 * size)) (bits_for-IsWhole (max n 1 * size))

-- A new filter of any size, into which any keys are inserted, may contain each of them: there are
-- no false negatives.
pub may_contain-insert_all :
    (hashes_for : ℕ → ℕ → ℕ) (xxh3_64 : Bytes → ℕ) (num_keys bits_per_key : ℕ) (keys : List Bytes)
    → All
        (λ key.
          may_contain xxh3_64 key (insert_all xxh3_64 keys (new hashes_for num_keys bits_per_key))
          ≡ true)
        keys
may_contain-insert_all hashes_for xxh3_64 n k keys =
    insert_all-Holds xxh3_64 keys (new hashes_for n k) (new-IsCovered hashes_for xxh3_64 n k)
