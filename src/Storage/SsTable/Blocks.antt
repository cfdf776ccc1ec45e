-- ===== src/Storage/SsTable/Blocks.antt =====
-- The data blocks of a table of nova-storage/src/lsm.rs, written and read back.
use nova_runtime.Base.{
  ℕ, zero, suc, ◌+◌, ◌%◌, ◌^◌, ◌≤◌, ◌<◌, ◌≡◌, refl, ap, ◌∙◌, false, List, [], ◌∷◌, ◌++◌, Option,
  none, some, length, length-append, concat, ltb, nat_beq, if-cases, Result, ok, All, append_assoc,
  arith,
}
use nova_runtime.Storage.Bytes.{
  Bytes, to_le, of_le-take, drop-to_le, length-to_le_append, take-length_append, drop-length_append,
}
use nova_runtime.Storage.SsTable.{
  Entry, tombstone_len, value_len, entry_len, value_bytes, block_bytes, parse_value, parse_key,
  parse_entries, cut_blocks, data_block_target_size, read_block, block_header,
}

-- Lengths fit their four bytes, and no value has the length that marks a tombstone.
pub record IsSmall (entry : Entry) : Type 0 where
  pub key-lt : length entry.0 < 2 ^ 32
  pub value-lt : value_len entry.1 < tombstone_len

parse_key-append :
    (key rest : Bytes)
    → length key < 2 ^ 32
    → parse_key (to_le 4 (length key % 2 ^ 32) ++ (key ++ rest)) ≡ some (key, rest)
parse_key-append key rest h =
    let whole : length key % 2 ^ 32 ≡ length key = omega (arith, h) in
    let short : ltb (length (to_le 4 (length key) ++ (key ++ rest))) 4 ≡ false =
      ground (arith, length-to_le_append 4 (length key) (key ++ rest)) in
    let room : ltb (length (key ++ rest)) (length key) ≡ false =
      ground (arith, length-append key rest) in
    rw
      (
        whole,
        short,
        of_le-take 4 (length key) (key ++ rest) h,
        drop-to_le 4 (length key) (key ++ rest),
        room,
        take-length_append (length key) key rest refl,
        drop-length_append (length key) key rest refl,
      )
      refl

parse_value-append :
    (value : Option Bytes) (rest : Bytes)
    → value_len value < tombstone_len
    → parse_value (value_bytes value ++ rest) ≡ some (value, rest)
parse_value-append none rest h =
    let short : ltb (length (to_le 4 tombstone_len ++ rest)) 4 ≡ false =
      ground (arith, length-to_le_append 4 tombstone_len rest) in
    rw (short, of_le-take 4 tombstone_len rest (omega arith), drop-to_le 4 tombstone_len rest) refl
parse_value-append (some value) rest h =
    let n = length value in
    let whole : n % 2 ^ 32 ≡ n = omega (arith, h) in
    let short : ltb (length (to_le 4 n ++ (value ++ rest))) 4 ≡ false =
      ground (arith, length-to_le_append 4 n (value ++ rest)) in
    let live : nat_beq n tombstone_len ≡ false = ground (arith, h) in
    let room : ltb (length (value ++ rest)) n ≡ false = ground (arith, length-append value rest) in
    rw
      (
        whole,
        append_assoc,
        short,
        of_le-take 4 n (value ++ rest) (omega (arith, h)),
        drop-to_le 4 n (value ++ rest),
        live,
        room,
        take-length_append n value rest refl,
        drop-length_append n value rest refl,
      )
      refl

pub parse_entries-block_bytes :
    (fuel : ℕ) (entries : List Entry)
    → All IsSmall entries
    → length entries ≤ fuel
    → parse_entries fuel (block_bytes entries) ≡ entries
unfolding parse_entries block_bytes
parse_entries-block_bytes zero [] s h = refl
parse_entries-block_bytes (suc fuel) [] s h = refl
parse_entries-block_bytes zero (e ∷ es) s h = absurd (omega arith)
parse_entries-block_bytes (suc fuel) (e ∷ es) s h =
    rw
      (
        parse_key-append e.0 (value_bytes e.1 ++ block_bytes es) (s.0).key-lt,
        parse_value-append e.1 (block_bytes es) (s.0).value-lt,
      )
      (ap (λ (l : List Entry). e ∷ l) (parse_entries-block_bytes fuel es s.1 (omega arith)))

length-block_bytes : (entries : List Entry) → length entries ≤ length (block_bytes entries)
unfolding block_bytes
length-block_bytes [] = omega arith
length-block_bytes (e ∷ es) = omega (
  arith,
  length-block_bytes es,
  length-to_le_append 4 (length e.0 % 2 ^ 32) (e.0 ++ (value_bytes e.1 ++ block_bytes es)),
  length-append e.0 (value_bytes e.1 ++ block_bytes es),
  length-append (value_bytes e.1) (block_bytes es),
)

pub concat-cut_blocks :
    (entries block : List Entry) (size : ℕ)
    → concat (cut_blocks entries block size) ≡ block ++ entries
unfolding cut_blocks
concat-cut_blocks [] [] size = refl
concat-cut_blocks [] (b ∷ block) size = refl
concat-cut_blocks (e ∷ es) [] size = concat-cut_blocks es (e ∷ []) (size + entry_len e)
concat-cut_blocks (e ∷ es) (b ∷ block) size =
    if-cases (λ (bs : List (List Entry)). concat bs ≡ (b ∷ block) ++ (e ∷ es))
      (ltb data_block_target_size (size + entry_len e)) _ _
      (λ h. ap (λ (l : List Entry). (b ∷ block) ++ l) (concat-cut_blocks es (e ∷ []) (entry_len e)))
      (λ h.
        concat-cut_blocks es (b ∷ (block ++ (e ∷ []))) (size + entry_len e)
        ∙ ap (λ (l : List Entry). b ∷ l) (append_assoc block (e ∷ []) es))

module _ {E : Type 0} (compress : Bytes → Bytes) (decompress : Bytes → Result E Bytes)
    (undo : (bytes : Bytes) → decompress (compress bytes) ≡ ok bytes) where
  -- A block is read back from where it was written, whatever stands before and after it.
  pub read_block-written :
      (block : List Entry) (before after : Bytes) (offset : ℕ)
      → All IsSmall block
      → length before ≡ offset
      → read_block decompress
          (before ++ (compress (block_bytes block) ++ after))
          (block_header compress offset block)
        ≡ ok block
  read_block-written block before after offset s e =
      rw
        (
          drop-length_append offset before (compress (block_bytes block) ++ after) e,
          take-length_append (length (compress (block_bytes block))) (compress (block_bytes block))
              after refl,
          undo (block_bytes block),
        )
        (ap ok (
          parse_entries-block_bytes (length (block_bytes block)) block s
            (length-block_bytes block)))
