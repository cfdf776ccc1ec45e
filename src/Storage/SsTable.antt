-- ===== src/Storage/SsTable.antt =====
-- `SSTable` of nova-storage/src/lsm.rs: a file of compressed blocks of entries in the order of their keys,
-- an index of the blocks and a filter of the keys. Compression is the crate `snap`'s, a parameter.
-- The bytes of the index and of the footer are not modelled: a table holds its index as a list.
pub mod Blocks
pub mod Lookup
pub mod Tests
use nova_runtime.Base.{
  ℕ, zero, suc, ◌+◌, ◌-◌, ◌*◌, ◌%◌, ◌^◌, Bool, true, false, not, ◌&&◌, List, [], ◌∷◌, ◌++◌, Option,
  none, some, length, take, drop, ltb, nat_beq, if◌then◌else◌, Result, err, ok, ◌>>=◌, ◌==◌,
  list_eq, nat_eq,
}
use nova_runtime.Storage.Bytes.{Bytes, to_le, of_le}
use nova_runtime.Storage.Bloom.{BloomFilter, default_bloom_bits_per_key}
use nova_runtime.Storage.Bloom as Bloom

-- A key with its value, or with none for a tombstone.
abbrev pub Entry : Type 0
Entry = Bytes × Option Bytes

abbrev pub data_block_target_size : ℕ
data_block_target_size = 64 * 1024

abbrev pub tombstone_len : ℕ
tombstone_len = 2 ^ 32 - 1

abbrev pub value_len : Option Bytes → ℕ
value_len none = 0
value_len (some value) = length value

abbrev pub entry_len : Entry → ℕ
entry_len entry = 4 + length entry.0 + 4 + value_len entry.1

abbrev pub value_bytes : Option Bytes → Bytes
value_bytes none = to_le 4 tombstone_len
value_bytes (some value) = to_le 4 (length value % 2 ^ 32) ++ value

unfoldable pub block_bytes : List Entry → Bytes
block_bytes [] = []
block_bytes (entry ∷ rest) =
    to_le 4 (length entry.0 % 2 ^ 32) ++ (entry.0 ++ (value_bytes entry.1 ++ block_bytes rest))

-- The parse of one value: the value, and what follows it. Entries that are cut off end the block.
abbrev pub parse_value : Bytes → Option (Option Bytes × Bytes)
parse_value raw =
    let len = of_le (take 4 raw) in
    let rest = drop 4 raw in
    if ltb (length raw) 4
    then none
    else if nat_beq len tombstone_len
    then some (none, rest)
    else if ltb (length rest) len
    then none
    else some (some (take len rest), drop len rest)

abbrev pub parse_key : Bytes → Option (Bytes × Bytes)
parse_key raw =
    let len = of_le (take 4 raw) in
    let rest = drop 4 raw in
    if ltb (length raw) 4
    then none
    else if ltb (length rest) len
    then none
    else some (take len rest, drop len rest)

abbrev pub with_value : (Bytes → List Entry) → Bytes → Option (Option Bytes × Bytes) → List Entry
with_value onward key none = []
with_value onward key (some (value, rest)) = (key, value) ∷ onward rest

abbrev pub with_key : (Bytes → List Entry) → Option (Bytes × Bytes) → List Entry
with_key onward none = []
with_key onward (some (key, rest)) = with_value onward key (parse_value rest)

-- An entry takes a byte at least, so the length of the block is enough fuel.
unfoldable pub parse_entries : ℕ → Bytes → List Entry
parse_entries zero raw = []
parse_entries (suc fuel) raw = with_key (parse_entries fuel) (parse_key raw)

-- The entries in blocks: one is closed before an entry that would take it over the target size.
unfoldable pub cut_blocks : List Entry → List Entry → ℕ → List (List Entry)
cut_blocks [] [] size = []
cut_blocks [] (b ∷ block) size = (b ∷ block) ∷ []
cut_blocks (entry ∷ rest) [] size = cut_blocks rest (entry ∷ []) (size + entry_len entry)
cut_blocks (entry ∷ rest) (b ∷ block) size =
    let closed = cut_blocks rest (entry ∷ []) (entry_len entry) in
    let onward = cut_blocks rest (b ∷ (block ++ (entry ∷ []))) (size + entry_len entry) in
    if ltb data_block_target_size (size + entry_len entry) then (b ∷ block) ∷ closed else onward

pub record DataBlockHeader : Type 0 where
  pub offset : ℕ
  pub len : ℕ
  pub first_key : Bytes
  pub last_key : Bytes

abbrev pub first_key_of : List Entry → Bytes
first_key_of [] = []
first_key_of (entry ∷ rest) = entry.0

abbrev pub last_key_of : List Entry → Bytes
last_key_of [] = []
last_key_of (entry ∷ []) = entry.0
last_key_of (entry ∷ next ∷ rest) = last_key_of (next ∷ rest)

pub record SsTable : Type 0 where
  pub file : Bytes
  pub index : List DataBlockHeader
  pub bloom_filter : BloomFilter

-- The order of byte slices, `<=`.
unfoldable pub lex_leb : Bytes → Bytes → Bool
lex_leb [] ys = true
lex_leb (x ∷ xs) [] = false
lex_leb (x ∷ xs) (y ∷ ys) =
    let rest = lex_leb xs ys in if ltb x y then true else if nat_beq x y then rest else false

abbrev pub find_entry : Bytes → List Entry → Option (Option Bytes)
find_entry key [] = none
find_entry key (entry ∷ rest) = if entry.0 == key then some entry.1 else find_entry key rest

abbrev pub add_keys : (Bytes → ℕ) → List Entry → BloomFilter → BloomFilter
add_keys xxh3_64 [] f = f
add_keys xxh3_64 (entry ∷ rest) f = add_keys xxh3_64 rest (Bloom.insert xxh3_64 entry.0 f)

module _ (compress : Bytes → Bytes) where
  abbrev pub block_header : ℕ → List Entry → DataBlockHeader
  block_header offset block = record {
    offset = offset;
    len = length (compress (block_bytes block));
    first_key = first_key_of block;
    last_key = last_key_of block;
  }

  unfoldable pub write_headers : List (List Entry) → ℕ → List DataBlockHeader
  write_headers [] offset = []
  write_headers (block ∷ blocks) offset =
      block_header offset block
      ∷ write_headers blocks (offset + length (compress (block_bytes block)))

  unfoldable pub write_blocks : List (List Entry) → Bytes
  write_blocks [] = []
  write_blocks (block ∷ blocks) = compress (block_bytes block) ++ write_blocks blocks

  module _ (hashes_for : ℕ → ℕ → ℕ) (xxh3_64 : Bytes → ℕ)
      (trailer : List DataBlockHeader → BloomFilter → Bytes) where
    -- `trailer` is what the source writes after the blocks: filter, index and footer.
    unfoldable pub create_with_tombstones : List Entry → SsTable
    create_with_tombstones entries =
        let blocks = cut_blocks entries [] 0 in
        let index = write_headers blocks 0 in
        let bloom_filter =
          add_keys xxh3_64 entries
            (Bloom.new hashes_for (length entries % 2 ^ 32) default_bloom_bits_per_key) in
        record {
          file = write_blocks blocks ++ trailer index bloom_filter;
          index = index;
          bloom_filter = bloom_filter;
        }

module _ {E : Type 0} (decompress : Bytes → Result E Bytes) where
  abbrev pub decode_block : Result E Bytes → Result E (List Entry)
  decode_block (err e) = err e
  decode_block (ok raw) = ok (parse_entries (length raw) raw)

  abbrev pub read_block : Bytes → DataBlockHeader → Result E (List Entry)
  read_block file h = decode_block (decompress (take h.len (drop h.offset file)))

  abbrev pub found_or :
      Option (Option Bytes) → Result E (Option (Option Bytes)) → Result E (Option (Option Bytes))
  found_or none onward = onward
  found_or (some value) onward = ok (some value)

  abbrev pub search_block :
      Bytes
      → Result E (List Entry)
      → Result E (Option (Option Bytes))
      → Result E (Option (Option Bytes))
  search_block key (err e) onward = err e
  search_block key (ok entries) onward = found_or (find_entry key entries) onward

  unfoldable pub search_index :
      Bytes → Bytes → List DataBlockHeader → Result E (Option (Option Bytes))
  search_index key file [] = ok none
  search_index key file (h ∷ headers) =
      let onward = search_index key file headers in
      if lex_leb h.first_key key && lex_leb key h.last_key
      then search_block key (read_block file h) onward
      else onward

  unfoldable pub get_with_tombstone :
      (xxh3_64 : Bytes → ℕ) → Bytes → SsTable → Result E (Option (Option Bytes))
  get_with_tombstone xxh3_64 key table =
      if Bloom.may_contain xxh3_64 key table.bloom_filter
      then search_index key table.file table.index
      else ok none
