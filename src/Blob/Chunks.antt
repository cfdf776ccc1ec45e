-- ===== src/Blob/Chunks.antt =====
-- Cutting a blob into chunks: nova-blob/src/chunk.rs. The hash is a parameter. The loop of `split`
-- looks at the data from its offset on; it runs on fuel, and a chunk size of 0, on which the source
-- never ends, is `none`. A division by 0, which panics, gives 0 here.
pub mod Whole
use nova_runtime.Base.{
  ℕ, zero, suc, ◌+◌, ◌-◌, ◌/◌, ◌%◌, ◌^◌, List, [], ◌∷◌, Option, none, some, length, take, drop, map,
  nat_beq, if◌then◌else◌, Text,
}

pub record ChunkManager : Type 0 where
  pub chunk_size : ℕ

-- `chunks.push(chunk)`.
abbrev pub before : List ℕ → Option (List (List ℕ)) → Option (List (List ℕ))
before chunk none = none
before chunk (some chunks) = some (chunk ∷ chunks)

-- `while offset < data.len()`, from `data[offset..]` on.
unfoldable pub split_from : ℕ → ℕ → List ℕ → Option (List (List ℕ))
split_from size fuel [] = some []
split_from size zero (b ∷ bytes) = none
split_from size (suc fuel) (b ∷ bytes) =
    before (take size (b ∷ bytes)) (split_from size fuel (drop size (b ∷ bytes)))

-- The chunks and their hashes; a blob without bytes has one empty chunk.
abbrev pub with_hashes : (List ℕ → Text) → List (List ℕ) → List (List ℕ) × List Text
with_hashes hash [] = ([] ∷ [], hash [] ∷ [])
with_hashes hash (chunk ∷ chunks) = (chunk ∷ chunks, map hash (chunk ∷ chunks))

abbrev pub hash_all : (List ℕ → Text) → Option (List (List ℕ)) → Option (List (List ℕ) × List Text)
hash_all hash none = none
hash_all hash (some chunks) = some (with_hashes hash chunks)

unfoldable pub split : (List ℕ → Text) → ChunkManager → List ℕ → Option (List (List ℕ) × List Text)
split hash m bytes = hash_all hash (split_from m.chunk_size (length bytes) bytes)

-- `size.div_ceil(chunk_size) as u32`.
unfoldable pub chunk_count_for_size : ChunkManager → ℕ → ℕ
chunk_count_for_size m size =
    if nat_beq size 0 then 1 else ((size + (m.chunk_size - 1)) / m.chunk_size) % 2 ^ 32
