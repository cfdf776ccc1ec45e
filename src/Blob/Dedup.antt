-- ===== src/Blob/Dedup.antt =====
-- Reference counts of chunks: nova-blob/src/dedup.rs. Times are seconds since the epoch, below 2 ^ 63,
-- and the clock is an argument. The counts are plain numbers: 2 ^ 64 calls do not happen. Saving and
-- loading the table, by serde_json, is not modelled.
pub mod Counting
pub mod Collection
use nova_runtime.Base.{
  ℕ, zero, suc, ◌+◌, ◌-◌, ◌%◌, ◌^◌, Bool, true, false, ◌&&◌, List, [], ◌∷◌, Option, none, some, map,
  retain, leb, nat_beq, if◌then◌else◌, Text, Eq, ◌==◌, nat_eq, list_eq,
}
use nova_runtime.Base.Assoc.{Assoc, get, insert, remove}

pub record ChunkRecord : Type 0 where
  pub hash : Text
  pub size : ℕ
  pub ref_count : ℕ
  pub created_at : ℕ

abbrev pub DeduplicationEngine : Type 0
DeduplicationEngine = Assoc Text ChunkRecord

-- Whether the chunk was known, and the table after.
unfoldable pub record_chunk : Text → ℕ → ℕ → DeduplicationEngine → DeduplicationEngine × Bool
record_chunk hash size now chunks = elim (get hash chunks) [
  | none ↦ (
    insert hash (record { hash = hash; size = size; ref_count = 1; created_at = now }) chunks,
    false,
  )
  | some r ↦ (insert hash (record r { ref_count = r.ref_count + 1 }) chunks, true)
]

-- The count that is left, and the table after; a count of 0 stays.
unfoldable pub release_chunk : Text → DeduplicationEngine → DeduplicationEngine × ℕ
release_chunk hash chunks = elim (get hash chunks) [
  | none ↦ (chunks, 0)
  | some r ↦ (insert hash (record r { ref_count = r.ref_count - 1 }) chunks, r.ref_count - 1)
]

unfoldable pub is_duplicate : Text → DeduplicationEngine → Bool
is_duplicate hash chunks = elim (get hash chunks) [ none ↦ false | some r ↦ true ]

abbrev pub count_of : Option ChunkRecord → ℕ
count_of none = 0
count_of (some r) = r.ref_count

unfoldable pub get_ref_count : Text → DeduplicationEngine → ℕ
get_ref_count hash chunks = count_of (get hash chunks)

-- `(now - r.created_at) as u64`, which wraps around when the clock went back.
unfoldable pub age_of : ℕ → ChunkRecord → ℕ
age_of now r = ((now + 2 ^ 64) - r.created_at) % 2 ^ 64

unfoldable pub is_collectable : ℕ → ℕ → ChunkRecord → Bool
is_collectable now grace r = nat_beq r.ref_count 0 && leb grace (age_of now r)

unfoldable pub collect_unreferenced : ℕ → ℕ → DeduplicationEngine → List Text
collect_unreferenced now grace chunks =
    map (λ (r : ChunkRecord). r.hash)
      (retain (is_collectable now grace) (map (λ (e : Text × ChunkRecord). e.1) chunks))

unfoldable pub remove_tracked : Text → DeduplicationEngine → DeduplicationEngine
remove_tracked hash chunks = remove hash chunks

unfoldable pub tracked_chunks : DeduplicationEngine → List ChunkRecord
tracked_chunks chunks = map (λ (e : Text × ChunkRecord). e.1) chunks
