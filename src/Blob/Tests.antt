-- ===== src/Blob/Tests.antt =====
-- The blobs of nova-blob at concrete inputs.
use nova_runtime.Base.{
  ℕ, ◌+◌, ◌-◌, ◌%◌, ◌^◌, ◌≤◌, ◌≡◌, ◌↔◌, refl, true, false, List, [], ◌∷◌, some, Any, nat_eq,
  list_eq, Text, arith,
}
use nova_runtime.Base.Assoc.{get, insert}
use nova_runtime.Blob.Merkle.{
  ProofStep, build, verify, generate_proof, climb, prove_from, next_level, steps_at, sibling_idx,
}
use nova_runtime.Blob.Merkle.Proofs.{generate_proof-verifies}
use nova_runtime.Blob.Chunks.{ChunkManager, split, split_from}
use nova_runtime.Blob.Chunks.Whole.{IsCut, split-IsCut}
use nova_runtime.Blob.Dedup.{
  ChunkRecord, record_chunk, release_chunk, get_ref_count, collect_unreferenced, is_collectable,
  age_of,
}
use nova_runtime.Blob.Dedup.Counting.{Call, records, releases, run, count_calls, get_ref_count-run}
use nova_runtime.Blob.Dedup.Collection.{collect_unreferenced_iff}

-- A stand-in for SHA-256 that is easy to read: a mark before the text.
abbrev mark : Text → Text
mark t = 35 ∷ t

abbrev three : List Text
three = (1 ∷ []) ∷ (2 ∷ []) ∷ (3 ∷ []) ∷ []

root_of_three : build mark three ≡ some (35 ∷ 35 ∷ 1 ∷ 2 ∷ 3 ∷ [])
unfolding build climb next_level
root_of_three = refl

abbrev proof_of_last : List ProofStep
proof_of_last = record { hash = 35 ∷ 1 ∷ 2 ∷ []; is_right = false } ∷ []

last_has_one_step : generate_proof mark three 2 ≡ some proof_of_last
unfolding generate_proof prove_from next_level steps_at sibling_idx
last_has_one_step = refl

generate_proof-verifies_example :
    (root : Text) × (proof : List ProofStep) × (build mark three ≡ some root)
    × (generate_proof mark three 2 ≡ some proof)
    × (verify mark (3 ∷ []) proof root ≡ true)
generate_proof-verifies_example = generate_proof-verifies mark three 2 refl

abbrev pairs : ChunkManager
pairs = record { chunk_size = 2 }

cut :
    split mark pairs (7 ∷ 8 ∷ 9 ∷ [])
    ≡ some ((7 ∷ 8 ∷ []) ∷ (9 ∷ []) ∷ [], (35 ∷ 7 ∷ 8 ∷ []) ∷ (35 ∷ 9 ∷ []) ∷ [])
unfolding split split_from
cut = refl

split-IsCut_example :
    (chunks : List (List ℕ)) × (hashes : List Text) × (split mark pairs (7 ∷ 8 ∷ 9 ∷ [])
      ≡ some (chunks, hashes))
    × IsCut mark pairs (7 ∷ 8 ∷ 9 ∷ []) chunks hashes
split-IsCut_example = split-IsCut mark pairs (7 ∷ 8 ∷ 9 ∷ []) (omega arith)

abbrev a_chunk : Text
a_chunk = 97 ∷ []

abbrev b_chunk : Text
b_chunk = 98 ∷ []

abbrev calls : List Call
calls =
    records a_chunk 10 100 ∷ records a_chunk 10 105 ∷ records b_chunk 4 106 ∷ releases b_chunk ∷ []

two_references : get_ref_count a_chunk (run calls []) ≡ 2
unfolding get_ref_count record_chunk release_chunk get insert
two_references = refl

collected : collect_unreferenced 200 60 (run calls []) ≡ b_chunk ∷ []
unfolding collect_unreferenced is_collectable age_of record_chunk release_chunk get insert
collected = refl

-- With the clock back by a second, the age wraps around and a fresh chunk is old.
clock_went_back : collect_unreferenced 105 60 (run calls []) ≡ b_chunk ∷ []
unfolding collect_unreferenced is_collectable age_of record_chunk release_chunk get insert
clock_went_back = refl

get_ref_count-run_example :
    get_ref_count a_chunk (run calls []) ≡ count_calls a_chunk calls (get_ref_count a_chunk [])
get_ref_count-run_example = get_ref_count-run a_chunk calls []

collect_unreferenced_iff_example :
    Any (λ (t : Text). t ≡ b_chunk) (collect_unreferenced 200 60 (run calls [])) ↔ (
      (r : ChunkRecord) × (get b_chunk (run calls []) ≡ some r)
      × (r.ref_count ≡ 0)
      × (60 ≤ ((200 + 2 ^ 64) - r.created_at) % 2 ^ 64))
collect_unreferenced_iff_example = collect_unreferenced_iff 200 60 b_chunk calls
