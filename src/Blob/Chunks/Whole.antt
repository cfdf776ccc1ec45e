-- ===== src/Blob/Chunks/Whole.antt =====
-- Cutting and putting together: nova-blob/src/chunk.rs.
use nova_runtime.Base.{
  ℕ, zero, suc, ◌+◌, ◌-◌, ◌/◌, ◌%◌, ◌^◌, ◌≤◌, ◌<◌, ◌≡◌, ◌⊎◌, inl, inr, ◌∙◌, refl, sym, ap, false,
  List, [], ◌∷◌, ◌++◌, Option, some, length, take, drop, concat, take-drop, length-take,
  length-drop, All, map, nat_beq, Text, arith,
}
use native.Mathlib.Nat.{div-eq-sub-div, div-eq_of_lt}
use nova_runtime.Blob.Chunks.{
  ChunkManager, before, hash_all, split_from, with_hashes, split, chunk_count_for_size,
}

ceil : ℕ → ℕ → ℕ
ceil n size = (n + (size - 1)) / size

le-cases : (a b : ℕ) → (a ≤ b) ⊎ (b < a)
le-cases a b = ground arith

module _ (size : ℕ) (pos : 0 < size) where
  ceil-step : (n : ℕ) → 0 < n → ceil n size ≡ suc (ceil (n - size) size)
  unfolding ceil
  ceil-step n h =
      div-eq-sub-div {m = size} {n = n + (size - 1)} pos (omega arith) ∙ (elim (le-cases size n) [
        | inl le ↦
            let same : n + (size - 1) - size ≡ n - size + (size - 1) = omega arith in
            rw same (omega arith)
        | inr gt ↦
            let low : n + (size - 1) - size < size = omega arith in
            let none_left : n - size + (size - 1) < size = omega arith in
            omega (arith, div-eq_of_lt low, div-eq_of_lt none_left)
      ])

  split_from-whole :
      (fuel : ℕ) (bytes : List ℕ)
      → length bytes ≤ fuel
      → (chunks : List (List ℕ)) × (split_from size fuel bytes ≡ some chunks)
        × (concat chunks ≡ bytes)
        × All (λ (c : List ℕ). length c ≤ size) chunks
        × (length chunks ≡ ceil (length bytes) size)
  unfolding split_from ceil
  split_from-whole fuel [] h = ([], refl, refl, tt, sym (div-eq_of_lt (omega arith)))
  split_from-whole zero (b ∷ bytes) h = absurd (omega arith)
  split_from-whole (suc fuel) (b ∷ bytes) h =
      let all = b ∷ bytes in
      let (chunks, eq, whole, small, count) =
        split_from-whole fuel (drop size all) (omega (arith, length-drop size all)) in
      (
        take size all ∷ chunks,
        ap (λ (r : Option (List (List ℕ))). before (take size all) r) eq,
        ap (λ (xs : List ℕ). take size all ++ xs) whole ∙ take-drop size all,
        (length-take size all, small),
        ap (λ (n : ℕ). suc n) count
            ∙ ap (λ (n : ℕ). suc (ceil n size)) (length-drop size all)
            ∙ sym (ceil-step (suc (length bytes)) (omega arith)),
      )

-- What `split` promises of the data, its chunks and their hashes.
pub record IsCut (hash : List ℕ → Text) (m : ChunkManager) (bytes : List ℕ) (chunks : List (List ℕ))
    (hashes : List Text) : Type 0 where
  pub whole : concat chunks ≡ bytes
  pub small : All (λ (c : List ℕ). length c ≤ m.chunk_size) chunks
  pub hashed : hashes ≡ map hash chunks
  pub counted : chunk_count_for_size m (length bytes) ≡ length chunks % 2 ^ 32

split-from :
    (hash : List ℕ → Text) (m : ChunkManager) (bytes : List ℕ) (chunks : List (List ℕ))
    → split_from m.chunk_size (length bytes) bytes ≡ some chunks
    → split hash m bytes ≡ some (with_hashes hash chunks)
unfolding split
split-from hash m bytes chunks eq = ap (λ (r : Option (List (List ℕ))). hash_all hash r) eq

nat_beq-suc : (n : ℕ) → nat_beq (suc n) 0 ≡ false
nat_beq-suc n = ground arith

chunk_count-suc :
    (m : ChunkManager) (n : ℕ) → chunk_count_for_size m (suc n) ≡ ceil (suc n) m.chunk_size % 2 ^ 32
unfolding chunk_count_for_size ceil
chunk_count-suc m n = rw (nat_beq-suc n) refl

with_hashes-cons :
    (hash : List ℕ → Text) (chunks : List (List ℕ)) {b : ℕ} {bytes : List ℕ}
    → concat chunks ≡ b ∷ bytes
    → with_hashes hash chunks ≡ (chunks, map hash chunks)
with_hashes-cons hash [] h = cc
with_hashes-cons hash (c ∷ chunks) h = refl

-- For a positive chunk size, cutting ends; the chunks put together are the data, each is at most
-- the chunk size, the hashes are those of the chunks, and their number, modulo 2^32, is the one
-- that chunk_count_for_size computes from the size of the data.
pub split-IsCut :
    (hash : List ℕ → Text) (m : ChunkManager) (bytes : List ℕ)
    → 0 < m.chunk_size
    → (chunks : List (List ℕ)) × (hashes : List Text) × (split hash m bytes ≡ some (chunks, hashes))
      × IsCut hash m bytes chunks hashes
unfolding split split_from chunk_count_for_size
split-IsCut hash m [] pos = (
  [] ∷ [],
  hash [] ∷ [],
  refl,
  record { whole = refl; small = (omega arith, tt); hashed = refl; counted = refl },
)
split-IsCut hash m (b ∷ bytes) pos =
    let (chunks, eq, whole, small, count) =
      split_from-whole m.chunk_size pos (length (b ∷ bytes)) (b ∷ bytes) (omega arith) in
    (
      chunks,
      map hash chunks,
      split-from hash m (b ∷ bytes) chunks eq
          ∙ ap (λ p. some p) (with_hashes-cons hash chunks whole),
      record {
        whole = whole;
        small = small;
        hashed = refl;
        counted = chunk_count-suc m (length bytes) ∙ ap (λ (n : ℕ). n % 2 ^ 32) (sym count);
      },
    )
