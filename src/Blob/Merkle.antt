-- ===== src/Blob/Merkle.antt =====
-- The tree of hashes over the chunks of a blob: nova-blob/src/merkle.rs. The hash, SHA-256 in
-- hexadecimal, is a parameter. The loops run while more than one hash is left; they run on fuel, and
-- `none` stands for a loop that has not ended.
pub mod Proofs
use nova_runtime.Base.{
  ℕ, zero, suc, ◌+◌, ◌-◌, ◌/◌, ◌%◌, Bool, true, false, List, [], ◌∷◌, ◌++◌, Option, none, some,
  length, get_elem?, leb, nat_beq, if◌then◌else◌, Text, Eq, ◌==◌, nat_eq, list_eq,
}

pub record ProofStep : Type 0 where
  pub hash : Text
  pub is_right : Bool

unfoldable pub sibling_idx : ℕ → ℕ
sibling_idx idx = if nat_beq (idx % 2) 0 then idx + 1 else idx - 1

abbrev pub step_of : Bool → Option Text → List ProofStep
step_of is_right none = []
step_of is_right (some hash) = record { hash = hash; is_right = is_right } ∷ []

-- What one round of `generate_proof` pushes.
unfoldable pub steps_at : List Text → ℕ → List ProofStep
steps_at level idx = step_of (nat_beq (idx % 2) 0) (get_elem? level (sibling_idx idx))

module _ (digest : Text → Text) where
  -- The loop over `level.chunks(2)`.
  unfoldable pub next_level : List Text → List Text
  next_level [] = []
  next_level (x ∷ []) = x ∷ []
  next_level (x ∷ y ∷ level) = digest (x ++ y) ∷ next_level level

  unfoldable pub climb : ℕ → List Text → Option Text
  climb zero level = if leb (length level) 1 then get_elem? level 0 else none
  climb (suc fuel) level =
      let above = climb fuel (next_level level) in
      if leb (length level) 1 then get_elem? level 0 else above

  unfoldable pub build : List Text → Option Text
  build chunk_hashes =
      if nat_beq (length chunk_hashes) 0
      then some (digest [])
      else climb (length chunk_hashes) chunk_hashes

  unfoldable pub step_hash : ProofStep → Text → Text
  step_hash step current =
      if step.is_right then digest (current ++ step.hash) else digest (step.hash ++ current)

  -- The loop over the steps of a proof.
  unfoldable pub run_steps : List ProofStep → Text → Text
  run_steps [] current = current
  run_steps (step ∷ proof) current = run_steps proof (step_hash step current)

  unfoldable pub verify : Text → List ProofStep → Text → Bool
  verify chunk_hash proof root = run_steps proof chunk_hash == root

  unfoldable pub prove_from : ℕ → List Text → ℕ → Option (List ProofStep)
  prove_from zero level idx = if leb (length level) 1 then some [] else none
  prove_from (suc fuel) level idx =
      let above = prove_from fuel (next_level level) (idx / 2) in
      if leb (length level) 1
      then some []
      else elim above [ none ↦ none | some proof ↦ some (steps_at level idx ++ proof) ]

  unfoldable pub generate_proof : List Text → ℕ → Option (List ProofStep)
  generate_proof chunk_hashes chunk_index =
      if leb (length chunk_hashes) chunk_index
      then some []
      else prove_from (length chunk_hashes) chunk_hashes chunk_index
