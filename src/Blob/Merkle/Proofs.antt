-- ===== src/Blob/Merkle/Proofs.antt =====
-- Roots and proofs of nova-blob/src/merkle.rs.
use nova_runtime.Base.{
  ℕ, zero, suc, ◌+◌, ◌*◌, ◌/◌, ◌%◌, ◌≤◌, ◌<◌, ◌≡◌, ◌∙◌, refl, sym, ap, ap₂, Bool, true, false, List,
  [], ◌∷◌, ◌++◌, Option, some, length, get_elem?, leb, nat_beq, Text, ==_refl, nat_eq, list_eq,
  arith,
}
use mathlib.Core.Path.{subst}
use nova_runtime.Blob.Merkle.{
  ProofStep, next_level, climb, build, step_hash, run_steps, verify, sibling_idx, step_of, steps_at,
  prove_from, generate_proof,
}

some_inj : {a b : Text} → ◌≡◌ {A = Option Text} (some a) (some b) → a ≡ b
some_inj h = cc

get_elem-lt : (xs : List Text) (i : ℕ) {x : Text} → get_elem? xs i ≡ some x → i < length xs
get_elem-lt [] i e = cc
get_elem-lt (x ∷ xs) zero e = omega arith
get_elem-lt (x ∷ xs) (suc i) e = omega (arith, get_elem-lt xs i e)

not-single : (n : ℕ) → leb (suc (suc n)) 1 ≡ false
not-single n = ground arith

half-suc : (i : ℕ) → suc (suc i) / 2 ≡ suc (i / 2)
half-suc i = omega arith

parity-suc : (i : ℕ) → suc (suc i) % 2 ≡ i % 2
parity-suc i = omega arith

sibling_idx-suc : (i : ℕ) → sibling_idx (suc (suc i)) ≡ suc (suc (sibling_idx i))
unfolding sibling_idx
sibling_idx-suc i = ground arith

steps_at-suc :
    (x y : Text) (level : List Text) (i : ℕ)
    → steps_at (x ∷ y ∷ level) (suc (suc i)) ≡ steps_at level i
unfolding steps_at
steps_at-suc x y level i =
    ap₂ (λ (r : Bool) (o : Option Text). step_of r o) (ap (λ (n : ℕ). nat_beq n 0) (parity-suc i))
      (ap (λ (n : ℕ). get_elem? (x ∷ y ∷ level) n) (sibling_idx-suc i))

module _ (digest : Text → Text) where
  length-next_level : (level : List Text) → length (next_level digest level) * 2 ≤ length level + 1
  unfolding next_level
  length-next_level [] = omega arith
  length-next_level (x ∷ []) = omega arith
  length-next_level (x ∷ y ∷ level) = omega (arith, length-next_level level)

  run_steps-append :
      (p q : List ProofStep) (h : Text)
      → run_steps digest (p ++ q) h ≡ run_steps digest q (run_steps digest p h)
  unfolding run_steps
  run_steps-append [] q h = refl
  run_steps-append (s ∷ p) q h = run_steps-append p q (step_hash digest s h)

  -- One round takes a hash to its parent.
  next_level-get :
      (level : List Text) (i : ℕ) {h : Text}
      → get_elem? level i ≡ some h
      → get_elem? (next_level digest level) (i / 2) ≡ some (run_steps digest (steps_at level i) h)
  unfolding next_level steps_at sibling_idx run_steps step_hash
  next_level-get [] i {h} e = cc
  next_level-get (x ∷ []) zero {h} e =
      let same : x ≡ h = some_inj e in
      subst
        (λ (t : Text).
          ◌≡◌ {A = Option Text} (some (x)) (some (run_steps digest (steps_at (x ∷ []) 0) t)))
        same refl
  next_level-get (x ∷ []) (suc i) {h} e = cc
  next_level-get (x ∷ y ∷ level) zero {h} e =
      let same : x ≡ h = some_inj e in
      subst
        (λ (t : Text).
          ◌≡◌ {A = Option Text} (some (digest (x ++ y)))
            (some (run_steps digest (steps_at (x ∷ y ∷ level) 0) t)))
        same refl
  next_level-get (x ∷ y ∷ level) (suc zero) {h} e =
      let same : y ≡ h = some_inj e in
      subst
        (λ (t : Text).
          ◌≡◌ {A = Option Text} (some (digest (x ++ y)))
            (some (run_steps digest (steps_at (x ∷ y ∷ level) 1) t)))
        same refl
  next_level-get (x ∷ y ∷ level) (suc (suc i)) e =
      rw (half-suc i, steps_at-suc x y level i) (next_level-get level i e)

  prove_from-proves :
      (fuel : ℕ) (level : List Text) (i : ℕ) {h : Text}
      → length level ≤ fuel + 1
      → get_elem? level i ≡ some h
      → (root : Text) × (proof : List ProofStep) × (climb digest fuel level ≡ some root)
        × (prove_from digest fuel level i ≡ some proof)
        × (run_steps digest proof h ≡ root)
  unfolding climb prove_from run_steps
  prove_from-proves fuel [] i le e = cc
  prove_from-proves zero (x ∷ []) zero {h} le e = (x, [], refl, refl, sym (some_inj e))
  prove_from-proves zero (x ∷ []) (suc i) le e = cc
  prove_from-proves zero (x ∷ y ∷ level) i le e = absurd (omega arith)
  prove_from-proves (suc fuel) (x ∷ []) zero le e = (x, [], refl, refl, sym (some_inj e))
  prove_from-proves (suc fuel) (x ∷ []) (suc i) le e = cc
  prove_from-proves (suc fuel) (x ∷ y ∷ level) i {h} le e =
      let here = x ∷ y ∷ level in
      let (root, proof, built, proved, runs) =
        prove_from-proves fuel (next_level digest here) (i / 2)
          (omega (arith, length-next_level here)) (next_level-get here i e) in
      (
        root,
        steps_at here i ++ proof,
        rw (not-single (length level)) built,
        rw (not-single (length level), proved) refl,
        run_steps-append (steps_at here i) proof h ∙ runs,
      )

  -- For each chunk hash of a list, the root is built and a proof is generated, both loops ending,
  -- and the proof verifies that hash under the root.
  pub generate_proof-verifies :
      (chunk_hashes : List Text) (i : ℕ) {h : Text}
      → get_elem? chunk_hashes i ≡ some h
      → (root : Text) × (proof : List ProofStep) × (build digest chunk_hashes ≡ some root)
        × (generate_proof digest chunk_hashes i ≡ some proof)
        × (verify digest h proof root ≡ true)
  unfolding build generate_proof verify
  generate_proof-verifies hs i {h} e =
      let inside = get_elem-lt hs i e in
      let (root, proof, built, proved, runs) = prove_from-proves (length hs) hs i (omega arith) e in
      (
        root,
        proof,
        ground (arith, inside, built),
        ground (arith, inside, proved),
        rw runs (==_refl root),
      )
