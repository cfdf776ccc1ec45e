-- ===== src/Memory/Budget/Outcomes.antt =====
-- What a reservation and an allocation of nova-memory/src/budget.rs do.
use nova_runtime.Base.{
  ℕ, ◌+◌, ◌-◌, ◌^◌, ◌≤◌, ◌<◌, ◌≡◌, max, ap, Bool, Bool-cases, inl, inr, leb, ltb, if◌then◌else◌,
  Result, ok, err, wrapping_add, arith,
}
use native.Mathlib.Nat.{mod-eq_of_lt}
use nova_runtime.Memory.Budget.{
  MemoryBudget, MemoryError, out_of_memory, invalid_argument, panicked, wrapping_sub, reserve,
  release, MemoryManager, allocate,
}

wrapping_add-eq : (a b : ℕ) → a + b < 2 ^ 64 → wrapping_add a b ≡ a + b
wrapping_add-eq a b h = mod-eq_of_lt h

wrapping_sub-eq : (a b : ℕ) → b ≤ a → a < 2 ^ 64 → wrapping_sub a b ≡ a - b
wrapping_sub-eq a b h k = omega arith

-- The outcomes of a reservation.
abbrev pub ReserveOutcome : ℕ → MemoryBudget → MemoryBudget × Result MemoryError (Unit {0}) → Type 0
ReserveOutcome size b (after, ok t) =
    (b.used_bytes + size ≤ b.max_bytes)
    × (after.used_bytes ≡ b.used_bytes + size)
    × (after.peak_bytes ≡ max b.peak_bytes (b.used_bytes + size))
    × ((release size after).used_bytes ≡ b.used_bytes)
ReserveOutcome size b (after, err e) = (b.max_bytes < b.used_bytes + size) × (after ≡ b)

module _ (size : ℕ) (b : MemoryBudget) (fits : b.used_bytes + size < 2 ^ 64) where
  undone : (sum : ℕ) → sum ≡ b.used_bytes + size → wrapping_sub sum size ≡ b.used_bytes
  undone sum e = omega (arith, e, fits)

  reserve-cases :
      (sum : ℕ)
      → sum ≡ b.used_bytes + size
      → ReserveOutcome size b (
          if ltb b.max_bytes sum
          then (record b { used_bytes = wrapping_sub sum size }, err out_of_memory)
          else (
            record b {
              used_bytes = sum;
              peak_bytes = (if ltb b.peak_bytes sum then sum else b.peak_bytes);
            },
            ok tt,
          ))
  unfolding release
  reserve-cases sum e = elim (Bool-cases (ltb b.max_bytes sum)) [
    | inl h ↦
        rw h (ground (arith, h, e), ap (λ (u : ℕ). record b { used_bytes = u }) (undone sum e))
    | inr h ↦ rw h (ground (arith, h, e), e, ground (arith, e), undone sum e)
  ]

  -- If the used bytes and the size add up below 2^64, a reservation is granted only within the
  -- maximum, adds the size to the used bytes, raises the peak to them if it was lower, and is
  -- undone by a release of the size; it is refused only above the maximum, and changes nothing
  -- then.
  pub reserve-ReserveOutcome : ReserveOutcome size b (reserve size b)
  unfolding reserve
  reserve-ReserveOutcome =
      reserve-cases (wrapping_add b.used_bytes size) (wrapping_add-eq b.used_bytes size fits)

-- The outcomes of an allocation.
abbrev pub AllocateOutcome :
    ℕ → MemoryManager → MemoryManager × Result MemoryError (Unit {0}) → Type 0
AllocateOutcome size m (after, ok t) =
    (m.total_used + size + m.emergency_reserve ≤ m.global_max)
    × (after.total_used ≡ m.total_used + size)
AllocateOutcome size m (after, err out_of_memory) = after ≡ m
AllocateOutcome size m (after, err invalid_argument) =
    (2 ^ 63 ≤ size) × (after.total_used ≡ m.total_used + size)
AllocateOutcome size m (after, err panicked) =
    (2 ^ 63 - 4096 < size) × (after.total_used ≡ m.total_used + size)

module _ (allocated : Bool) (size : ℕ) (m : MemoryManager)
    (fits : m.total_used + size < 2 ^ 64) where
  taken_back : (sum : ℕ) → sum ≡ m.total_used + size → wrapping_sub sum size ≡ m.total_used
  taken_back sum e = omega (arith, e, fits)

  allocate-cases :
      (0 < size)
      → (sum : ℕ) → sum ≡ m.total_used + size
      → AllocateOutcome size m (
          if ltb (m.global_max - m.emergency_reserve) sum
          then (record m { total_used = wrapping_sub sum size }, err out_of_memory)
          else if leb (2 ^ 63) size
          then (record m { total_used = sum }, err invalid_argument)
          else if ltb (2 ^ 63 - 4096) size
          then (record m { total_used = sum }, err panicked)
          else if allocated
          then (record m { total_used = sum }, ok tt)
          else (record m { total_used = wrapping_sub sum size }, err out_of_memory))
  allocate-cases pos sum e =
      let back : record m { total_used = wrapping_sub sum size } ≡ m =
        ap (λ (u : ℕ). record m { total_used = u }) (taken_back sum e) in
      elim (Bool-cases (ltb (m.global_max - m.emergency_reserve) sum)) [
        | inl h ↦ rw h back
        | inr h ↦ rw h (elim (Bool-cases (leb (2 ^ 63) size)) [
          | inl k ↦ rw k (ground (arith, k), e)
          | inr k ↦ rw k (elim (Bool-cases (ltb (2 ^ 63 - 4096) size)) [
            | inl p ↦ rw p (ground (arith, p), e)
            | inr p ↦ rw p (elim (Bool-cases allocated) [
              | inl a ↦ rw a (ground (arith, h, e, pos), e)
              | inr a ↦ rw a back
            ])
          ])
        ])
      ]

  -- If the total and a positive size add up below 2^64, an allocation that succeeds leaves the
  -- emergency reserve free and adds the size to the total; one that fails for lack of memory
  -- changes nothing; one that is refused as invalid or panics has a size of at least 2^63, or of
  -- more than 2^63 less a page, and leaves the size in the total.
  pub allocate-AllocateOutcome : 0 < size → AllocateOutcome size m (allocate allocated size m)
  unfolding allocate
  allocate-AllocateOutcome pos =
      allocate-cases pos (wrapping_add m.total_used size) (wrapping_add-eq m.total_used size fits)
