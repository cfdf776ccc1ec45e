-- ===== src/Memory/Budget.antt =====
-- Budgets and the global limit: nova-memory/src/budget.rs. Counters of 64 bits wrap around, and so
-- does the sum in `reserve`, as it does in a release build. Whether the system's allocator returns
-- memory is an argument of `allocate`. Percentages, in floating point, and callbacks are not modelled.
pub mod Outcomes
use nova_runtime.Base.{
  ℕ, ◌+◌, ◌-◌, ◌%◌, ◌^◌, max, Bool, true, false, leb, ltb, if◌then◌else◌, Result, ok, err,
  wrapping_add,
}

pub record MemoryBudget : Type 0 where
  pub max_bytes : ℕ
  pub used_bytes : ℕ
  pub peak_bytes : ℕ

pub data MemoryError : Type 0 where
  out_of_memory invalid_argument panicked : MemoryError

abbrev pub new : ℕ → MemoryBudget
new max_bytes = record { max_bytes = max_bytes; used_bytes = 0; peak_bytes = 0 }

-- `AtomicU64::fetch_sub`.
abbrev pub wrapping_sub : ℕ → ℕ → ℕ
wrapping_sub a b = ((a + 2 ^ 64) - b) % 2 ^ 64

-- `fetch_add` first, and `fetch_sub` of the same size when the sum is above the maximum.
unfoldable pub reserve : ℕ → MemoryBudget → MemoryBudget × Result MemoryError (Unit {0})
reserve size b =
    let sum = wrapping_add b.used_bytes size in
    if ltb b.max_bytes sum
    then (record b { used_bytes = wrapping_sub sum size }, err out_of_memory)
    else (
      record b {
        used_bytes = sum;
        peak_bytes = (if ltb b.peak_bytes sum then sum else b.peak_bytes);
      },
      ok tt,
    )

unfoldable pub release : ℕ → MemoryBudget → MemoryBudget
release size b = record b { used_bytes = wrapping_sub b.used_bytes size }

unfoldable pub available : MemoryBudget → ℕ
available b = b.max_bytes - b.used_bytes

unfoldable pub reset_peak : MemoryBudget → MemoryBudget
reset_peak b = record b { peak_bytes = b.used_bytes }

pub record MemoryManager : Type 0 where
  pub global_max : ℕ
  pub total_used : ℕ
  pub emergency_reserve : ℕ

-- `allocated` tells whether the system's allocator returned memory; `Layout::array` refuses sizes
-- above `isize::MAX`, after the size has been added, and a size that is above it when rounded up to
-- pages panics.
unfoldable pub allocate : Bool → ℕ → MemoryManager → MemoryManager × Result MemoryError (Unit {0})
allocate allocated size m =
    let new_used = wrapping_add m.total_used size in
    if ltb (m.global_max - m.emergency_reserve) new_used
    then (record m { total_used = wrapping_sub new_used size }, err out_of_memory)
    else if leb (2 ^ 63) size
    then (record m { total_used = new_used }, err invalid_argument)
    else if ltb (2 ^ 63 - 4096) size
    then (record m { total_used = new_used }, err panicked)
    else if allocated
    then (record m { total_used = new_used }, ok tt)
    else (record m { total_used = wrapping_sub new_used size }, err out_of_memory)
