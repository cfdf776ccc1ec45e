-- ===== src/Memory/PageAllocator.antt =====
-- Whole pages: nova-memory/src/page_allocator.rs. Addresses are numbers; the address that the system's
-- allocator returns, or that it returns null, is an argument. A layout that is too large panics.
pub mod Balance
use nova_runtime.Base.{
  ℕ, ◌+◌, ◌-◌, ◌*◌, ◌^◌, List, [], ◌∷◌, Option, none, some, leb, ltb, nat_beq, if◌then◌else◌, Eq,
  nat_eq,
}
use nova_runtime.Base.Assoc.{Assoc, get, insert, remove}

abbrev pub page_size : ℕ
page_size = 4096

pub record PageAllocator : Type 0 where
  pub allocations : Assoc ℕ ℕ
  pub total_allocated : ℕ

abbrev pub new : PageAllocator
new = record { allocations = []; total_allocated = 0 }

pub data Outcome : Type 0 where
  allocated : ℕ → Outcome
  invalid_argument out_of_memory panicked : Outcome

-- What follows the call of the system's allocator.
abbrev pub take_pages : Option ℕ → ℕ → PageAllocator → PageAllocator × Outcome
take_pages none size a = (a, out_of_memory)
take_pages (some ptr) size a = (
  record {
    allocations = insert ptr size a.allocations;
    total_allocated = a.total_allocated + size;
  },
  allocated ptr,
)

unfoldable pub allocate_pages : Option ℕ → ℕ → PageAllocator → PageAllocator × Outcome
allocate_pages ptr count a =
    if nat_beq count 0
    then (a, invalid_argument)
    else if leb (2 ^ 64) (count * page_size)
    then (a, out_of_memory)
    else if ltb (2 ^ 63 - page_size) (count * page_size)
    then (a, panicked)
    else take_pages ptr (count * page_size) a

-- What follows the search for the address.
abbrev pub drop_pages : ℕ → Option ℕ → PageAllocator → PageAllocator
drop_pages ptr none a = a
drop_pages ptr (some size) a = record {
  allocations = remove ptr a.allocations;
  total_allocated = a.total_allocated - size;
}

unfoldable pub free_pages : ℕ → PageAllocator → PageAllocator
free_pages ptr a = drop_pages ptr (get ptr a.allocations) a
