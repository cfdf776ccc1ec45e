-- ===== src/Memory/Tests.antt =====
-- The accounts of nova-memory at concrete inputs.
use nova_runtime.Base.{◌-◌, ◌^◌, ◌≡◌, refl, true, List, [], ◌∷◌, none, some, ok, err, nat_eq, arith}
use nova_runtime.Base.Assoc.{get, insert, remove}
use nova_runtime.Memory.Budget.{MemoryBudget, MemoryManager, out_of_memory, reserve, allocate}
use nova_runtime.Memory.Budget.Outcomes.{
  ReserveOutcome, reserve-ReserveOutcome, AllocateOutcome, allocate-AllocateOutcome,
}
use nova_runtime.Memory.PageAllocator.{new, allocate_pages, free_pages}
use nova_runtime.Memory.PageAllocator.Balance.{
  Call, allocates, frees, run, AllFresh, IsBalanced, run-new-IsBalanced,
}

abbrev budget : MemoryBudget
budget = record { max_bytes = 1024; used_bytes = 1000; peak_bytes = 1000 }

too_much : reserve 25 budget ≡ (budget, err out_of_memory)
unfolding reserve
too_much = refl

-- A size near 2 ^ 64 wraps around, and is granted.
wraps : (reserve (2 ^ 64 - 900) budget).1 ≡ ok tt
unfolding reserve
wraps = refl

reserve-ReserveOutcome_example : ReserveOutcome 20 budget (reserve 20 budget)
reserve-ReserveOutcome_example = reserve-ReserveOutcome 20 budget (omega arith)

abbrev manager : MemoryManager
manager = record { global_max = 10000; total_used = 500; emergency_reserve = 1000 }

allocate-AllocateOutcome_example : AllocateOutcome 4000 manager (allocate true 4000 manager)
allocate-AllocateOutcome_example =
    allocate-AllocateOutcome true 4000 manager (omega arith) (omega arith)

abbrev calls : List Call
calls = allocates (some 4096) 2 ∷ allocates none 1 ∷ allocates (some 65536) 1 ∷ frees 4096 ∷ []

one_page_left : (run calls new).total_allocated ≡ 4096
unfolding allocate_pages free_pages get insert remove
one_page_left = refl

calls_fresh : AllFresh calls new
unfolding allocate_pages free_pages get insert remove
calls_fresh = (refl, (tt, (refl, (tt, tt))))

run-new-IsBalanced_example : IsBalanced (run calls new)
run-new-IsBalanced_example = run-new-IsBalanced calls calls_fresh
