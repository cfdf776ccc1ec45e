-- ===== src/Memory/PageAllocator/Balance.antt =====
-- The total of nova-memory/src/page_allocator.rs against its entries.
use nova_runtime.Base.{
  ℕ, ◌+◌, ◌-◌, ◌*◌, ◌^◌, ◌≡◌, refl, Bool, true, false, List, [], ◌∷◌, Option, none, some,
  Bool-cases, inl, inr, if◌then◌else◌, leb, ltb, nat_beq, nat_beq_iff, ◌==◌, nat_eq, arith,
}
use mathlib.Core.Path.{subst}
use nova_runtime.Base.Assoc.{Assoc, get, insert, remove, Distinct, insert-Distinct, remove-Distinct}
use nova_runtime.Memory.PageAllocator.{
  PageAllocator, Outcome, page_size, new, take_pages, allocate_pages, drop_pages, free_pages,
}

-- The sizes of all entries.
unfoldable pub sizes : Assoc ℕ ℕ → ℕ
sizes [] = 0
sizes ((ptr, size) ∷ m) = size + sizes m

sizes-insert :
    (ptr size : ℕ) (m : Assoc ℕ ℕ) → get ptr m ≡ none → sizes (insert ptr size m) ≡ sizes m + size
unfolding sizes insert get
sizes-insert ptr size [] h = omega arith
sizes-insert ptr size ((j, s) ∷ m) h = elim (Bool-cases (j == ptr)) [
  | inl same ↦ absurd (ground (arith, same, h))
  | inr other ↦ rw other (omega (arith, sizes-insert ptr size m (ground (arith, other, h))))
]

sizes-remove_missing : (ptr : ℕ) (m : Assoc ℕ ℕ) → get ptr m ≡ none → sizes (remove ptr m) ≡ sizes m
unfolding sizes remove get
sizes-remove_missing ptr [] h = refl
sizes-remove_missing ptr ((j, s) ∷ m) h = elim (Bool-cases (j == ptr)) [
  | inl same ↦ absurd (ground (arith, same, h))
  | inr other ↦ rw other (omega (arith, sizes-remove_missing ptr m (ground (arith, other, h))))
]

found_size :
    (ptr j s size : ℕ) (m : Assoc ℕ ℕ)
    → (j == ptr) ≡ true
    → get ptr ((j, s) ∷ m) ≡ some size
    → s ≡ size
unfolding get
found_size ptr j s size m same h = ground (arith, same, h)

sizes-remove :
    (ptr size : ℕ) (m : Assoc ℕ ℕ)
    → Distinct m
    → get ptr m ≡ some size
    → sizes (remove ptr m) + size ≡ sizes m
unfolding sizes remove get
sizes-remove ptr size [] d h = cc
sizes-remove ptr size ((j, s) ∷ m) d h = elim (Bool-cases (j == ptr)) [
  | inl same ↦
      let key : j ≡ ptr = (nat_beq_iff j ptr).0 same in
      let missing : get ptr m ≡ none = subst (λ (i : ℕ). get i m ≡ none) key d.0 in
      rw same (omega (arith, found_size ptr j s size m same h, sizes-remove_missing ptr m missing))
  | inr other ↦ rw other (omega (arith, sizes-remove ptr size m d.1 (ground (arith, other, h))))
]

-- A call, with the address that the system's allocator returns.
pub data Call : Type 0 where
  allocates : Option ℕ → ℕ → Call
  frees : ℕ → Call

abbrev pub step : Call → PageAllocator → PageAllocator
step (allocates ptr count) a = (allocate_pages ptr count a).0
step (frees ptr) a = free_pages ptr a

abbrev pub run : List Call → PageAllocator → PageAllocator
run [] a = a
run (c ∷ cs) a = run cs (step c a)

-- The system's allocator returns no address that is still allocated.
abbrev pub IsFresh : Call → PageAllocator → Type 0
IsFresh (allocates none count) a = Unit
IsFresh (allocates (some ptr) count) a = get ptr a.allocations ≡ none
IsFresh (frees ptr) a = Unit

abbrev pub AllFresh : List Call → PageAllocator → Type 0
AllFresh [] a = Unit
AllFresh (c ∷ cs) a = IsFresh c a × AllFresh cs (step c a)

pub record IsBalanced (a : PageAllocator) : Type 0 where
  pub distinct : Distinct a.allocations
  pub total : a.total_allocated ≡ sizes a.allocations

take_pages-IsBalanced :
    (ptr : Option ℕ) (count size : ℕ) (a : PageAllocator)
    → IsFresh (allocates ptr count) a
    → IsBalanced a
    → IsBalanced (take_pages ptr size a).0
take_pages-IsBalanced none count size a f b = b
take_pages-IsBalanced (some ptr) count size a f b = record {
  distinct = insert-Distinct ptr size a.allocations b.distinct;
  total = omega (arith, b.total, sizes-insert ptr size a.allocations f);
}

if-IsBalanced :
    (c : Bool) (x y : PageAllocator × Outcome)
    → IsBalanced x.0
    → IsBalanced y.0
    → IsBalanced (if c then x else y).0
if-IsBalanced true x y h k = h
if-IsBalanced false x y h k = k

allocate_pages-IsBalanced :
    (ptr : Option ℕ) (count : ℕ) (a : PageAllocator)
    → IsFresh (allocates ptr count) a
    → IsBalanced a
    → IsBalanced (allocate_pages ptr count a).0
unfolding allocate_pages
allocate_pages-IsBalanced ptr count a f b =
    let size = count * page_size in
    if-IsBalanced (nat_beq count 0) _ _ b (
      if-IsBalanced (leb (2 ^ 64) size) _ _ b (
        if-IsBalanced (ltb (2 ^ 63 - page_size) size) _ _ b
          (take_pages-IsBalanced ptr count size a f b)))

drop_pages-IsBalanced :
    (ptr : ℕ) (o : Option ℕ) (a : PageAllocator)
    → get ptr a.allocations ≡ o
    → IsBalanced a
    → IsBalanced (drop_pages ptr o a)
drop_pages-IsBalanced ptr none a h b = b
drop_pages-IsBalanced ptr (some size) a h b = record {
  distinct = remove-Distinct ptr a.allocations b.distinct;
  total = omega (arith, b.total, sizes-remove ptr size a.allocations b.distinct h);
}

step-IsBalanced :
    (c : Call) (a : PageAllocator) → IsFresh c a → IsBalanced a → IsBalanced (step c a)
unfolding free_pages
step-IsBalanced (allocates ptr count) a f b = allocate_pages-IsBalanced ptr count a f b
step-IsBalanced (frees ptr) a f b = drop_pages-IsBalanced ptr (get ptr a.allocations) a refl b

run-IsBalanced :
    (cs : List Call) (a : PageAllocator) → AllFresh cs a → IsBalanced a → IsBalanced (run cs a)
run-IsBalanced [] a f b = b
run-IsBalanced (c ∷ cs) a f b = run-IsBalanced cs (step c a) f.1 (step-IsBalanced c a f.0 b)

-- After any calls on a new allocator, if the system never returned an address that was still
-- allocated, each address has one entry and the total is the sum of the sizes of all entries.
pub run-new-IsBalanced : (cs : List Call) → AllFresh cs new → IsBalanced (run cs new)
unfolding sizes
run-new-IsBalanced cs f = run-IsBalanced cs new f (record { distinct = tt; total = refl })
