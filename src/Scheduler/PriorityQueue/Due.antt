-- ===== src/Scheduler/PriorityQueue/Due.antt =====
-- The order of the long-interval queue, and what is due: nova-scheduler/src/time_wheel.rs.
use nova_runtime.Base.{
  ℕ, ◌+◌, ◌≤◌, ◌<◌, ◌≡◌, refl, ap, Bool, not, List, [], ◌∷◌, ◌++◌, retain, map, leb, All, count_if,
  count_if-append, arith, Bool-cases, inl, inr,
}
use nova_runtime.Scheduler.PriorityQueue.{
  Entry, PriorityQueue, insert_sorted, sort_by_time, schedule, pop_due,
}

-- No entry comes before one of an earlier time.
abbrev pub IsSorted : PriorityQueue → Type 0
IsSorted [] = Unit
IsSorted (x ∷ xs) = All (λ y. x.0 ≤ y.0) xs × IsSorted xs

All-mono : (a b : ℕ) (xs : List Entry) → a ≤ b → All (λ y. b ≤ y.0) xs → All (λ y. a ≤ y.0) xs
All-mono a b [] h k = tt
All-mono a b (x ∷ xs) h k = (omega arith, All-mono a b xs h k.1)

All-insert_sorted :
    (a : ℕ) (e : Entry) (xs : List Entry)
    → a ≤ e.0
    → All (λ y. a ≤ y.0) xs
    → All (λ y. a ≤ y.0) (insert_sorted e xs)
unfolding insert_sorted
All-insert_sorted a e [] h k = (h, tt)
All-insert_sorted a e (x ∷ xs) h k = ground (arith, All-insert_sorted a e xs h k.1)

insert_sorted-IsSorted : (e : Entry) (xs : List Entry) → IsSorted xs → IsSorted (insert_sorted e xs)
unfolding insert_sorted
insert_sorted-IsSorted e [] h = (tt, tt)
insert_sorted-IsSorted e (x ∷ xs) h = elim (Bool-cases (leb e.0 x.0)) [
  | inl before ↦ rw before ((ground arith, All-mono e.0 x.0 xs (ground arith) h.0), h)
  | inr after ↦
      rw after (All-insert_sorted x.0 e xs (ground arith) h.0, insert_sorted-IsSorted e xs h.1)
]

sort_by_time-IsSorted : (xs : List Entry) → IsSorted (sort_by_time xs)
unfolding sort_by_time
sort_by_time-IsSorted [] = tt
sort_by_time-IsSorted (x ∷ xs) =
    insert_sorted-IsSorted x (sort_by_time xs) (sort_by_time-IsSorted xs)

module _ (p : Entry → Bool) where
  count-insert_sorted :
      (e : Entry) (xs : List Entry) → count_if p (insert_sorted e xs) ≡ count_if p (e ∷ xs)
  unfolding insert_sorted
  count-insert_sorted e [] = refl
  count-insert_sorted e (x ∷ xs) = ground (arith, count-insert_sorted e xs)

  count-sort_by_time : (xs : List Entry) → count_if p (sort_by_time xs) ≡ count_if p xs
  unfolding sort_by_time
  count-sort_by_time [] = refl
  count-sort_by_time (x ∷ xs) =
      ground (arith, count-insert_sorted x (sort_by_time xs), count-sort_by_time xs)

  -- Scheduling a job leaves the vector sorted by time, and for each test as many entries pass it
  -- as before, and one more if the new entry passes.
  pub schedule-sorts :
      (job fire_at : ℕ) (jobs : PriorityQueue)
      → IsSorted (schedule job fire_at jobs)
        × (count_if p (schedule job fire_at jobs)
            ≡ count_if p jobs + count_if p ((fire_at, job) ∷ []))
  unfolding schedule
  schedule-sorts job fire_at jobs = (
    sort_by_time-IsSorted _,
    omega (
      arith,
      count-sort_by_time (jobs ++ (fire_at, job) ∷ []),
      count_if-append p jobs ((fire_at, job) ∷ []),
    ),
  )

retain_late :
    (now : ℕ) (xs : List Entry) (a : ℕ)
    → now < a
    → All (λ y. a ≤ y.0) xs
    → (retain (λ e. leb e.0 now) xs ≡ []) × (retain (λ e. not (leb e.0 now)) xs ≡ xs)
retain_late now [] a h k = (refl, refl)
retain_late now (x ∷ xs) a h k = ground (arith, retain_late now xs a h k.1)

-- On a vector sorted by time, a pop returns the jobs of all entries whose time is at most now, in
-- their order, and leaves all other entries in their order.
pub pop_due-eq :
    (now : ℕ) (jobs : PriorityQueue)
    → IsSorted jobs
    → ((pop_due now jobs).0 ≡ map (λ e. e.1) (retain (λ e. leb e.0 now) jobs))
      × ((pop_due now jobs).1 ≡ retain (λ e. not (leb e.0 now)) jobs)
unfolding pop_due
pop_due-eq now [] h = (refl, refl)
pop_due-eq now ((ts, job) ∷ jobs) h = elim (Bool-cases (leb ts now)) [
  | inl due ↦ let ih = pop_due-eq now jobs h.1 in rw due (ap (λ (xs : List ℕ). job ∷ xs) ih.0, ih.1)
  | inr later ↦
      let late = retain_late now jobs ts (ground arith) h.0 in
      rw (later, late.0, late.1) (refl, refl)
]
