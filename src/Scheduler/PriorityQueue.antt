-- ===== src/Scheduler/PriorityQueue.antt =====
-- The queue for long intervals: `PriorityQueue` of nova-scheduler/src/time_wheel.rs, a vector of
-- times and jobs. `sort_by_key` is the standard library's stable sort.
pub mod Due
pub mod Tests
use nova_runtime.Base.{
  ℕ, Bool, true, false, not, List, [], ◌∷◌, ◌++◌, length, retain, leb, nat_beq, if◌then◌else◌,
}

abbrev pub Entry : Type 0
Entry = ℕ × ℕ

abbrev pub PriorityQueue : Type 0
PriorityQueue = List Entry

insert_sorted : Entry → List Entry → List Entry
insert_sorted e [] = e ∷ []
insert_sorted e (x ∷ xs) = if leb e.0 x.0 then e ∷ x ∷ xs else x ∷ insert_sorted e xs

-- Entries of one time keep their order.
unfoldable pub sort_by_time : List Entry → List Entry
unfolding insert_sorted
sort_by_time [] = []
sort_by_time (x ∷ xs) = insert_sorted x (sort_by_time xs)

unfoldable pub schedule : ℕ → ℕ → PriorityQueue → PriorityQueue
schedule job fire_at jobs = sort_by_time (jobs ++ (fire_at, job) ∷ [])

-- The loop of `pop_due`: the jobs that it takes from the front, and what is left.
unfoldable pub pop_due : ℕ → PriorityQueue → List ℕ × PriorityQueue
pop_due now [] = ([], [])
pop_due now ((ts, job) ∷ jobs) =
    let (due, rest) = pop_due now jobs in
    if leb ts now then (job ∷ due, rest) else ([], (ts, job) ∷ jobs)

unfoldable pub cancel : ℕ → PriorityQueue → PriorityQueue
cancel job = retain (λ e. not (nat_beq e.1 job))
