-- ===== src/Executor/OperationQueue/Tests.antt =====
-- The operation queue of nova-executor/src/operation_queue.rs at concrete inputs.
use nova_runtime.Base.{
  ℕ, ◌+◌, ◌*◌, ◌≡◌, refl, Bool, List, [], ◌∷◌, none, some, All, arith, count_if, nat_beq, map,
}
use nova_runtime.Executor.OperationQueue.{
  Priority, critical, high, normal, background, PendingOperation, QueueInner, OperationQueue,
  millisecond, queue_at, new, push, pop_priority, age, is_due, take_due, set_queue, push_back,
  promote, promote_all, age_level, age_up, max_wait, pop_front, pop_highest, took,
  capacity_by_priority,
}
use nova_runtime.Executor.OperationQueue.History.{
  Call, pushes, pops, drains, cancels, run, run-new-IsWellFormed,
}
use nova_runtime.Executor.OperationQueue.Counts.{IsBlind, tally}
use nova_runtime.Executor.OperationQueue.Invariant.{
  IsWellFormed, new-IsWellFormed, push-IsWellFormed,
}
use nova_runtime.Executor.OperationQueue.Accounting.{IsAccounted, run-new-IsAccounted}
use nova_runtime.Executor.OperationQueue.Aging.{IsPatient, age-IsPatient}
use nova_runtime.Executor.OperationQueue.Service.{IsNext, pop_priority-IsNext, tally-pop_priority}

abbrev operation : ℕ → Priority → ℕ → PendingOperation ℕ
operation n p at = record {
  request = n;
  operation_priority = p;
  submitted_at = at;
  deadline = at + 60_000 * millisecond;
  retry_count = 0;
  priority_age = 0;
}

abbrev empty_queue : OperationQueue ℕ
empty_queue = new 4

-- A background operation from time 0 and a high one from 11 seconds later.
abbrev two : OperationQueue ℕ
two =
    (push (push empty_queue (operation 1 background 0)).0
      (operation 2 high (11_000 * millisecond))).0

two-IsWellFormed : IsWellFormed two
two-IsWellFormed =
    push-IsWellFormed _ (operation 2 high (11_000 * millisecond)) (omega arith)
      (push-IsWellFormed _ (operation 1 background 0) (omega arith) (new-IsWellFormed 4))

-- One pop lifts the old operation from the background to the high deque, behind the newer one.
aged_order :
    map (λ op. op.request) (queue_at high (age (12_000 * millisecond) two.inner)) ≡ 1 ∷ 2 ∷ []
unfolding new push capacity_by_priority age age_level take_due is_due max_wait promote_all promote
    push_back age_up queue_at set_queue
aged_order = refl

abbrev calls : List (Call ℕ)
calls = pushes (operation 1 background 0) ∷ pops (12_000 * millisecond) ∷ drains 0 ∷ cancels ∷ []

run-new-IsWellFormed_example : IsWellFormed (run (new 4) calls)
run-new-IsWellFormed_example = run-new-IsWellFormed 4 calls (omega arith)

age-IsPatient_example :
    All (IsPatient (12_000 * millisecond)) (queue_at normal (age (12_000 * millisecond) two.inner))
    × All
        (IsPatient (12_000 * millisecond))
        (queue_at background (age (12_000 * millisecond) two.inner))
age-IsPatient_example = age-IsPatient (12_000 * millisecond) two.inner two-IsWellFormed.placed

-- The second push finds the queue full, the third one has room again.
abbrev crowded : List (Call ℕ)
crowded =
    pushes (operation 1 normal 0)
    ∷ pushes (operation 2 critical 1)
    ∷ pops 5
    ∷ pushes (operation 3 high 6)
    ∷ []

abbrev is_first : PendingOperation ℕ → Bool
is_first op = nat_beq op.request 1

is_first-IsBlind : IsBlind is_first
is_first-IsBlind = record { blind = λ op prio a. refl }

run-new-IsAccounted_example : IsAccounted is_first 1 crowded
run-new-IsAccounted_example = run-new-IsAccounted is_first is_first-IsBlind 1 crowded (omega arith)

tally-pop_priority_example :
    tally is_first (pop_priority 5 two).0.inner
      + (elim (pop_priority 5 two).1 [ none ↦ 0 | some op ↦ count_if is_first (op ∷ []) ])
    ≡ tally is_first two.inner
tally-pop_priority_example = tally-pop_priority is_first is_first-IsBlind 5 two

pop_two : (pop_priority 5 two).1 ≡ some (operation 2 high (11_000 * millisecond))
unfolding new push age age_level take_due is_due max_wait promote_all set_queue queue_at
    pop_priority pop_highest pop_front push_back capacity_by_priority
pop_two = refl

pop_priority-IsNext_example :
    (rest : QueueInner ℕ) × IsNext (age 5 two.inner) (operation 2 high (11_000 * millisecond)) rest
    × ((pop_priority 5 two).0 ≡ took 5 two (operation 2 high (11_000 * millisecond)) rest)
pop_priority-IsNext_example =
    pop_priority-IsNext 5 two (operation 2 high (11_000 * millisecond)) two-IsWellFormed pop_two
