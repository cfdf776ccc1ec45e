-- ===== src/Executor/OperationQueue/History.antt =====
-- Any sequence of calls of the methods of nova-executor/src/operation_queue.rs.
use nova_runtime.Base.{ℕ, ◌≤◌, List, [], ◌∷◌, All}
use nova_runtime.Executor.OperationQueue.{
  PendingOperation, OperationQueue, new, push, pop_priority, cancel_all, drain,
}
use nova_runtime.Executor.OperationQueue.Invariant.{
  IsWellFormed, new-IsWellFormed, push-IsWellFormed, pop_priority-IsWellFormed, drain-IsWellFormed,
  cancel_all-IsWellFormed,
}

pub data Call (R : Type 0) : Type 0 where
  pushes : PendingOperation R → Call R
  pops : ℕ → Call R
  drains : ℕ → Call R
  cancels : Call R

module _ {R : Type 0} where
  unfoldable pub step : OperationQueue R → Call R → OperationQueue R
  step q (pushes op) = (push q op).0
  step q (pops now) = (pop_priority now q).0
  step q (drains deadline) = (drain deadline q).0
  step q cancels = (cancel_all q).0

  unfoldable pub run : OperationQueue R → List (Call R) → OperationQueue R
  run q [] = q
  run q (c ∷ cs) = run (step q c) cs

  -- What is pushed has not aged more than the queue would age it.
  abbrev pub IsFresh : Call R → Type 0
  IsFresh (pushes op) = op.priority_age ≤ 3
  IsFresh (pops now) = Unit
  IsFresh (drains deadline) = Unit
  IsFresh cancels = Unit

  pub step-IsWellFormed :
      (q : OperationQueue R) (c : Call R) → IsFresh c → IsWellFormed q → IsWellFormed (step q c)
  unfolding step
  step-IsWellFormed q (pushes op) f w = push-IsWellFormed q op f w
  step-IsWellFormed q (pops now) f w = pop_priority-IsWellFormed now q w
  step-IsWellFormed q (drains deadline) f w = drain-IsWellFormed deadline q w
  step-IsWellFormed q cancels f w = cancel_all-IsWellFormed q

  run-IsWellFormed :
      (q : OperationQueue R) (cs : List (Call R))
      → All IsFresh cs
      → IsWellFormed q
      → IsWellFormed (run q cs)
  unfolding run
  run-IsWellFormed q [] f w = w
  run-IsWellFormed q (c ∷ cs) f w = run-IsWellFormed (step q c) cs f.1 (step-IsWellFormed q c f.0 w)

  -- After any calls on a new queue the depth is the number of operations in the four deques and at
  -- most the capacity, the published depth is the depth, and each operation stands in the deque of
  -- its priority and has aged at most three times, if each pushed operation had aged at most three
  -- times.
  pub run-new-IsWellFormed :
      (capacity : ℕ) (cs : List (Call R)) → All IsFresh cs → IsWellFormed (run (new capacity) cs)
  run-new-IsWellFormed capacity cs f = run-IsWellFormed _ cs f (new-IsWellFormed capacity)
