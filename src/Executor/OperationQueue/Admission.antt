-- ===== src/Executor/OperationQueue/Admission.antt =====
-- Which operations `push` of nova-executor/src/operation_queue.rs takes, and where it puts them.
use nova_runtime.Base.{ℕ, ◌+◌, ◌≤◌, ◌<◌, ◌≡◌, ◌≢◌, ◌↔◌, refl, [], ◌∷◌, ◌++◌, arith, length, ok, err}
use nova_runtime.Executor.OperationQueue.{
  Priority, critical, high, normal, background, PendingOperation, QueueInner, OperationQueue,
  queue_at, set_queue, push_back, push, reject, capacity_by_priority, queue_capacity_exceeded,
}
use nova_runtime.Executor.OperationQueue.Counts.{tally, every}
use nova_runtime.Executor.OperationQueue.Invariant.{IsWellFormed}

-- How many operations of a priority a queue takes.
abbrev pub share : Priority → ℕ
share critical = 64
share high = 128
share normal = 512
share background = 320

share-eq : (p : Priority) → capacity_by_priority p ≡ share p
unfolding capacity_by_priority
share-eq critical = refl
share-eq high = refl
share-eq normal = refl
share-eq background = refl

module _ {R : Type 0} where
  -- What a push does to the queue that it finds, in terms of the operations that wait there.
  pub record IsAdmitted (capacity : ℕ) (s : OperationQueue R × PendingOperation R) : Type 0 where
    pub taken_iff : ((push s.0 s.1).1 ≡ ok tt) ↔ (
        (tally every s.0.inner < capacity)
        × (length (queue_at s.1.operation_priority s.0.inner) < share s.1.operation_priority))
    pub full_iff :
        ((push s.0 s.1).1 ≡ err queue_capacity_exceeded) ↔ (capacity ≤ tally every s.0.inner)
    pub last :
        (push s.0 s.1).1 ≡ ok tt
        → queue_at s.1.operation_priority (push s.0 s.1).0.inner
          ≡ queue_at s.1.operation_priority s.0.inner ++ s.1 ∷ []
    pub kept : (push s.0 s.1).1 ≢ ok tt → (push s.0 s.1).0.inner ≡ s.0.inner

  queue_at-push_back :
      (level : Priority) (op : PendingOperation R) (q : QueueInner R) (d : ℕ)
      → queue_at level (record (push_back level op q) { depth = d }) ≡ queue_at level q ++ op ∷ []
  unfolding push_back queue_at set_queue
  queue_at-push_back critical op q d = refl
  queue_at-push_back _ op q d = refl

  pub push-IsAdmitted :
      (q : OperationQueue R) (op : PendingOperation R)
      → IsWellFormed q
      → IsAdmitted q.capacity (q, op)
  unfolding push reject
  push-IsAdmitted q op w = record {
    taken_iff = (
      λ h. ground (arith, w.counted, share-eq op.operation_priority),
      λ h. ground (arith, w.counted, share-eq op.operation_priority, h.0, h.1),
    );
    full_iff = (λ h. ground (arith, w.counted), λ h. ground (arith, w.counted));
    last = λ h.
        ground (arith, queue_at-push_back op.operation_priority op q.inner (q.inner.depth + 1));
    kept = λ h. ground arith;
  }
