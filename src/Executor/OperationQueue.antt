-- ===== src/Executor/OperationQueue.antt =====
-- The bounded priority queue of pending operations: nova-executor/src/operation_queue.rs, with the
-- priorities of types.rs. Instants and durations are nanoseconds; the mutex makes each method one
-- step. `R` stands for the request, the rest of its context and its completion channel, which the
-- queue only carries.
pub mod Counts
pub mod Invariant
pub mod Aging
pub mod Service
pub mod History
pub mod Admission
pub mod Accounting
pub mod Tests
use nova_runtime.Base.{
  ℕ, ◌+◌, ◌-◌, ◌*◌, ◌/◌, ◌%◌, ◌^◌, or_else, Bool, true, false, ◌&&◌, Option, none, some, List, [],
  ◌∷◌, ◌++◌, length, ltb, leb, nat_beq, if◌then◌else◌, Result, ok, err, wrapping_add,
}

pub data Priority : Type 0 where
  critical high normal background : Priority

abbrev pub millisecond : ℕ
millisecond = 1_000_000

-- How long an operation of this priority may wait before it ages.
unfoldable pub max_wait : Priority → ℕ
max_wait critical = 100 * millisecond
max_wait high = 500 * millisecond
max_wait normal = 2000 * millisecond
max_wait background = 10_000 * millisecond

unfoldable pub age_up : Priority → Option Priority
age_up background = some normal
age_up normal = some high
age_up high = none
age_up critical = none

-- `[64, 128, 512, 320]`, by the priority that indexes it.
unfoldable pub capacity_by_priority : Priority → ℕ
capacity_by_priority critical = 64
capacity_by_priority high = 128
capacity_by_priority normal = 512
capacity_by_priority background = 320

pub record PendingOperation (R : Type 0) : Type 0 where
  pub request : R
  pub operation_priority : Priority
  pub submitted_at : ℕ
  pub deadline : ℕ
  pub retry_count : ℕ
  pub priority_age : ℕ

-- `QueueInner`: the array of four deques, each with its front first, and the depth.
pub record QueueInner (R : Type 0) : Type 0 where
  pub q_critical : List (PendingOperation R)
  pub q_high : List (PendingOperation R)
  pub q_normal : List (PendingOperation R)
  pub q_background : List (PendingOperation R)
  pub depth : ℕ

pub record OperationQueue (R : Type 0) : Type 0 where
  pub inner : QueueInner R
  pub capacity : ℕ
  pub current_depth : ℕ
  pub rejected_count : ℕ
  pub wait_time_total : ℕ
  pub wait_time_count : ℕ

-- The two `ServiceUnavailable` responses of `push`.
pub data Rejection : Type 0 where
  queue_capacity_exceeded priority_capacity_exceeded : Rejection

pub record QueueStats : Type 0 where
  pub depth : ℕ
  pub capacity : ℕ
  pub rejected : ℕ
  pub by_priority : Priority → ℕ
  pub avg_wait_ms : ℕ
  pub wait_count : ℕ

module _ {R : Type 0} where
  -- `inner.queues[priority as usize]`
  unfoldable pub queue_at : Priority → QueueInner R → List (PendingOperation R)
  queue_at critical q = q.q_critical
  queue_at high q = q.q_high
  queue_at normal q = q.q_normal
  queue_at background q = q.q_background

  unfoldable pub set_queue : Priority → List (PendingOperation R) → QueueInner R → QueueInner R
  set_queue critical xs q = record q { q_critical = xs }
  set_queue high xs q = record q { q_high = xs }
  set_queue normal xs q = record q { q_normal = xs }
  set_queue background xs q = record q { q_background = xs }

  unfoldable pub push_back : Priority → PendingOperation R → QueueInner R → QueueInner R
  push_back p op q = set_queue p (queue_at p q ++ op ∷ []) q

  unfoldable pub new : ℕ → OperationQueue R
  new capacity = record {
    inner = record { q_critical = []; q_high = []; q_normal = []; q_background = []; depth = 0 };
    capacity = capacity;
    current_depth = 0;
    rejected_count = 0;
    wait_time_total = 0;
    wait_time_count = 0;
  }

  unfoldable pub reject :
      OperationQueue R → Rejection → OperationQueue R × Result Rejection (Unit {0})
  reject q e = (record q { rejected_count = wrapping_add q.rejected_count 1 }, err e)

  -- `inner.depth` is stored in `current_depth` before the lock is let go.
  unfoldable pub push :
      OperationQueue R → PendingOperation R → OperationQueue R × Result Rejection (Unit {0})
  unfolding reject
  push q op =
      if leb q.capacity q.inner.depth
      then reject q queue_capacity_exceeded
      else if leb (capacity_by_priority op.operation_priority)
          (length (queue_at op.operation_priority q.inner))
      then reject q priority_capacity_exceeded
      else (
        record q {
          inner = record (push_back op.operation_priority op q.inner) { depth = q.inner.depth + 1 };
          current_depth = q.inner.depth + 1;
        },
        ok tt,
      )

  -- The test of the aging loop.
  unfoldable pub is_due : ℕ → PendingOperation R → Bool
  is_due now op =
      leb (max_wait op.operation_priority) (now - op.submitted_at) && ltb op.priority_age 3

  -- The loop from the back of the deque to its front: what stays, and what is promoted, in the order
  -- in which the loop removes it.
  unfoldable pub take_due :
      ℕ → List (PendingOperation R) → List (PendingOperation R) × List (PendingOperation R)
  take_due now [] = ([], [])
  take_due now (op ∷ ops) =
      let (kept, to_promote) = take_due now ops in
      if is_due now op then (kept, to_promote ++ op ∷ []) else (op ∷ kept, to_promote)

  unfoldable pub promote : Priority → PendingOperation R → QueueInner R → QueueInner R
  promote level op q = elim (age_up op.operation_priority) [
    | some p ↦
        push_back p (record op { operation_priority = p; priority_age = op.priority_age + 1 }) q
    | none ↦ push_back level (record op { priority_age = op.priority_age + 1 }) q
  ]

  unfoldable pub promote_all : Priority → List (PendingOperation R) → QueueInner R → QueueInner R
  promote_all level [] q = q
  promote_all level (op ∷ ops) q = promote_all level ops (promote level op q)

  unfoldable pub age_level : ℕ → Priority → QueueInner R → QueueInner R
  age_level now level q =
      let (kept, to_promote) = take_due now (queue_at level q) in
      promote_all level to_promote (set_queue level kept q)

  -- `for level in (1..4).rev()`
  unfoldable pub age : ℕ → QueueInner R → QueueInner R
  age now q = age_level now high (age_level now normal (age_level now background q))

  unfoldable pub pop_front : Priority → QueueInner R → Option (PendingOperation R × QueueInner R)
  pop_front p q = elim (queue_at p q) [ [] ↦ none | op ∷ ops ↦ some (op, set_queue p ops q) ]

  -- `for level in 0..4`, up to the first deque that is not empty.
  unfoldable pub pop_highest : QueueInner R → Option (PendingOperation R × QueueInner R)
  pop_highest q =
      or_else (pop_front critical q)
        (or_else (pop_front high q) (or_else (pop_front normal q) (pop_front background q)))

  unfoldable pub took : ℕ → OperationQueue R → PendingOperation R → QueueInner R → OperationQueue R
  took now q op rest = record q {
    inner = record rest { depth = rest.depth - 1 };
    current_depth = rest.depth - 1;
    wait_time_total = wrapping_add q.wait_time_total ((now - op.submitted_at) % 2 ^ 64);
    wait_time_count = wrapping_add q.wait_time_count 1;
  }

  -- If no deque holds an operation, the aged deques are kept all the same.
  unfoldable pub pop_priority :
      ℕ → OperationQueue R → OperationQueue R × Option (PendingOperation R)
  unfolding took
  pop_priority now q =
      if nat_beq q.inner.depth 0
      then (q, none)
      else (let aged = age now q.inner in
          elim (pop_highest aged) [
            | none ↦ (record q { inner = aged }, none)
            | some (op, rest) ↦ (took now q op rest, some op)
          ])

  -- The completions that are sent `Cancelled`, in order, are those of the operations returned; the
  -- method returns their number.
  unfoldable pub cancel_all : OperationQueue R → OperationQueue R × List (PendingOperation R)
  cancel_all q = (
    record q {
      inner = record { q_critical = []; q_high = []; q_normal = []; q_background = []; depth = 0 };
      current_depth = 0;
    },
    q.inner.q_critical ++ q.inner.q_high ++ q.inner.q_normal ++ q.inner.q_background,
  )

  -- The loop of `drain` over one deque, from its back to its front.
  unfoldable pub take_expired :
      ℕ → List (PendingOperation R) → List (PendingOperation R) × List (PendingOperation R)
  take_expired deadline [] = ([], [])
  take_expired deadline (op ∷ ops) =
      let (kept, expired) = take_expired deadline ops in
      if leb op.deadline deadline then (kept, expired ++ op ∷ []) else (op ∷ kept, expired)

  unfoldable pub drain : ℕ → OperationQueue R → OperationQueue R × List (PendingOperation R)
  drain deadline q =
      let (critical', e0) = take_expired deadline q.inner.q_critical in
      let (high', e1) = take_expired deadline q.inner.q_high in
      let (normal', e2) = take_expired deadline q.inner.q_normal in
      let (background', e3) = take_expired deadline q.inner.q_background in
      let expired = e0 ++ e1 ++ e2 ++ e3 in
      let depth' = q.inner.depth - length expired in
      (
        record q {
          inner = record {
            q_critical = critical';
            q_high = high';
            q_normal = normal';
            q_background = background';
            depth = depth';
          };
          current_depth = depth';
        },
        expired,
      )

  unfoldable pub stats : OperationQueue R → QueueStats
  stats q = record {
    depth = q.inner.depth;
    capacity = q.capacity;
    rejected = q.rejected_count;
    by_priority = λ p. length (queue_at p q.inner);
    avg_wait_ms =
        if ltb 0 q.wait_time_count then q.wait_time_total / q.wait_time_count / 1_000_000 else 0;
    wait_count = q.wait_time_count;
  }
