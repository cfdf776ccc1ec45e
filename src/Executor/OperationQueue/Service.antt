-- ===== src/Executor/OperationQueue/Service.antt =====
-- Who is served: `push`, `pop_priority`, `drain` of nova-executor/src/operation_queue.rs.
use nova_runtime.Base.{
  ℕ, ◌+◌, ◌≤◌, ◌<◌, ◌≡◌, ◌∙◌, ap, Bool, List, [], ◌∷◌, none, some, All, All-append, arith, count_if,
  count_if-append, Bool-cases, Option-cases, List-cases, inl, inr, leb, leb→le, nat_beq,
  nat_beq_iff, ◌↔◌,
}
use nova_runtime.Executor.OperationQueue.{
  Priority, critical, high, normal, background, PendingOperation, QueueInner, OperationQueue,
  queue_at, set_queue, pop_front, pop_highest, pop_priority, age, took, drain, take_expired,
}
use nova_runtime.Executor.OperationQueue.Counts.{
  IsBlind, tally, every, every-IsBlind, tally-age, tally-pop_highest, count_if-take_expired,
}
use nova_runtime.Executor.OperationQueue.Invariant.{
  AllFit, IsPlaced, IsPlaced-at, age-IsPlaced, IsWellFormed, pop_front-eq,
}

-- The position of a priority in the order of service.
abbrev pub rank : Priority → ℕ
rank critical = 0
rank high = 1
rank normal = 2
rank background = 3

module _ {R : Type 0} where
  -- `op` is first in the deque of its priority, and every deque of a higher priority is empty.
  pub record IsNext (q : QueueInner R) (op : PendingOperation R) (rest : QueueInner R)
      : Type 0 where
    pub level : Priority
    pub own : op.operation_priority ≡ level
    pub others : List (PendingOperation R)
    pub first : queue_at level q ≡ op ∷ others
    pub left : rest ≡ set_queue level others q
    pub none_above : (p : Priority) → rank p < rank level → queue_at p q ≡ []

  empty_front : (p : Priority) (q : QueueInner R) → pop_front p q ≡ none → queue_at p q ≡ []
  unfolding pop_front
  empty_front p q h = elim (List-cases (queue_at p q)) [
    | inl e ↦ e
    | inr (x, xs, e) ↦ cc (rw (e, pop_front) at h)
  ]

  front-IsNext :
      (level : Priority) (q rest : QueueInner R) (op : PendingOperation R)
      → pop_front level q ≡ some (op, rest)
      → IsPlaced q
      → ((p : Priority) → rank p < rank level → queue_at p q ≡ [])
      → IsNext q op rest
  front-IsNext level q rest op h w above =
      let (others, here, e) = pop_front-eq level q rest op h in
      let fits : AllFit level (op ∷ others) = rw here at (IsPlaced-at q w level) in
      record {
        level = level;
        own = fits.0.in_place;
        others = others;
        first = here;
        left = e;
        none_above = above;
      }

  pop_highest-IsNext :
      (q rest : QueueInner R) (op : PendingOperation R)
      → pop_highest q ≡ some (op, rest)
      → IsPlaced q
      → IsNext q op rest
  unfolding pop_highest
  pop_highest-IsNext q rest op h w = elim (Option-cases (pop_front critical q)) [
    | inr (x, e0) ↦ front-IsNext critical q rest op (e0 ∙ rw e0 at h) w (elim [
      | critical ↦ λ k. absurd (omega arith)
      | high ↦ λ k. absurd (omega arith)
      | normal ↦ λ k. absurd (omega arith)
      | background ↦ λ k. absurd (omega arith)
    ])
    | inl e0 ↦ elim (Option-cases (pop_front high q)) [
      | inr (x, e1) ↦ front-IsNext high q rest op (e1 ∙ rw (e0, e1) at h) w (elim [
        | critical ↦ λ k. empty_front critical q e0
        | high ↦ λ k. absurd (omega arith)
        | normal ↦ λ k. absurd (omega arith)
        | background ↦ λ k. absurd (omega arith)
      ])
      | inl e1 ↦ elim (Option-cases (pop_front normal q)) [
        | inr (x, e2) ↦ front-IsNext normal q rest op (e2 ∙ rw (e0, e1, e2) at h) w (elim [
          | critical ↦ λ k. empty_front critical q e0
          | high ↦ λ k. empty_front high q e1
          | normal ↦ λ k. absurd (omega arith)
          | background ↦ λ k. absurd (omega arith)
        ])
        | inl e2 ↦ front-IsNext background q rest op (rw (e0, e1, e2) at h) w (elim [
          | critical ↦ λ k. empty_front critical q e0
          | high ↦ λ k. empty_front high q e1
          | normal ↦ λ k. empty_front normal q e2
          | background ↦ λ k. absurd (omega arith)
        ])
      ]
    ]
  ]

  pop_priority-eq :
      (now : ℕ) (q : OperationQueue R) (op : PendingOperation R)
      → (pop_priority now q).1 ≡ some op
      → (rest : QueueInner R) × (pop_highest (age now q.inner) ≡ some (op, rest))
        × ((pop_priority now q).0 ≡ took now q op rest)
  unfolding pop_priority
  pop_priority-eq now q op h = elim (Bool-cases (nat_beq q.inner.depth 0)) [
    | inl idle ↦ cc (rw idle at h)
    | inr busy ↦ elim (Option-cases (pop_highest (age now q.inner))) [
      | inl e ↦ cc (rw (busy, e) at h)
      | inr ((op', rest), e) ↦
          let same : op' ≡ op = cc (rw (busy, e) at h) in
          (rest, e ∙ ap (λ o. some (o, rest)) same, rw (busy, e) (ap (λ o. took now q o rest) same))
    ]
  ]

  -- If a pop from a well-formed queue returns an operation, then in the aged deques that operation
  -- is the first of the deque of its priority and all deques of a higher priority are empty; the
  -- new state is the aged one without it, with the depth and the waiting times brought up to date.
  pub pop_priority-IsNext :
      (now : ℕ) (q : OperationQueue R) (op : PendingOperation R)
      → IsWellFormed q
      → (pop_priority now q).1 ≡ some op
      → (rest : QueueInner R) × IsNext (age now q.inner) op rest
        × ((pop_priority now q).0 ≡ took now q op rest)
  pop_priority-IsNext now q op w h =
      let (rest, e, after) = pop_priority-eq now q op h in
      (rest, pop_highest-IsNext _ rest op e (age-IsPlaced now q.inner w.placed), after)

  none_in :
      (p : Priority) (q : QueueInner R) → pop_front p q ≡ none → count_if every (queue_at p q) ≡ 0
  none_in p q h = ap (count_if every) (empty_front p q h)

  tally-empty : (q : QueueInner R) → pop_highest q ≡ none → tally every q ≡ 0
  unfolding pop_highest queue_at
  tally-empty q h = elim (Option-cases (pop_front critical q)) [
    | inr (x, e0) ↦ cc (rw e0 at h)
    | inl e0 ↦ elim (Option-cases (pop_front high q)) [
      | inr (x, e1) ↦ cc (rw (e0, e1) at h)
      | inl e1 ↦ elim (Option-cases (pop_front normal q)) [
        | inr (x, e2) ↦ cc (rw (e0, e1, e2) at h)
        | inl e2 ↦ omega (
          arith,
          none_in critical q e0,
          none_in high q e1,
          none_in normal q e2,
          none_in background q (rw (e0, e1, e2) at h),
        )
      ]
    ]
  ]

  -- A pop from a well-formed queue returns nothing exactly when the depth is 0.
  pub pop_priority-eq-none :
      (now : ℕ) (q : OperationQueue R)
      → IsWellFormed q
      → ((pop_priority now q).1 ≡ none) ↔ (q.inner.depth ≡ 0)
  unfolding pop_priority
  pop_priority-eq-none now q w = (
    λ h. elim (Bool-cases (nat_beq q.inner.depth 0)) [
      | inl idle ↦ (nat_beq_iff _ 0).0 idle
      | inr busy ↦ elim (Option-cases (pop_highest (age now q.inner))) [
        | inl e ↦ omega (
          arith,
          w.counted,
          tally-age every every-IsBlind now q.inner,
          tally-empty (age now q.inner) e,
        )
        | inr (x, e) ↦ cc (rw (busy, e) at h)
      ]
    ],
    λ idle. rw ((nat_beq_iff q.inner.depth 0).1 idle),
  )

  -- A pop takes the operation that it returns off and keeps every other: for each test that looks
  -- at neither priority nor age, the operations that pass it after the pop and the returned one,
  -- if it passes, are as many as before the pop.
  pub tally-pop_priority :
      (p : PendingOperation R → Bool)
      → IsBlind p
      → (now : ℕ) (q : OperationQueue R)
      → tally p (pop_priority now q).0.inner
          + (elim (pop_priority now q).1 [ none ↦ 0 | some op ↦ count_if p (op ∷ []) ])
        ≡ tally p q.inner
  unfolding pop_priority took
  tally-pop_priority p b now q = elim (Bool-cases (nat_beq q.inner.depth 0)) [
    | inl idle ↦ rw idle (omega arith)
    | inr busy ↦ rw busy (elim (Option-cases (pop_highest (age now q.inner))) [
      | inl e ↦ rw e (omega (arith, tally-age p b now q.inner))
      | inr ((op, rest), e) ↦ rw e (
          omega (arith, tally-age p b now q.inner, tally-pop_highest p (age now q.inner) rest op e))
    ])
  ]

  -- What is left of a deque expires later than the deadline, what is taken does not.
  take_expired-split :
      (deadline : ℕ) (ops : List (PendingOperation R))
      → All (λ op. deadline < op.deadline) (take_expired deadline ops).0
        × All (λ op. op.deadline ≤ deadline) (take_expired deadline ops).1
  unfolding take_expired
  take_expired-split deadline [] = (tt, tt)
  take_expired-split deadline (op ∷ ops) =
      let ih = take_expired-split deadline ops in
      elim (Bool-cases (leb op.deadline deadline)) [
        | inl over ↦ rw over (ih.0, All-append _ _ (op ∷ []) ih.1 (leb→le _ _ over, tt))
        | inr open_ ↦ rw open_ ((ground arith, ih.0), ih.1)
      ]

  -- After a drain every operation that is left has a later deadline, every one that is returned
  -- has not, and for each test the operations left and returned that pass it are as many as passed
  -- it before.
  pub drain-splits :
      (p : PendingOperation R → Bool) (deadline : ℕ) (q : OperationQueue R)
      → ((level : Priority)
          → All (λ op. deadline < op.deadline) (queue_at level (drain deadline q).0.inner))
        × All (λ op. op.deadline ≤ deadline) (drain deadline q).1
        × (tally p (drain deadline q).0.inner + count_if p (drain deadline q).1 ≡ tally p q.inner)
  unfolding drain queue_at
  drain-splits p deadline q = (
    elim [
      | critical ↦ (take_expired-split deadline q.inner.q_critical).0
      | high ↦ (take_expired-split deadline q.inner.q_high).0
      | normal ↦ (take_expired-split deadline q.inner.q_normal).0
      | background ↦ (take_expired-split deadline q.inner.q_background).0
    ],
    All-append _ _ _
        (All-append _ _ _
          (All-append _ _ _ (take_expired-split deadline q.inner.q_critical).1
            (take_expired-split deadline q.inner.q_high).1)
          (take_expired-split deadline q.inner.q_normal).1)
        (take_expired-split deadline q.inner.q_background).1,
    simp count_if-append (
        omega (
          arith,
          count_if-take_expired p deadline q.inner.q_critical,
          count_if-take_expired p deadline q.inner.q_high,
          count_if-take_expired p deadline q.inner.q_normal,
          count_if-take_expired p deadline q.inner.q_background,
        )),
  )
