-- ===== src/Executor/OperationQueue/Invariant.antt =====
-- The invariant of the operation queue: nova-executor/src/operation_queue.rs.
use nova_runtime.Base.{
  ℕ, ◌+◌, ◌≤◌, ◌<◌, ◌≡◌, refl, true, List, [], ◌∷◌, some, length, length-append, All, All-append,
  arith, count_if-all, Bool-cases, nat_beq, count_if, length-append, count_if-all, List-cases,
  Option-cases, inl, inr,
}
use nova_runtime.Executor.OperationQueue.{
  Priority, critical, high, normal, background, PendingOperation, QueueInner, OperationQueue,
  queue_at, set_queue, push_back, new, push, take_due, promote, promote_all, age_level, age,
  pop_front, pop_highest, pop_priority, cancel_all, take_expired, drain, age_up, is_due, took,
}
use nova_runtime.Executor.OperationQueue.Counts.{
  tally, every, every-IsBlind, tally-push_back, tally-age, depth-age, tally-pop_highest,
  count_if-take_expired,
}

module _ {R : Type 0} where
  -- An operation waits in the deque of its priority, and has aged at most three times.
  pub record Fits (p : Priority) (op : PendingOperation R) : Type 0 where
    pub in_place : op.operation_priority ≡ p
    pub young : op.priority_age ≤ 3

  abbrev pub AllFit : Priority → List (PendingOperation R) → Type 0
  AllFit p = All (Fits p)

  pub IsPlaced : QueueInner R → Type 0
  IsPlaced q = (p : Priority) → AllFit p (queue_at p q)

  pub record IsWellFormed (q : OperationQueue R) : Type 0 where
    pub counted : q.inner.depth ≡ tally every q.inner
    pub published : q.current_depth ≡ q.inner.depth
    pub bounded : q.inner.depth ≤ q.capacity
    pub placed : IsPlaced q.inner

  set_queue-IsPlaced :
      (level : Priority) (xs : List (PendingOperation R)) (q : QueueInner R)
      → AllFit level xs
      → IsPlaced q
      → IsPlaced (set_queue level xs q)
  unfolding set_queue queue_at IsPlaced
  set_queue-IsPlaced critical xs q h w = elim [
    | critical ↦ h
    | high ↦ w high
    | normal ↦ w normal
    | background ↦ w background
  ]
  set_queue-IsPlaced high xs q h w = elim [
    | critical ↦ w critical
    | high ↦ h
    | normal ↦ w normal
    | background ↦ w background
  ]
  set_queue-IsPlaced normal xs q h w = elim [
    | critical ↦ w critical
    | high ↦ w high
    | normal ↦ h
    | background ↦ w background
  ]
  set_queue-IsPlaced background xs q h w = elim [
    | critical ↦ w critical
    | high ↦ w high
    | normal ↦ w normal
    | background ↦ h
  ]

  pub IsPlaced-at : (q : QueueInner R) → IsPlaced q → (p : Priority) → AllFit p (queue_at p q)
  unfolding IsPlaced
  IsPlaced-at q w = w

  depth-IsPlaced : (q : QueueInner R) (d : ℕ) → IsPlaced q → IsPlaced (record q { depth = d })
  unfolding IsPlaced queue_at
  depth-IsPlaced q d w = elim [
    | critical ↦ w critical
    | high ↦ w high
    | normal ↦ w normal
    | background ↦ w background
  ]

  push_back-IsPlaced :
      (level : Priority) (op : PendingOperation R) (q : QueueInner R)
      → Fits level op
      → IsPlaced q
      → IsPlaced (push_back level op q)
  unfolding push_back IsPlaced
  push_back-IsPlaced level op q h w =
      set_queue-IsPlaced level _ q (All-append _ (queue_at level q) (op ∷ []) (w level) (h, tt)) w

  -- What the scan finds due has room to age.
  is_due-young : (now : ℕ) (op : PendingOperation R) → is_due now op ≡ true → op.priority_age < 3
  unfolding is_due
  is_due-young now op h = ground arith

  pub take_due-Fits :
      (now : ℕ) (level : Priority) (ops : List (PendingOperation R))
      → AllFit level ops
      → AllFit level (take_due now ops).0
        × All (λ op. (op.operation_priority ≡ level) × (op.priority_age < 3)) (take_due now ops).1
  unfolding take_due
  take_due-Fits now level [] h = (tt, tt)
  take_due-Fits now level (op ∷ ops) h =
      let ih = take_due-Fits now level ops h.1 in
      elim (Bool-cases (is_due now op)) [
        | inl due ↦ rw due (
          ih.0,
          All-append _ (take_due now ops).1 (op ∷ []) ih.1
              ((h.0.in_place, is_due-young now op due), tt),
        )
        | inr waits ↦ rw waits ((h.0, ih.0), ih.1)
      ]

  promote-IsPlaced :
      (level : Priority) (op : PendingOperation R) (q : QueueInner R)
      → op.operation_priority ≡ level
      → op.priority_age < 3
      → IsPlaced q
      → IsPlaced (promote level op q)
  unfolding promote
  promote-IsPlaced level op q e young w = elim (Option-cases (age_up op.operation_priority)) [
    | inl same ↦
        rw (same, promote)
          (push_back-IsPlaced level _ q (record { in_place = e; young = omega arith }) w)
    | inr (prio, up) ↦
        rw (up, promote)
          (push_back-IsPlaced prio _ q (record { in_place = refl; young = omega arith }) w)
  ]

  promote_all-IsPlaced :
      (level : Priority) (ops : List (PendingOperation R)) (q : QueueInner R)
      → All (λ op. (op.operation_priority ≡ level) × (op.priority_age < 3)) ops
      → IsPlaced q
      → IsPlaced (promote_all level ops q)
  unfolding promote_all
  promote_all-IsPlaced level [] q h w = w
  promote_all-IsPlaced level (op ∷ ops) q h w =
      promote_all-IsPlaced level ops (promote level op q) h.1
        (promote-IsPlaced level op q h.0.0 h.0.1 w)

  pub age_level-IsPlaced :
      (now : ℕ) (level : Priority) (q : QueueInner R)
      → IsPlaced q
      → IsPlaced (age_level now level q)
  unfolding age_level IsPlaced
  age_level-IsPlaced now level q w =
      let due = take_due-Fits now level (queue_at level q) (w level) in
      promote_all-IsPlaced level _ _ due.1 (set_queue-IsPlaced level _ q due.0 w)

  pub age-IsPlaced : (now : ℕ) (q : QueueInner R) → IsPlaced q → IsPlaced (age now q)
  unfolding age
  age-IsPlaced now q w =
      age_level-IsPlaced now high _
        (age_level-IsPlaced now normal _ (age_level-IsPlaced now background q w))

  pub pop_front-eq :
      (level : Priority) (q rest : QueueInner R) (op : PendingOperation R)
      → pop_front level q ≡ some (op, rest)
      → (ops : List (PendingOperation R)) × (queue_at level q ≡ op ∷ ops)
        × (rest ≡ set_queue level ops q)
  unfolding pop_front
  pop_front-eq level q rest op h = elim (List-cases (queue_at level q)) [
    | inl e ↦ cc (rw (e, pop_front) at h)
    | inr (x, ops, e) ↦
        let h' = rw (e, pop_front) at h in (ops, ground (arith, h', e), ground (arith, h'))
  ]

  pop_front-IsPlaced :
      (level : Priority) (q rest : QueueInner R) (op : PendingOperation R)
      → pop_front level q ≡ some (op, rest)
      → IsPlaced q
      → IsPlaced rest
  unfolding IsPlaced
  pop_front-IsPlaced level q rest op h w =
      let (ops, here, e) = pop_front-eq level q rest op h in
      let fit : AllFit level (op ∷ ops) = rw here at (w level) in
      rw e (set_queue-IsPlaced level ops q fit.1 w)

  pub push-IsWellFormed :
      (q : OperationQueue R) (op : PendingOperation R)
      → op.priority_age ≤ 3
      → IsWellFormed q
      → IsWellFormed (push q op).0
  unfolding push
  push-IsWellFormed q op young w = ground (
    arith,
    tally-push_back every op.operation_priority op q.inner,
    depth-IsPlaced (push_back op.operation_priority op q.inner) (q.inner.depth + 1) (
        push_back-IsPlaced op.operation_priority op q.inner
          (record { in_place = refl; young = young }) w.placed),
  )

  pub pop_highest-IsPlaced :
      (q rest : QueueInner R) (op : PendingOperation R)
      → pop_highest q ≡ some (op, rest)
      → IsPlaced q
      → IsPlaced rest
  unfolding pop_highest
  pop_highest-IsPlaced q rest op h w = ground (
    arith,
    pop_front-IsPlaced critical q rest op,
    pop_front-IsPlaced high q rest op,
    pop_front-IsPlaced normal q rest op,
    pop_front-IsPlaced background q rest op,
  )

  took-IsWellFormed :
      (now : ℕ) (q : OperationQueue R) (op : PendingOperation R) (rest : QueueInner R)
      → pop_highest (age now q.inner) ≡ some (op, rest)
      → IsWellFormed q
      → IsWellFormed (took now q op rest)
  unfolding took
  took-IsWellFormed now q op rest e w =
      let (left, same) = tally-pop_highest every (age now q.inner) rest op e in
      record {
        counted = omega (arith, depth-age now q.inner, tally-age every every-IsBlind now q.inner);
        published = refl;
        bounded = omega (arith, depth-age now q.inner);
        placed =
            depth-IsPlaced rest _ (
              pop_highest-IsPlaced (age now q.inner) rest op e (age-IsPlaced now q.inner w.placed));
      }

  -- Aging counts no operation twice, and a pop takes the one it counts off.
  pub pop_priority-IsWellFormed :
      (now : ℕ) (q : OperationQueue R) → IsWellFormed q → IsWellFormed (pop_priority now q).0
  unfolding pop_priority
  pop_priority-IsWellFormed now q w = elim (Bool-cases (nat_beq q.inner.depth 0)) [
    | inl idle ↦ rw idle w
    | inr busy ↦ rw busy (elim (Option-cases (pop_highest (age now q.inner))) [
      | inl e ↦ rw e (record {
        counted = omega (arith, depth-age now q.inner, tally-age every every-IsBlind now q.inner);
        published = omega (arith, depth-age now q.inner);
        bounded = omega (arith, depth-age now q.inner);
        placed = age-IsPlaced now q.inner w.placed;
      })
      | inr ((op, rest), e) ↦ rw e (took-IsWellFormed now q op rest e w)
    ])
  ]

  take_expired-Fits :
      (deadline : ℕ) (level : Priority) (ops : List (PendingOperation R))
      → AllFit level ops
      → AllFit level (take_expired deadline ops).0
  unfolding take_expired
  take_expired-Fits deadline level [] h = tt
  take_expired-Fits deadline level (op ∷ ops) h =
      ground (arith, take_expired-Fits deadline level ops h.1)

  expired_total :
      (deadline : ℕ) (q : OperationQueue R)
      → length (drain deadline q).1
        ≡ count_if every (take_expired deadline q.inner.q_critical).1
          + count_if every (take_expired deadline q.inner.q_high).1
          + count_if every (take_expired deadline q.inner.q_normal).1
          + count_if every (take_expired deadline q.inner.q_background).1
  unfolding drain
  expired_total deadline q = simp (length-append, count_if-all) (omega arith)

  pub drain-IsWellFormed :
      (deadline : ℕ) (q : OperationQueue R) → IsWellFormed q → IsWellFormed (drain deadline q).0
  unfolding drain IsPlaced queue_at
  drain-IsWellFormed deadline q w = record {
    counted = omega (
      arith,
      expired_total deadline q,
      count_if-take_expired every deadline q.inner.q_critical,
      count_if-take_expired every deadline q.inner.q_high,
      count_if-take_expired every deadline q.inner.q_normal,
      count_if-take_expired every deadline q.inner.q_background,
    );
    published = refl;
    bounded = omega arith;
    placed = elim [
      | critical ↦ take_expired-Fits deadline critical q.inner.q_critical (w.placed critical)
      | high ↦ take_expired-Fits deadline high q.inner.q_high (w.placed high)
      | normal ↦ take_expired-Fits deadline normal q.inner.q_normal (w.placed normal)
      | background ↦
          take_expired-Fits deadline background q.inner.q_background (w.placed background)
    ];
  }

  pub cancel_all-IsWellFormed : (q : OperationQueue R) → IsWellFormed (cancel_all q).0
  unfolding cancel_all IsPlaced queue_at
  cancel_all-IsWellFormed q = record {
    counted = refl;
    published = refl;
    bounded = omega arith;
    placed = elim [ critical ↦ tt | high ↦ tt | normal ↦ tt | background ↦ tt ];
  }

  pub new-IsWellFormed : (capacity : ℕ) → IsWellFormed (new {R = R} capacity)
  unfolding new IsPlaced queue_at
  new-IsWellFormed capacity = record {
    counted = refl;
    published = refl;
    bounded = omega arith;
    placed = elim [ critical ↦ tt | high ↦ tt | normal ↦ tt | background ↦ tt ];
  }
