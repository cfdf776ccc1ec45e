-- ===== src/Executor/OperationQueue/Counts.antt =====
-- How many operations of a kind the deques of nova-executor/src/operation_queue.rs hold.
use nova_runtime.Base.{
  ℕ, ◌+◌, ◌≡◌, ◌∙◌, refl, Bool, true, List, [], ◌∷◌, some, count_if, count_if-append, arith,
  Option-cases, inl, inr,
}
use nova_runtime.Executor.OperationQueue.{
  Priority, critical, high, normal, background, PendingOperation, QueueInner, queue_at, set_queue,
  push_back, take_due, promote, promote_all, age_level, age, pop_front, pop_highest, take_expired,
  age_up,
}

module _ {R : Type 0} where
  -- A test that does not look at what aging changes.
  pub record IsBlind (p : PendingOperation R → Bool) : Type 0 where
    pub blind :
        (op : PendingOperation R) (prio : Priority) (a : ℕ)
        → p (record op { operation_priority = prio; priority_age = a }) ≡ p op

  abbrev pub every : PendingOperation R → Bool
  every _ = true

  pub every-IsBlind : IsBlind every
  every-IsBlind = record { blind = λ op prio a. refl }

  -- How many operations of the four deques pass the test.
  abbrev pub tally : (PendingOperation R → Bool) → QueueInner R → ℕ
  tally p q =
      count_if p q.q_critical
      + count_if p q.q_high
      + count_if p q.q_normal
      + count_if p q.q_background

module _ {R : Type 0} (p : PendingOperation R → Bool) where
  pub tally-push_back :
      (level : Priority) (op : PendingOperation R) (q : QueueInner R)
      → tally p (push_back level op q) ≡ tally p q + count_if p (op ∷ [])
  unfolding push_back queue_at set_queue
  tally-push_back critical op q = omega (arith, count_if-append p q.q_critical (op ∷ []))
  tally-push_back high op q = omega (arith, count_if-append p q.q_high (op ∷ []))
  tally-push_back normal op q = omega (arith, count_if-append p q.q_normal (op ∷ []))
  tally-push_back background op q = omega (arith, count_if-append p q.q_background (op ∷ []))

  pub tally-set_queue :
      (level : Priority) (xs : List (PendingOperation R)) (q : QueueInner R)
      → tally p (set_queue level xs q) + count_if p (queue_at level q) ≡ tally p q + count_if p xs
  unfolding queue_at set_queue
  tally-set_queue critical xs q = omega arith
  tally-set_queue high xs q = omega arith
  tally-set_queue normal xs q = omega arith
  tally-set_queue background xs q = omega arith

  pub count_if-take_due :
      (now : ℕ) (ops : List (PendingOperation R))
      → count_if p (take_due now ops).0 + count_if p (take_due now ops).1 ≡ count_if p ops
  unfolding take_due
  count_if-take_due now [] = refl
  count_if-take_due now (op ∷ ops) =
      ground (arith, count_if-take_due now ops, count_if-append p (take_due now ops).1 (op ∷ []))

  pub count_if-take_expired :
      (deadline : ℕ) (ops : List (PendingOperation R))
      → count_if p (take_expired deadline ops).0 + count_if p (take_expired deadline ops).1
        ≡ count_if p ops
  unfolding take_expired
  count_if-take_expired deadline [] = refl
  count_if-take_expired deadline (op ∷ ops) = ground (
    arith,
    count_if-take_expired deadline ops,
    count_if-append p (take_expired deadline ops).1 (op ∷ []),
  )

  pub tally-pop_front :
      (level : Priority) (q rest : QueueInner R) (op : PendingOperation R)
      → pop_front level q ≡ some (op, rest)
      → (tally p rest + count_if p (op ∷ []) ≡ tally p q) × (rest.depth ≡ q.depth)
  unfolding pop_front queue_at set_queue
  tally-pop_front critical q rest op h = ground arith
  tally-pop_front high q rest op h = ground arith
  tally-pop_front normal q rest op h = ground arith
  tally-pop_front background q rest op h = ground arith

  pub tally-pop_highest :
      (q rest : QueueInner R) (op : PendingOperation R)
      → pop_highest q ≡ some (op, rest)
      → (tally p rest + count_if p (op ∷ []) ≡ tally p q) × (rest.depth ≡ q.depth)
  unfolding pop_highest
  tally-pop_highest q rest op h = ground (
    arith,
    tally-pop_front critical q rest op,
    tally-pop_front high q rest op,
    tally-pop_front normal q rest op,
    tally-pop_front background q rest op,
  )

module _ {R : Type 0} (p : PendingOperation R → Bool) (b : IsBlind p) where
  count_if-renamed :
      (op : PendingOperation R) (prio : Priority) (a : ℕ)
      → count_if p (record op { operation_priority = prio; priority_age = a } ∷ [])
        ≡ count_if p (op ∷ [])
  count_if-renamed op prio a = rw (b.blind op prio a)

  tally-promote :
      (level : Priority) (op : PendingOperation R) (q : QueueInner R)
      → tally p (promote level op q) ≡ tally p q + count_if p (op ∷ [])
  unfolding promote
  tally-promote level op q = elim (Option-cases (age_up op.operation_priority)) [
    | inl e ↦
        rw (e, promote)
          (omega (
            arith,
            tally-push_back p level (record op { priority_age = op.priority_age + 1 }) q,
            count_if-renamed op op.operation_priority (op.priority_age + 1),
          ))
    | inr (prio, e) ↦
        rw (e, promote)
          (omega (
            arith,
            tally-push_back p prio
                (record op { operation_priority = prio; priority_age = op.priority_age + 1 }) q,
            count_if-renamed op prio (op.priority_age + 1),
          ))
  ]

  tally-promote_all :
      (level : Priority) (ops : List (PendingOperation R)) (q : QueueInner R)
      → tally p (promote_all level ops q) ≡ tally p q + count_if p ops
  unfolding promote_all
  tally-promote_all level [] q = omega arith
  tally-promote_all level (op ∷ ops) q =
      ground (arith, tally-promote_all level ops (promote level op q), tally-promote level op q)

  tally-age_level :
      (now : ℕ) (level : Priority) (q : QueueInner R) → tally p (age_level now level q) ≡ tally p q
  unfolding age_level
  tally-age_level now level q = omega (
    arith,
    count_if-take_due p now (queue_at level q),
    tally-set_queue p level (take_due now (queue_at level q)).0 q,
    tally-promote_all level (take_due now (queue_at level q)).1
        (set_queue level (take_due now (queue_at level q)).0 q),
  )

  -- Aging moves operations between the deques, and neither loses nor doubles one.
  pub tally-age : (now : ℕ) (q : QueueInner R) → tally p (age now q) ≡ tally p q
  unfolding age
  tally-age now q = omega (
    arith,
    tally-age_level now background q,
    tally-age_level now normal (age_level now background q),
    tally-age_level now high (age_level now normal (age_level now background q)),
  )

module _ {R : Type 0} where
  depth-set_queue :
      (level : Priority) (xs : List (PendingOperation R)) (q : QueueInner R)
      → (set_queue level xs q).depth ≡ q.depth
  unfolding set_queue
  depth-set_queue critical xs q = refl
  depth-set_queue high xs q = refl
  depth-set_queue normal xs q = refl
  depth-set_queue background xs q = refl

  depth-promote :
      (level : Priority) (op : PendingOperation R) (q : QueueInner R)
      → (promote level op q).depth ≡ q.depth
  unfolding promote push_back
  depth-promote level op q = elim (Option-cases (age_up op.operation_priority)) [
    | inl e ↦ rw (e, promote) (depth-set_queue level _ q)
    | inr (prio, e) ↦ rw (e, promote) (depth-set_queue prio _ q)
  ]

  depth-promote_all :
      (level : Priority) (ops : List (PendingOperation R)) (q : QueueInner R)
      → (promote_all level ops q).depth ≡ q.depth
  unfolding promote_all
  depth-promote_all level [] q = refl
  depth-promote_all level (op ∷ ops) q =
      depth-promote_all level ops (promote level op q) ∙ depth-promote level op q

  depth-age_level :
      (now : ℕ) (level : Priority) (q : QueueInner R) → (age_level now level q).depth ≡ q.depth
  unfolding age_level
  depth-age_level now level q = depth-promote_all level _ _ ∙ depth-set_queue level _ q

  pub depth-age : (now : ℕ) (q : QueueInner R) → (age now q).depth ≡ q.depth
  unfolding age
  depth-age now q =
      depth-age_level now high _ ∙ (depth-age_level now normal _ ∙ depth-age_level now background q)
