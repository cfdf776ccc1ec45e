-- ===== src/Executor/OperationQueue/Aging.antt =====
-- What the aging loops of `pop_priority` achieve: nova-executor/src/operation_queue.rs.
use nova_runtime.Base.{
  ℕ, ◌-◌, ◌≤◌, ◌<◌, ◌≡◌, ◌≢◌, ◌∙◌, refl, false, List, [], ◌∷◌, All, arith, Bool-cases, inl, inr,
  ◌⊎◌,
}
use nova_runtime.Executor.OperationQueue.{
  Priority, critical, high, normal, background, PendingOperation, QueueInner, queue_at, set_queue,
  push_back, take_due, promote, promote_all, age_level, age, age_up, is_due, max_wait,
}
use nova_runtime.Executor.OperationQueue.Invariant.{
  IsPlaced, take_due-Fits, age_level-IsPlaced, IsPlaced-at,
}

-- The deque to which a due operation of a level goes.
abbrev goal : Priority → Priority
goal critical = critical
goal high = high
goal normal = high
goal background = normal

module _ {R : Type 0} where
  -- The operation has not waited its time out, or has aged as often as it may.
  abbrev pub IsPatient : ℕ → PendingOperation R → Type 0
  IsPatient now op =
      (now - op.submitted_at < max_wait op.operation_priority) ⊎ (3 ≤ op.priority_age)

  IsPatient-not-due : (now : ℕ) (op : PendingOperation R) → is_due now op ≡ false → IsPatient now op
  unfolding is_due
  IsPatient-not-due now op e = ground arith

  IsPatient-kept :
      (now : ℕ) (ops : List (PendingOperation R)) → All (IsPatient now) (take_due now ops).0
  unfolding take_due
  IsPatient-kept now [] = tt
  IsPatient-kept now (op ∷ ops) = elim (Bool-cases (is_due now op)) [
    | inl due ↦ rw due (IsPatient-kept now ops)
    | inr waits ↦ rw waits (IsPatient-not-due now op waits, IsPatient-kept now ops)
  ]

  queue_at-set_queue :
      (p : Priority) (xs : List (PendingOperation R)) (q : QueueInner R)
      → queue_at p (set_queue p xs q) ≡ xs
  unfolding queue_at set_queue
  queue_at-set_queue critical xs q = refl
  queue_at-set_queue _ xs q = refl

  queue_at-push_back_ne :
      (p level : Priority) (op : PendingOperation R) (q : QueueInner R)
      → p ≢ level
      → queue_at p (push_back level op q) ≡ queue_at p q
  unfolding queue_at set_queue push_back
  queue_at-push_back_ne critical critical op q h = absurd (h refl)
  queue_at-push_back_ne high high op q h = absurd (h refl)
  queue_at-push_back_ne normal normal op q h = absurd (h refl)
  queue_at-push_back_ne background background op q h = absurd (h refl)
  queue_at-push_back_ne critical _ op q h = refl
  queue_at-push_back_ne high critical op q h = refl
  queue_at-push_back_ne high _ op q h = refl
  queue_at-push_back_ne normal critical op q h = refl
  queue_at-push_back_ne normal high op q h = refl
  queue_at-push_back_ne normal background op q h = refl
  queue_at-push_back_ne background critical op q h = refl
  queue_at-push_back_ne background _ op q h = refl

  queue_at-promote_ne :
      (p level : Priority) (op : PendingOperation R) (q : QueueInner R)
      → p ≢ goal level
      → op.operation_priority ≡ level
      → queue_at p (promote level op q) ≡ queue_at p q
  unfolding promote age_up
  queue_at-promote_ne p critical op q h e = rw (e, promote) (queue_at-push_back_ne p critical _ q h)
  queue_at-promote_ne p high op q h e = rw (e, promote) (queue_at-push_back_ne p high _ q h)
  queue_at-promote_ne p normal op q h e = rw (e, promote) (queue_at-push_back_ne p high _ q h)
  queue_at-promote_ne p background op q h e = rw (e, promote) (queue_at-push_back_ne p normal _ q h)

  queue_at-promote_all_ne :
      (p level : Priority) (ops : List (PendingOperation R)) (q : QueueInner R)
      → p ≢ goal level
      → All (λ op. (op.operation_priority ≡ level) × (op.priority_age < 3)) ops
      → queue_at p (promote_all level ops q) ≡ queue_at p q
  unfolding promote_all
  queue_at-promote_all_ne p level [] q h a = refl
  queue_at-promote_all_ne p level (op ∷ ops) q h a =
      queue_at-promote_all_ne p level ops (promote level op q) h a.1
      ∙ queue_at-promote_ne p level op q h a.0.0

  -- A level whose due operations leave it keeps the patient ones, in their order.
  queue_at-age_level_self :
      (now : ℕ) (level : Priority) (q : QueueInner R)
      → level ≢ goal level
      → IsPlaced q
      → queue_at level (age_level now level q) ≡ (take_due now (queue_at level q)).0
  unfolding age_level
  queue_at-age_level_self now level q h w =
      queue_at-promote_all_ne level level _ _ h
        (take_due-Fits now level (queue_at level q) (IsPlaced-at q w level)).1
      ∙ queue_at-set_queue level _ q

  queue_at-set_queue_ne :
      (p level : Priority) (xs : List (PendingOperation R)) (q : QueueInner R)
      → p ≢ level
      → queue_at p (set_queue level xs q) ≡ queue_at p q
  unfolding queue_at set_queue
  queue_at-set_queue_ne critical critical xs q h = absurd (h refl)
  queue_at-set_queue_ne high high xs q h = absurd (h refl)
  queue_at-set_queue_ne normal normal xs q h = absurd (h refl)
  queue_at-set_queue_ne background background xs q h = absurd (h refl)
  queue_at-set_queue_ne critical _ xs q h = refl
  queue_at-set_queue_ne high critical xs q h = refl
  queue_at-set_queue_ne high _ xs q h = refl
  queue_at-set_queue_ne normal background xs q h = refl
  queue_at-set_queue_ne normal _ xs q h = refl
  queue_at-set_queue_ne background critical xs q h = refl
  queue_at-set_queue_ne background _ xs q h = refl

  queue_at-age_level_ne :
      (now : ℕ) (p level : Priority) (q : QueueInner R)
      → p ≢ level
      → p ≢ goal level
      → IsPlaced q
      → queue_at p (age_level now level q) ≡ queue_at p q
  unfolding age_level
  queue_at-age_level_ne now p level q h k w =
      queue_at-promote_all_ne p level _ _ k
        (take_due-Fits now level (queue_at level q) (IsPlaced-at q w level)).1
      ∙ queue_at-set_queue_ne p level _ q h

  module _ (now : ℕ) (q : QueueInner R) (w : IsPlaced q) where
    aged_background : IsPlaced (age_level now background q)
    aged_background = age_level-IsPlaced now background q w

    -- Critical operations are not touched.
    pub queue_at-age_critical : queue_at critical (age now q) ≡ queue_at critical q
    unfolding age
    queue_at-age_critical =
        queue_at-age_level_ne now critical high _ (λ e. cc) (λ e. cc)
          (age_level-IsPlaced now normal _ aged_background)
        ∙ (queue_at-age_level_ne now critical normal _ (λ e. cc) (λ e. cc) aged_background
            ∙ queue_at-age_level_ne now critical background q (λ e. cc) (λ e. cc) w)

    -- If every operation stands in the deque of its priority and has aged at most three times,
    -- then after the aging loops each operation in the normal and the background deque has waited
    -- less than the limit of its priority or has aged at least three times.
    pub age-IsPatient :
        All (IsPatient now) (queue_at normal (age now q))
        × All (IsPatient now) (queue_at background (age now q))
    unfolding age
    age-IsPatient =
        let normal_aged = age_level-IsPlaced now normal _ aged_background in
        (
          rw
              (queue_at-age_level_ne now normal high _ (λ e. cc) (λ e. cc) normal_aged
                ∙ queue_at-age_level_self now normal _ (λ e. cc) aged_background)
              (IsPatient-kept now _),
          rw
              (queue_at-age_level_ne now background high _ (λ e. cc) (λ e. cc) normal_aged
                ∙ (queue_at-age_level_ne now background normal _ (λ e. cc) (λ e. cc) aged_background
                    ∙ queue_at-age_level_self now background q (λ e. cc) w))
              (IsPatient-kept now _),
        )
