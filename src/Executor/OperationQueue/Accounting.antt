-- ===== src/Executor/OperationQueue/Accounting.antt =====
-- What becomes of the operations that are pushed, over any calls of nova-executor/src/operation_queue.rs.
use nova_runtime.Base.{
  ℕ, suc, ◌+◌, ◌%◌, ◌^◌, ◌≡◌, ◌∙◌, refl, ap, Bool, not, List, [], ◌∷◌, ◌++◌, Option, none, some,
  All, arith, length, count_if, count_if-append, retain, map, is_ok, if◌then◌else◌,
}
use native.Mathlib.Nat.{mod-add-mod}
use mathlib.Core.Path.{subst}
use nova_runtime.Executor.OperationQueue.{
  PendingOperation, OperationQueue, new, push, reject, pop_priority, took, drain, cancel_all,
}
use nova_runtime.Executor.OperationQueue.Counts.{
  IsBlind, tally, every, every-IsBlind, tally-push_back,
}
use nova_runtime.Executor.OperationQueue.Invariant.{IsWellFormed, new-IsWellFormed}
use nova_runtime.Executor.OperationQueue.Service.{tally-pop_priority, drain-splits}
use nova_runtime.Executor.OperationQueue.History.{
  Call, pushes, pops, drains, cancels, step, run, IsFresh, step-IsWellFormed, run-new-IsWellFormed,
}
use nova_runtime.Executor.OperationQueue.Admission.{IsAdmitted, push-IsAdmitted}

module _ {R : Type 0} where
  -- The pushes of a sequence of calls, each with the queue that it finds.
  unfoldable pub submissions :
      OperationQueue R → List (Call R) → List (OperationQueue R × PendingOperation R)
  submissions q [] = []
  submissions q (pushes op ∷ cs) = (q, op) ∷ submissions (step q (pushes op)) cs
  submissions q (pops now ∷ cs) = submissions (step q (pops now)) cs
  submissions q (drains deadline ∷ cs) = submissions (step q (drains deadline)) cs
  submissions q (cancels ∷ cs) = submissions (step q cancels) cs

  abbrev pub is_taken : OperationQueue R × PendingOperation R → Bool
  is_taken (q, op) = is_ok (push q op).1

  -- The operations that a queue takes, and those that its callers get back.
  abbrev pub taken : List (OperationQueue R × PendingOperation R) → List (PendingOperation R)
  taken subs = map (λ s. s.1) (retain is_taken subs)

  abbrev pub popped : Option (PendingOperation R) → List (PendingOperation R)
  popped none = []
  popped (some op) = op ∷ []

  abbrev pub returned_by : OperationQueue R → Call R → List (PendingOperation R)
  returned_by q (pushes op) = []
  returned_by q (pops now) = popped (pop_priority now q).1
  returned_by q (drains deadline) = (drain deadline q).1
  returned_by q cancels = (cancel_all q).1

  unfoldable pub returned : OperationQueue R → List (Call R) → List (PendingOperation R)
  returned q [] = []
  returned q (c ∷ cs) = returned_by q c ++ returned (step q c) cs

  push-tally :
      (p : PendingOperation R → Bool) (q : OperationQueue R) (op : PendingOperation R)
      → tally p (push q op).0.inner
        ≡ tally p q.inner + (if is_taken (q, op) then count_if p (op ∷ []) else 0)
  unfolding push reject
  push-tally p q op = ground (arith, tally-push_back p op.operation_priority op q.inner)

  cancel_all-tally :
      (p : PendingOperation R → Bool) (q : OperationQueue R)
      → (tally p (cancel_all q).0.inner ≡ 0) × (count_if p (cancel_all q).1 ≡ tally p q.inner)
  unfolding cancel_all
  cancel_all-tally p q = (refl, simp count_if-append (omega arith))

  -- The operations taken by one more push.
  count_if-taken :
      (p : PendingOperation R → Bool) (s : OperationQueue R × PendingOperation R)
      (subs : List (OperationQueue R × PendingOperation R))
      → count_if p (taken (s ∷ subs))
        ≡ (if is_taken s then count_if p (s.1 ∷ []) else 0) + count_if p (taken subs)
  count_if-taken p s subs = ground arith

  count_if-popped :
      (p : PendingOperation R → Bool) (o : Option (PendingOperation R))
      → count_if p (popped o) ≡ (elim o [ none ↦ 0 | some op ↦ count_if p (op ∷ []) ])
  count_if-popped p none = refl
  count_if-popped p (some op) = refl

  run-balance :
      (p : PendingOperation R → Bool) (b : IsBlind p) (q : OperationQueue R) (cs : List (Call R))
      → tally p q.inner + count_if p (taken (submissions q cs))
        ≡ tally p (run q cs).inner + count_if p (returned q cs)
  unfolding run submissions returned step
  run-balance p b q [] = refl
  run-balance p b q (pushes op ∷ cs) = omega (
    arith,
    push-tally p q op,
    count_if-taken p (q, op) (submissions (step q (pushes op)) cs),
    run-balance p b (step q (pushes op)) cs,
  )
  run-balance p b q (pops now ∷ cs) = omega (
    arith,
    tally-pop_priority p b now q,
    count_if-popped p (pop_priority now q).1,
    count_if-append p (returned_by q (pops now)) (returned (step q (pops now)) cs),
    run-balance p b (step q (pops now)) cs,
  )
  run-balance p b q (drains deadline ∷ cs) = omega (
    arith,
    (drain-splits p deadline q).2,
    count_if-append p (drain deadline q).1 (returned (step q (drains deadline)) cs),
    run-balance p b (step q (drains deadline)) cs,
  )
  run-balance p b q (cancels ∷ cs) = omega (
    arith,
    (cancel_all-tally p q).0,
    (cancel_all-tally p q).1,
    count_if-append p (cancel_all q).1 (returned (step q cancels) cs),
    run-balance p b (step q cancels) cs,
  )

  push-rejected :
      (n : ℕ) (q : OperationQueue R) (op : PendingOperation R)
      → q.rejected_count ≡ n % 2 ^ 64
      → (push q op).0.rejected_count ≡ (n + (if is_taken (q, op) then 0 else 1)) % 2 ^ 64
  unfolding push reject
  push-rejected n q op h = ground (arith, h, mod-add-mod n (2 ^ 64) 1)

  pop-rejected :
      (now : ℕ) (q : OperationQueue R) → (pop_priority now q).0.rejected_count ≡ q.rejected_count
  unfolding pop_priority took
  pop-rejected now q = ground arith

  run-rejected :
      (n : ℕ) (q : OperationQueue R) (cs : List (Call R))
      → q.rejected_count ≡ n % 2 ^ 64
      → (run q cs).rejected_count
        ≡ (n + count_if (λ s. not (is_taken s)) (submissions q cs)) % 2 ^ 64
  unfolding run submissions step drain cancel_all
  run-rejected n q [] h = h ∙ ap (λ (m : ℕ). m % 2 ^ 64) (omega arith)
  run-rejected n q (pushes op ∷ cs) h =
      run-rejected (n + (if is_taken (q, op) then 0 else 1)) (step q (pushes op)) cs
        (push-rejected n q op h)
      ∙ ap (λ (m : ℕ). m % 2 ^ 64) (ground arith)
  run-rejected n q (pops now ∷ cs) h =
      run-rejected n (step q (pops now)) cs (pop-rejected now q ∙ h)
  run-rejected n q (drains deadline ∷ cs) h = run-rejected n (step q (drains deadline)) cs h
  run-rejected n q (cancels ∷ cs) h = run-rejected n (step q cancels) cs h

  push-capacity :
      (q : OperationQueue R) (op : PendingOperation R) → (push q op).0.capacity ≡ q.capacity
  unfolding push reject
  push-capacity q op = ground arith

  pop-capacity : (now : ℕ) (q : OperationQueue R) → (pop_priority now q).0.capacity ≡ q.capacity
  unfolding pop_priority took
  pop-capacity now q = ground arith

  step-capacity : (q : OperationQueue R) (c : Call R) → (step q c).capacity ≡ q.capacity
  unfolding step drain cancel_all
  step-capacity q (pushes op) = push-capacity q op
  step-capacity q (pops now) = pop-capacity now q
  step-capacity q (drains deadline) = refl
  step-capacity q cancels = refl

  run-IsAdmitted :
      (capacity : ℕ) (q : OperationQueue R) (cs : List (Call R))
      → q.capacity ≡ capacity
      → IsWellFormed q
      → All IsFresh cs
      → All (IsAdmitted capacity) (submissions q cs)
  unfolding submissions
  run-IsAdmitted capacity q [] e w f = tt
  run-IsAdmitted capacity q (pushes op ∷ cs) e w f = (
    subst (λ (n : ℕ). IsAdmitted n (q, op)) e (push-IsAdmitted q op w),
    run-IsAdmitted capacity (step q (pushes op)) cs (step-capacity q (pushes op) ∙ e)
        (step-IsWellFormed q (pushes op) f.0 w) f.1,
  )
  run-IsAdmitted capacity q (pops now ∷ cs) e w f =
      run-IsAdmitted capacity (step q (pops now)) cs (step-capacity q (pops now) ∙ e)
        (step-IsWellFormed q (pops now) f.0 w) f.1
  run-IsAdmitted capacity q (drains deadline ∷ cs) e w f =
      run-IsAdmitted capacity (step q (drains deadline)) cs (step-capacity q (drains deadline) ∙ e)
        (step-IsWellFormed q (drains deadline) f.0 w) f.1
  run-IsAdmitted capacity q (cancels ∷ cs) e w f =
      run-IsAdmitted capacity (step q cancels) cs (step-capacity q cancels ∙ e)
        (step-IsWellFormed q cancels f.0 w) f.1

  -- The account of a queue from its start.
  pub record IsAccounted (p : PendingOperation R → Bool) (capacity : ℕ) (cs : List (Call R))
      : Type 0 where
    pub admitted : All (IsAdmitted capacity) (submissions (new capacity) cs)
    pub refused :
        (run (new capacity) cs).rejected_count
        ≡ count_if (λ s. not (is_taken s)) (submissions (new capacity) cs) % 2 ^ 64
    pub balance :
        count_if p (taken (submissions (new capacity) cs))
        ≡ tally p (run (new capacity) cs).inner + count_if p (returned (new capacity) cs)
    pub published :
        (run (new capacity) cs).current_depth + length (returned (new capacity) cs)
        ≡ length (taken (submissions (new capacity) cs))

  count_if-every : (ops : List (PendingOperation R)) → count_if every ops ≡ length ops
  count_if-every [] = refl
  count_if-every (op ∷ ops) = ap suc (count_if-every ops)

  -- For a test that looks at neither priority nor age, and any calls on a new queue, if each
  -- pushed operation had aged at most three times: a push has been taken exactly if fewer
  -- operations than the capacity waited and fewer than 64, 128, 512 or 320 in the deque of its
  -- priority, and then stands last in it; it was refused for the whole queue exactly if as many as
  -- the capacity waited, and a refused push left the deques as they were. The count of rejections
  -- is the number of refused pushes modulo 2^64. The operations taken that pass the test are as
  -- many as those that wait and those that callers got back together, and the published depth is
  -- the number of those taken that did not come back.
  pub run-new-IsAccounted :
      (p : PendingOperation R → Bool)
      → IsBlind p
      → (capacity : ℕ) (cs : List (Call R)) → All IsFresh cs
      → IsAccounted p capacity cs
  unfolding new
  run-new-IsAccounted p b capacity cs f =
      let w = run-new-IsWellFormed capacity cs f in
      record {
        admitted = run-IsAdmitted capacity (new capacity) cs refl (new-IsWellFormed capacity) f;
        refused = run-rejected 0 (new capacity) cs refl ∙ ap (λ (m : ℕ). m % 2 ^ 64) (omega arith);
        balance = omega (arith, run-balance p b (new capacity) cs);
        published = omega (
          arith,
          w.published,
          w.counted,
          run-balance every every-IsBlind (new capacity) cs,
          count_if-every (taken (submissions (new capacity) cs)),
          count_if-every (returned (new capacity) cs),
        );
      }
