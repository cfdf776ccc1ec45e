-- ===== src/Queue/Repeats.antt =====
-- `dequeue` of nova-queue/src/backend.rs as a whole: what it hands out, and what it does not.
use nova_runtime.Base.{
  ℕ, ◌≡◌, ◌≢◌, refl, ap, ◌∙◌, Bool, true, false, List, [], ◌∷◌, Option, none, some, Text, take, any,
  if◌then◌else◌, nat_beq, nat_eq, list_eq, ==_refl, ◌==◌, list_beq_iff, Bool-cases, inl, inr, All,
  All-mono, arith, Result, err, ok, zero, suc, ok_or,
}
use nova_runtime.Base.Assoc.{get}
use nova_runtime.Queue.{
  QueueMessage, IndividualQueueConfig, QueueData, QueueError, Store, write, not_found, queue_paused,
}
use nova_runtime.Queue.IdMap.{MessageId, ids, get-ids}
use nova_runtime.Queue.Backend.{dequeue, dequeue_in, dequeue_loop, get_queue}
use nova_runtime.Queue.History.{IsReachable, after, dequeued, IsReachable-IsTidy}
use nova_runtime.Queue.Delivery.{
  IsRising, take-IsRising, IsSorted-IsRising, View, view, delivered, handed, is_ready, received,
  remainder, dequeue_loop-remainder, All-handed, dequeue_loop-view, dequeue_loop-handed,
}

pub write_self : (name : Text) (q : QueueData) (s : Store) → write name q s name ≡ q
write_self name q s = rw (==_refl name) refl

-- Other queues are as they were.
pub write_other :
    (name other : Text) (q : QueueData) (s : Store) → name ≢ other → write name q s other ≡ s other
write_other name other q s h = elim (Bool-cases (name == other)) [
  | inl e ↦ absurd (h ((list_beq_iff name other).0 e))
  | inr e ↦ rw e refl
]

-- The entries that a call looks at.
abbrev pub scanned : Text → ℕ → Store → List MessageId
scanned name n s = take n (ids (s name).available)

any_self : (is : List MessageId) → All (λ i. any (λ k. nat_beq k i) is ≡ true) is
any_self [] = tt
any_self (i ∷ is) = (ground arith, All-mono _ _ is (λ j h. later i j is h) (any_self is))
  where
    later :
        (i j : MessageId) (is : List MessageId)
        → any (λ k. nat_beq k j) is ≡ true
        → any (λ k. nat_beq k j) (i ∷ is) ≡ true
    later i j is h = ground (arith, h)

pub take-All : (P : MessageId → Type 0) (n : ℕ) (is : List MessageId) → All P is → All P (take n is)
take-All P zero is a = tt
take-All P (suc n) [] a = tt
take-All P (suc n) (i ∷ is) a = (a.0, take-All P n is a.1)

module _ (uuid_text : MessageId → Text) (parse_uuid : Text → Option MessageId) where
  open-dequeue :
      (now : ℕ) (handles : MessageId → MessageId) (name : Text) (n : ℕ) (s : Store)
      (c : IndividualQueueConfig)
      → (s name).config ≡ some c
      → c.paused ≡ false
      → let out = dequeue_loop uuid_text now handles (scanned name n s) (s name) in
        dequeue uuid_text now handles name n s ≡ (ok out.0, write name out.1 s)
  unfolding dequeue get_queue
  open-dequeue now handles name n s c e p =
      let out = dequeue_loop uuid_text now handles (scanned name n s) (s name) in
      ap
        (λ (o : Option IndividualQueueConfig).
          dequeue_in uuid_text now handles name n (ok_or o not_found) s)
        e
      ∙ ap (λ (b : Bool). if b then (err queue_paused, s) else (ok out.0, write name out.1 s)) p

  module _ (s : Store) (r : IsReachable uuid_text parse_uuid s) (name : Text)
      (c : IndividualQueueConfig) (found : (s name).config ≡ some c) (running : c.paused ≡ false)
      (now : ℕ) (handles : MessageId → MessageId) (n : ℕ) where
    scanned-IsRising : IsRising (scanned name n s)
    scanned-IsRising = take-IsRising n (ids (s name).available) (
        IsSorted-IsRising (s name).available
          (IsReachable-IsTidy uuid_text parse_uuid s r name).available_sorted)

    pub dequeue-handed :
        let out = dequeue uuid_text now handles name n s in
        (out.0 ≡ ok (handed uuid_text now handles (scanned name n s) (s name).msgs))
        × ((j : MessageId)
            → view uuid_text now handles j (out.1 name)
              ≡ delivered uuid_text now handles
                  (any (λ i. nat_beq i j) (scanned name n s))
                  j
                  (get j (s name).msgs)
                  (view uuid_text now handles j (s name)))
        × (remainder (out.1 name) ≡ remainder (s name))
        × ((other : Text) → name ≢ other → out.1 other ≡ s other)
    dequeue-handed =
        let e = open-dequeue now handles name n s c found running in
        let after = dequeue_loop uuid_text now handles (scanned name n s) (s name) in
        (
          ap (λ (o : Result QueueError (List QueueMessage) × Store). o.0) e
              ∙ ap ok (
                  dequeue_loop-handed uuid_text now handles (scanned name n s) (s name)
                    scanned-IsRising),
          λ j.
              ap
                (λ (o : Result QueueError (List QueueMessage) × Store).
                  view uuid_text now handles j (o.1 name))
                e
              ∙ ap (view uuid_text now handles j) (write_self name after.1 s)
              ∙ dequeue_loop-view uuid_text now handles j (scanned name n s) (s name)
                  scanned-IsRising,
          ap (λ (o : Result QueueError (List QueueMessage) × Store). remainder (o.1 name)) e
              ∙ ap remainder (write_self name after.1 s)
              ∙ dequeue_loop-remainder uuid_text now handles (scanned name n s) (s name),
          λ other h.
              ap (λ (o : Result QueueError (List QueueMessage) × Store). o.1 other) e
              ∙ write_other name other after.1 s h,
        )

    delivered-true :
        (i : MessageId)
        → any (λ k. nat_beq k i) (scanned name n s) ≡ true
        → is_ready now (get i (s name).msgs) ≡ true
        → delivered uuid_text now handles
            (any (λ k. nat_beq k i) (scanned name n s))
            i
            (get i (s name).msgs)
            (view uuid_text now handles i (s name))
          ≡ (received uuid_text now handles i (get i (s name).msgs), none, some tt)
    delivered-true i chosen ready = rw (chosen, ready) refl

    -- What was handed out is no longer available.
    handed-unavailable :
        All
          (λ m. get m.id ((dequeue uuid_text now handles name n s).1 name).available ≡ none)
          (handed uuid_text now handles (scanned name n s) (s name).msgs)
    handed-unavailable =
        let named = (IsReachable-IsTidy uuid_text parse_uuid s r name).named in
        All-handed uuid_text now handles _ (λ i. any (λ k. nat_beq k i) (scanned name n s) ≡ true)
          (scanned name n s) (s name).msgs
          (λ i m chosen e ready.
            ap
              (λ (j : MessageId). get j ((dequeue uuid_text now handles name n s).1 name).available)
              (named i m e)
            ∙ ap (λ (v : View uuid_text now handles). v.1)
                (dequeue-handed.1 i ∙ delivered-true i chosen ready))
          (any_self (scanned name n s))

    -- What is handed out was available.
    handed-available :
        All
          (λ m. get m.id (s name).available ≢ none)
          (handed uuid_text now handles (scanned name n s) (s name).msgs)
    handed-available =
        let named = (IsReachable-IsTidy uuid_text parse_uuid s r name).named in
        All-handed uuid_text now handles _ (λ i. get i (s name).available ≢ none) (scanned name n s)
          (s name).msgs (λ i m there e ready. rw (named i m e) there)
          (take-All _ n (ids (s name).available) (get-ids (s name).available))

  -- In a reachable store, two dequeues in a row on a queue that is not paused, with any clocks,
  -- handles and limits, hand out no message twice.
  pub dequeue-apart :
      (s : Store) (r : IsReachable uuid_text parse_uuid s) (name : Text)
      (c d : IndividualQueueConfig) (now later : ℕ) (handles others : MessageId → MessageId)
      (m n : ℕ)
      → let once = dequeue uuid_text now handles name m s in
        let twice = dequeue uuid_text later others name n once.1 in
        (s name).config ≡ some c
        → c.paused ≡ false
        → (once.1 name).config ≡ some d
        → d.paused ≡ false
        → (xs ys : List QueueMessage) × (once.0 ≡ ok xs)
          × (twice.0 ≡ ok ys)
          × All (λ x. All (λ y. y.id ≢ x.id) ys) xs
  dequeue-apart s r name c d now later handles others m n e p f q =
      let t = (dequeue uuid_text now handles name m s).1 in
      let s' = after s t r (dequeued now handles name m refl) in
      let xs = handed uuid_text now handles (scanned name m s) (s name).msgs in
      let ys = handed uuid_text later others (scanned name n t) (t name).msgs in
      (
        xs,
        ys,
        (dequeue-handed s r name c e p now handles m).0,
        (dequeue-handed t s' name d f q later others n).0,
        All-mono _ _ xs
            (λ x gone.
              All-mono _ _ ys (λ y there same. there (rw same gone))
                (handed-available t s' name d f q later others n))
            (handed-unavailable s r name c e p now handles m),
      )
