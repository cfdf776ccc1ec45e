-- ===== src/Queue/Delivery.antt =====
-- What `dequeue` of nova-queue/src/backend.rs hands out and does to the queue.
use nova_runtime.Base.{
  ℕ, ◌<◌, ◌≡◌, refl, sym, ap, ap₂, ◌∙◌, Bool, true, false, not, ◌&&◌, List, [], ◌∷◌, ◌++◌, Option,
  none, some, Text, take, any, if◌then◌else◌, if-cases, nat_beq, nat_beq_iff, nat_eq, list_eq, All,
  All-mono, All-append, arith, Bool-cases, inl, inr, zero, suc,
}
use nova_runtime.Base.Assoc.{Assoc, get, get-remove}
use nova_runtime.Queue.{
  QueueMessage, IndividualQueueConfig, QueueData, is_visible, has_expired, mark_received,
}
use nova_runtime.Queue.IdMap.{MessageId, ids, get-put, IsSorted}
use nova_runtime.Queue.Backend.{dequeue_loop, deliver}

abbrev pub IsRising : List MessageId → Type 0
IsRising [] = Unit
IsRising (i ∷ is) = All (λ j. i < j) is × IsRising is

take-above :
    (i : MessageId) (n : ℕ) (is : List MessageId)
    → All (λ j. i < j) is
    → All (λ j. i < j) (take n is)
take-above i zero is a = tt
take-above i (suc n) [] a = tt
take-above i (suc n) (k ∷ is) a = (a.0, take-above i n is a.1)

pub take-IsRising : (n : ℕ) (is : List MessageId) → IsRising is → IsRising (take n is)
take-IsRising zero is r = tt
take-IsRising (suc n) [] r = tt
take-IsRising (suc n) (i ∷ is) r = (take-above i n is r.0, take-IsRising n is r.1)

pub IsSorted-IsRising : {V : Type 0} (m : List (MessageId × V)) → IsSorted m → IsRising (ids m)
IsSorted-IsRising [] s = tt
IsSorted-IsRising (entry ∷ m) s = (s.0, IsSorted-IsRising m s.1)

pub above-any :
    (i : MessageId) (is : List MessageId) → All (λ j. i < j) is → any (λ k. nat_beq k i) is ≡ false
above-any i [] a = refl
above-any i (k ∷ is) a = ground (arith, above-any i is a.1, a.0)

-- What a queue holds besides its messages and the entries available and in flight: the
-- configuration, the delayed and the dead ones.
abbrev pub Remainder : Type 0
Remainder = Option IndividualQueueConfig × Assoc MessageId (Unit {0}) × Assoc MessageId (Unit {0})

abbrev pub remainder : QueueData → Remainder
remainder q = (q.config, q.delayed, q.dlq)

-- Can a message be handed out now?
abbrev pub is_ready : ℕ → Option QueueMessage → Bool
is_ready now none = false
is_ready now (some m) = is_visible m now && not (has_expired m now)

module _ (uuid_text : MessageId → Text) (now : ℕ) (handles : MessageId → MessageId) where
  abbrev pub received : MessageId → Option QueueMessage → Option QueueMessage
  received i none = none
  received i (some m) = some (mark_received (uuid_text (handles i)) now m)

  -- What a queue holds under an identifier: message, available, in flight.
  abbrev pub View : Type 0
  View = Option QueueMessage × Option (Unit {0}) × Option (Unit {0})

  abbrev pub view : MessageId → QueueData → View
  view i q = (get i q.msgs, get i q.available, get i q.inflight)

  -- What it holds after a delivery: the message is received, or nothing has changed.
  abbrev pub delivered : Bool → MessageId → Option QueueMessage → View → View
  delivered chosen i o v = if chosen && is_ready now o then (received i o, none, some tt) else v

  deliver-view :
      (i j : MessageId) (o : Option QueueMessage) (q : QueueData)
      → view j (deliver uuid_text now (handles i) i o q).1 ≡ delivered (nat_beq i j) i o (view j q)
  deliver-view i j none q = ground arith
  deliver-view i j (some m) q = ground (
    arith,
    get-put i j (mark_received (uuid_text (handles i)) now m) q.msgs,
    get-remove i j q.available,
    get-put i j tt q.inflight,
  )

  pub dequeue_loop-view :
      (j : MessageId) (is : List MessageId) (q : QueueData)
      → IsRising is
      → view j (dequeue_loop uuid_text now handles is q).1
        ≡ delivered (any (λ i. nat_beq i j) is) j (get j q.msgs) (view j q)
  unfolding dequeue_loop
  dequeue_loop-view j [] q r = refl
  dequeue_loop-view j (i ∷ is) q r =
      let one = (deliver uuid_text now (handles i) i (get i q.msgs) q).1 in
      let onward = dequeue_loop-view j is one r.1 in
      let first = deliver-view i j (get i q.msgs) q in
      elim (Bool-cases (nat_beq i j)) [
        | inl e ↦
            let p = (nat_beq_iff i j).0 e in
            let alone : any (λ k. nat_beq k j) is ≡ false = above-any j is (rw (sym p) r.0) in
            let unchanged : view j (dequeue_loop uuid_text now handles is one).1 ≡ view j one =
              onward ∙ rw alone refl in
            let chosen : view j one ≡ delivered true i (get i q.msgs) (view j q) =
              first ∙ rw e refl in
            rw e (
              unchanged
              ∙ (chosen ∙ ap (λ (k : MessageId). delivered true k (get k q.msgs) (view j q)) p))
        | inr e ↦
            let same : view j one ≡ view j q = first ∙ rw e refl in
            rw e (onward ∙ ap (λ (v : View). delivered (any (λ k. nat_beq k j) is) j v.0 v) same)
      ]

  deliver-remainder :
      (i : MessageId) (o : Option QueueMessage) (q : QueueData)
      → remainder (deliver uuid_text now (handles i) i o q).1 ≡ remainder q
  deliver-remainder i none q = refl
  deliver-remainder i (some m) q = ground arith

  pub dequeue_loop-remainder :
      (is : List MessageId) (q : QueueData)
      → remainder (dequeue_loop uuid_text now handles is q).1 ≡ remainder q
  unfolding dequeue_loop
  dequeue_loop-remainder [] q = refl
  dequeue_loop-remainder (i ∷ is) q =
      dequeue_loop-remainder is (deliver uuid_text now (handles i) i (get i q.msgs) q).1
      ∙ deliver-remainder i (get i q.msgs) q

  abbrev pub hand : Bool → Option QueueMessage → List QueueMessage
  hand ready none = []
  hand ready (some m) = if ready then m ∷ [] else []

  -- The messages that a scan finds ready.
  abbrev pub handed : List MessageId → List (MessageId × QueueMessage) → List QueueMessage
  handed [] msgs = []
  handed (i ∷ is) msgs =
      hand (is_ready now (get i msgs)) (received i (get i msgs)) ++ handed is msgs

  deliver-hand :
      (i : MessageId) (o : Option QueueMessage) (q : QueueData)
      → (deliver uuid_text now (handles i) i o q).0 ≡ hand (is_ready now o) (received i o)
  deliver-hand i none q = refl
  deliver-hand i (some m) q = ground arith

  handed_same :
      (is : List MessageId) (msgs others : List (MessageId × QueueMessage))
      → All (λ i. get i others ≡ get i msgs) is
      → handed is others ≡ handed is msgs
  handed_same [] msgs others h = refl
  handed_same (i ∷ is) msgs others h =
      ap₂
        (λ (o : Option QueueMessage) (rest : List QueueMessage).
          hand (is_ready now o) (received i o) ++ rest)
        h.0 (handed_same is msgs others h.1)

  deliver-view_other :
      (i j : MessageId) (q : QueueData)
      → i < j
      → view j (deliver uuid_text now (handles i) i (get i q.msgs) q).1 ≡ view j q
  deliver-view_other i j q h =
      let other : nat_beq i j ≡ false = ground arith in
      deliver-view i j (get i q.msgs) q ∙ rw other refl

  pub dequeue_loop-handed :
      (is : List MessageId) (q : QueueData)
      → IsRising is
      → (dequeue_loop uuid_text now handles is q).0 ≡ handed is q.msgs
  unfolding dequeue_loop
  dequeue_loop-handed [] q r = refl
  dequeue_loop-handed (i ∷ is) q r =
      let one = (deliver uuid_text now (handles i) i (get i q.msgs) q).1 in
      ap₂ (λ (a b : List QueueMessage). a ++ b) (deliver-hand i (get i q.msgs) q)
        (dequeue_loop-handed is one r.1
          ∙ handed_same is q.msgs one.msgs
              (All-mono _ _ is (λ j h. ap (λ (v : View). v.0) (deliver-view_other i j q h)) r.0))

  All-hand :
      (P : QueueMessage → Type 0) (i : MessageId) (o : Option QueueMessage)
      → ((m : QueueMessage)
          → o ≡ some m
          → is_ready now o ≡ true
          → P (mark_received (uuid_text (handles i)) now m))
      → All P (hand (is_ready now o) (received i o))
  All-hand P i none f = tt
  All-hand P i (some m) f =
      if-cases (All P) (is_ready now (some m)) _ _ (λ e. (f m refl e, tt)) (λ e. tt)

  pub All-handed :
      (P : QueueMessage → Type 0) (Q : MessageId → Type 0) (is : List MessageId)
      (msgs : List (MessageId × QueueMessage))
      → ((i : MessageId) (m : QueueMessage)
          → Q i
          → get i msgs ≡ some m
          → is_ready now (get i msgs) ≡ true
          → P (mark_received (uuid_text (handles i)) now m))
      → All Q is
      → All P (handed is msgs)
  All-handed P Q [] msgs f h = tt
  All-handed P Q (i ∷ is) msgs f h =
      All-append P _ (handed is msgs) (All-hand P i (get i msgs) (λ m. f i m h.0))
        (All-handed P Q is msgs f h.1)
