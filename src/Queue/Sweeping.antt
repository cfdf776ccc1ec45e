-- ===== src/Queue/Sweeping.antt =====
-- The background calls of nova-queue/src/backend.rs, and `ack` with a handle that `dequeue` gave out.
use nova_runtime.Base.{
  ℕ, ◌≡◌, ◌≢◌, refl, sym, ap, ◌∙◌, Bool, true, false, ◌&&◌, List, [], ◌∷◌, Option, none, some, Text,
  any, if◌then◌else◌, nat_beq, nat_beq_iff, nat_eq, list_eq, All, arith, err, ok, Bool-cases, inl,
  inr, count_if,
}
use nova_runtime.Base.Assoc.{Assoc, get, get-remove}
use nova_runtime.Queue.{QueueMessage, IndividualQueueConfig, QueueData, Store, message_not_found}
use nova_runtime.Queue.IdMap.{MessageId, ids, get-put}
use nova_runtime.Queue.Backend.{dequeue, ack, ack_id, ack_message}
use nova_runtime.Queue.Sweeps.{release, is_released, release_loop, release_expired_messages}
use nova_runtime.Queue.History.{IsReachable, IsReachable-IsTidy}
use nova_runtime.Queue.Delivery.{
  IsRising, IsSorted-IsRising, above-any, handed, All-handed, view, View, delivered, remainder,
}
use nova_runtime.Queue.Repeats.{write_self, write_other, dequeue-handed, scanned}

-- Does a message in flight come back now?
abbrev pub is_back : ℕ → Option QueueMessage → Bool
is_back now none = false
is_back now (some m) = is_released now m

-- What a queue holds under an identifier: message, available, in flight.
abbrev pub Place : Type 0
Place = Option QueueMessage × Option (Unit {0}) × Option (Unit {0})

abbrev pub place : MessageId → QueueData → Place
place i q = (get i q.msgs, get i q.available, get i q.inflight)

abbrev pub returned : Bool → Bool → Place → Place
returned chosen back p = if chosen && back then (p.0, some tt, none) else p

release-place :
    (now : ℕ) (i j : MessageId) (o : Option QueueMessage) (q : QueueData)
    → place j (release now i o q).0 ≡ returned (nat_beq i j) (is_back now o) (place j q)
release-place now i j none q = ground arith
release-place now i j (some m) q =
    ground (arith, get-put i j tt q.available, get-remove i j q.inflight)

release-msgs :
    (now : ℕ) (i : MessageId) (o : Option QueueMessage) (q : QueueData)
    → (release now i o q).0.msgs ≡ q.msgs
release-msgs now i none q = refl
release-msgs now i (some m) q = ground arith

release_loop-place :
    (now : ℕ) (j : MessageId) (is : List MessageId) (q : QueueData)
    → IsRising is
    → place j (release_loop now is q).0
      ≡ returned (any (λ i. nat_beq i j) is) (is_back now (get j q.msgs)) (place j q)
unfolding release_loop
release_loop-place now j [] q r = refl
release_loop-place now j (i ∷ is) q r =
    let one = (release now i (get i q.msgs) q).0 in
    let onward = release_loop-place now j is one r.1 in
    let first = release-place now i j (get i q.msgs) q in
    elim (Bool-cases (nat_beq i j)) [
      | inl e ↦
          let p = (nat_beq_iff i j).0 e in
          let alone : any (λ k. nat_beq k j) is ≡ false = above-any j is (rw (sym p) r.0) in
          let unchanged : place j (release_loop now is one).0 ≡ place j one =
            onward ∙ rw alone refl in
          let chosen : place j one ≡ returned true (is_back now (get i q.msgs)) (place j q) =
            first ∙ rw e refl in
          rw e (
            unchanged
            ∙ (chosen
                ∙ ap (λ (k : MessageId). returned true (is_back now (get k q.msgs)) (place j q)) p))
      | inr e ↦
          let same : place j one ≡ place j q = first ∙ rw e refl in
          rw e (
            onward
            ∙ ap (λ (p : Place). returned (any (λ k. nat_beq k j) is) (is_back now p.0) p) same)
    ]

release-remainder :
    (now : ℕ) (i : MessageId) (o : Option QueueMessage) (q : QueueData)
    → remainder (release now i o q).0 ≡ remainder q
release-remainder now i none q = refl
release-remainder now i (some m) q = ground arith

release_loop-remainder :
    (now : ℕ) (is : List MessageId) (q : QueueData)
    → remainder (release_loop now is q).0 ≡ remainder q
unfolding release_loop
release_loop-remainder now [] q = refl
release_loop-remainder now (i ∷ is) q =
    release_loop-remainder now is (release now i (get i q.msgs) q).0
    ∙ release-remainder now i (get i q.msgs) q

-- How many of the scanned messages come back.
release-count :
    (now : ℕ) (i : MessageId) (o : Option QueueMessage) (q : QueueData)
    → (release now i o q).1 ≡ (if is_back now o then 1 else 0)
release-count now i none q = refl
release-count now i (some m) q = ground arith

release_loop-count :
    (now : ℕ) (is : List MessageId) (q : QueueData)
    → (release_loop now is q).1 ≡ count_if (λ i. is_back now (get i q.msgs)) is
unfolding release_loop
release_loop-count now [] q = refl
release_loop-count now (i ∷ is) q =
    let one = (release now i (get i q.msgs) q).0 in
    let onward : (release_loop now is one).1 ≡ count_if (λ i. is_back now (get i q.msgs)) is =
      release_loop-count now is one
      ∙ ap (λ (msgs : Assoc MessageId QueueMessage). count_if (λ i. is_back now (get i msgs)) is)
          (release-msgs now i (get i q.msgs) q) in
    ground (arith, onward, release-count now i (get i q.msgs) q)

abbrev pub holds : Option (Unit {0}) → Bool
holds none = false
holds (some u) = true

any-ids :
    (j : MessageId) (m : Assoc MessageId (Unit {0}))
    → any (λ i. nat_beq i j) (ids m) ≡ holds (get j m)
unfolding get
any-ids j [] = refl
any-ids j ((i, u) ∷ m) = ground (arith, any-ids j m)

all-true : (is : List MessageId) → All (λ i. Unit {0}) is
all-true [] = tt
all-true (i ∷ is) = (tt, all-true is)

-- A delivery adds no message.
absent-view :
    (uuid_text : MessageId → Text) (now : ℕ) (handles : MessageId → MessageId) (chosen : Bool)
    (i : MessageId) (q : QueueData)
    → get i q.msgs ≡ none
    → (delivered uuid_text now handles chosen i (get i q.msgs) (view uuid_text now handles i q)).0
      ≡ none
absent-view uuid_text now handles chosen i q e = rw e (ground arith)

module _ (uuid_text : MessageId → Text) (parse_uuid : Text → Option MessageId) where
  -- In a reachable store, the release makes exactly those messages in flight available again whose
  -- time of visibility has come and which have not expired, and counts them. No message changes,
  -- nor any other entry available or in flight, nor the configuration, the delayed and the dead
  -- entries of the queue, nor any other queue.
  pub release_expired_messages-returned :
      (s : Store) (name : Text) (now : ℕ)
      → IsReachable uuid_text parse_uuid s
      → let q = s name in
        let out = release_expired_messages name now s in
        (out.0 ≡ count_if (λ i. is_back now (get i q.msgs)) (ids q.inflight))
        × ((j : MessageId)
            → place j (out.1 name)
              ≡ returned (holds (get j q.inflight)) (is_back now (get j q.msgs)) (place j q))
        × (remainder (out.1 name) ≡ remainder q)
        × ((other : Text) → name ≢ other → out.1 other ≡ s other)
  unfolding release_expired_messages
  release_expired_messages-returned s name now r =
      let q = s name in
      let rising =
        IsSorted-IsRising q.inflight
          (IsReachable-IsTidy uuid_text parse_uuid s r name).inflight_sorted in
      (
        release_loop-count now (ids q.inflight) q,
        λ j.
            ap (place j) (write_self name (release_loop now (ids q.inflight) q).0 s)
            ∙ release_loop-place now j (ids q.inflight) q rising
            ∙ ap (λ (b : Bool). returned b (is_back now (get j q.msgs)) (place j q))
                (any-ids j q.inflight),
        ap remainder (write_self name (release_loop now (ids q.inflight) q).0 s)
            ∙ release_loop-remainder now (ids q.inflight) q,
        λ other h. write_other name other (release_loop now (ids q.inflight) q).0 s h,
      )

  module _ (parse-text : (i : MessageId) → parse_uuid (uuid_text i) ≡ some i) where
    -- If reading the text of a UUID gives it back, and no handle that a dequeue on a running queue
    -- of a reachable store gives out is the identifier of a message there, then acknowledging any
    -- message that it hands out by its receipt handle fails as not found and changes nothing.
    pub ack-handed :
        (s : Store) (name : Text) (c : IndividualQueueConfig) (now n : ℕ)
        (handles : MessageId → MessageId)
        → IsReachable uuid_text parse_uuid s
        → (s name).config ≡ some c
        → c.paused ≡ false
        → ((i : MessageId) → get (handles i) (s name).msgs ≡ none)
        → let t = (dequeue uuid_text now handles name n s).1 in
          (xs : List QueueMessage) × ((dequeue uuid_text now handles name n s).0 ≡ ok xs)
          × All
              (λ x.
                (handle : Text) × (x.receipt_handle ≡ some handle)
                × (ack parse_uuid name handle t ≡ (err message_not_found, t)))
              xs
    unfolding ack
    ack-handed s name c now n handles r e p fresh =
        let t = (dequeue uuid_text now handles name n s).1 in
        let out = dequeue-handed uuid_text parse_uuid s r name c e p now handles n in
        let absent : (i : MessageId) → get (handles i) (t name).msgs ≡ none = λ i.
          ap (λ (v : View uuid_text now handles). v.0) (out.1 (handles i))
          ∙ absent-view uuid_text now handles _ (handles i) (s name) (fresh i) in
        (
          handed uuid_text now handles (scanned name n s) (s name).msgs,
          out.0,
          All-handed uuid_text now handles _ (λ i. Unit {0}) (scanned name n s) (s name).msgs
              (λ i m u found ready. (
                uuid_text (handles i),
                refl,
                ap (λ (o : Option MessageId). ack_id parse_uuid name o t) (parse-text (handles i))
                    ∙ ap (λ (o : Option QueueMessage). ack_message name (handles i) o t) (absent i),
              ))
              (all-true (scanned name n s)),
        )
