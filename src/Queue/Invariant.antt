-- ===== src/Queue/Invariant.antt =====
-- The state of one queue of nova-queue/src/backend.rs stays in order under every call.
use nova_runtime.Base.{
  ℕ, ◌≡◌, ◌≢◌, refl, not, ◌&&◌, List, [], ◌∷◌, Option, none, some, Text, if-both, nat_eq, arith,
}
use nova_runtime.Base.Assoc.{Assoc, get, remove, get-remove}
use nova_runtime.Queue.{
  QueueMessage, QueueData, no_data, Index, is_visible, has_expired, mark_received,
}
use nova_runtime.Queue.IdMap.{MessageId, put, get-put, IsSorted, put-IsSorted, remove-IsSorted}
use nova_runtime.Queue.Backend.{add_message, is_after, deliver, dequeue_loop, purged}
use nova_runtime.Queue.Sweeps.{release, is_released, release_loop, expire, expire_loop}

-- Each message stands under its own identifier.
abbrev pub IsNamed : Assoc MessageId QueueMessage → Type 0
IsNamed msgs = (i : MessageId) (m : QueueMessage) → get i msgs ≡ some m → m.id ≡ i

-- What is in flight is not available.
abbrev pub IsApart : Index → Index → Type 0
IsApart available inflight = (i : MessageId) → get i inflight ≢ none → get i available ≡ none

pub record IsWellFormed (q : QueueData) : Type 0 where
  pub msgs_sorted : IsSorted q.msgs
  pub available_sorted : IsSorted q.available
  pub inflight_sorted : IsSorted q.inflight
  pub named : IsNamed q.msgs
  pub apart : IsApart q.available q.inflight

some_inj : {a b : QueueMessage} → ◌≡◌ {A = Option QueueMessage} (some a) (some b) → a ≡ b
some_inj e = cc

pub put-IsNamed :
    (i : MessageId) (m : QueueMessage) (msgs : Assoc MessageId QueueMessage)
    → m.id ≡ i
    → IsNamed msgs
    → IsNamed (put i m msgs)
put-IsNamed i m msgs e n = λ j k h. ground (arith, get-put i j m msgs, n j k, h, e)

remove-IsNamed :
    (i : MessageId) (msgs : Assoc MessageId QueueMessage) → IsNamed msgs → IsNamed (remove i msgs)
remove-IsNamed i msgs n = λ j k h. ground (arith, get-remove i j msgs, n j k, h)

-- A message goes into flight.
move-IsApart : (i : MessageId) (a f : Index) → IsApart a f → IsApart (remove i a) (put i tt f)
move-IsApart i a f p = λ j h. ground (arith, get-remove i j a, get-put i j tt f, p j, h)

-- A message comes back from flight.
return-IsApart : (i : MessageId) (a f : Index) → IsApart a f → IsApart (put i tt a) (remove i f)
return-IsApart i a f p = λ j h. ground (arith, get-remove i j f, get-put i j tt a, p j, h)

new-IsApart : (i : MessageId) (a f : Index) → get i f ≡ none → IsApart a f → IsApart (put i tt a) f
new-IsApart i a f e p = λ j h. ground (arith, get-put i j tt a, p j, h, e)

landed-IsApart : (i : MessageId) (a f : Index) → IsApart a f → IsApart a (remove i f)
landed-IsApart i a f p = λ j h. ground (arith, get-remove i j f, p j, h)

gone-IsApart : (i k : MessageId) (a f : Index) → IsApart a f → IsApart (remove i a) (remove k f)
gone-IsApart i k a f p = λ j h. ground (arith, get-remove i j a, get-remove k j f, p j, h)

pub no_data-IsWellFormed : IsWellFormed no_data
unfolding get
no_data-IsWellFormed = record {
  msgs_sorted = tt;
  available_sorted = tt;
  inflight_sorted = tt;
  named = λ i m h. cc;
  apart = λ i h. refl;
}

pub purged-IsWellFormed : (q : QueueData) → IsWellFormed (purged q)
unfolding get
purged-IsWellFormed q = record {
  msgs_sorted = tt;
  available_sorted = tt;
  inflight_sorted = tt;
  named = λ i m h. cc;
  apart = λ i h. refl;
}

pub add_message-IsWellFormed :
    (now : ℕ) (m : QueueMessage) (q : QueueData)
    → get m.id q.inflight ≡ none
    → IsWellFormed q
    → IsWellFormed (add_message now m q)
unfolding add_message
add_message-IsWellFormed now m q e w =
    if-both IsWellFormed (is_after m.delay_until now) _ _
      (record {
        msgs_sorted = put-IsSorted m.id m q.msgs w.msgs_sorted;
        available_sorted = w.available_sorted;
        inflight_sorted = w.inflight_sorted;
        named = put-IsNamed m.id m q.msgs refl w.named;
        apart = w.apart;
      })
      (record {
        msgs_sorted = put-IsSorted m.id m q.msgs w.msgs_sorted;
        available_sorted = put-IsSorted m.id tt q.available w.available_sorted;
        inflight_sorted = w.inflight_sorted;
        named = put-IsNamed m.id m q.msgs refl w.named;
        apart = new-IsApart m.id q.available q.inflight e w.apart;
      })

pub acked-IsWellFormed :
    (i : MessageId) (q : QueueData)
    → IsWellFormed q
    → IsWellFormed (record q { msgs = remove i q.msgs; inflight = remove i q.inflight })
acked-IsWellFormed i q w = record {
  msgs_sorted = remove-IsSorted i q.msgs w.msgs_sorted;
  available_sorted = w.available_sorted;
  inflight_sorted = remove-IsSorted i q.inflight w.inflight_sorted;
  named = remove-IsNamed i q.msgs w.named;
  apart = landed-IsApart i q.available q.inflight w.apart;
}

pub returned-IsWellFormed :
    (i : MessageId) (m : QueueMessage) (q : QueueData)
    → m.id ≡ i
    → IsWellFormed q
    → IsWellFormed (record q {
      msgs = put i m q.msgs;
      inflight = remove i q.inflight;
      available = put i tt q.available;
    })
returned-IsWellFormed i m q e w = record {
  msgs_sorted = put-IsSorted i m q.msgs w.msgs_sorted;
  available_sorted = put-IsSorted i tt q.available w.available_sorted;
  inflight_sorted = remove-IsSorted i q.inflight w.inflight_sorted;
  named = put-IsNamed i m q.msgs e w.named;
  apart = return-IsApart i q.available q.inflight w.apart;
}

release-IsWellFormed :
    (now : ℕ) (i : MessageId) (o : Option QueueMessage) (q : QueueData)
    → IsWellFormed q
    → IsWellFormed (release now i o q).0
release-IsWellFormed now i none q w = w
release-IsWellFormed now i (some m) q w =
    if-both (λ (out : QueueData × ℕ). IsWellFormed out.0) (is_released now m) _ _
      (record {
        msgs_sorted = w.msgs_sorted;
        available_sorted = put-IsSorted i tt q.available w.available_sorted;
        inflight_sorted = remove-IsSorted i q.inflight w.inflight_sorted;
        named = w.named;
        apart = return-IsApart i q.available q.inflight w.apart;
      })
      w

pub release_loop-IsWellFormed :
    (now : ℕ) (is : List MessageId) (q : QueueData)
    → IsWellFormed q
    → IsWellFormed (release_loop now is q).0
unfolding release_loop
release_loop-IsWellFormed now [] q w = w
release_loop-IsWellFormed now (i ∷ is) q w =
    release_loop-IsWellFormed now is _ (release-IsWellFormed now i (get i q.msgs) q w)

expire-IsWellFormed :
    (now : ℕ) (entry : MessageId × QueueMessage) (q : QueueData)
    → IsWellFormed q
    → IsWellFormed (expire now entry q).0
expire-IsWellFormed now entry q w =
    if-both (λ (out : QueueData × ℕ). IsWellFormed out.0) (has_expired entry.1 now) _ _
      (record {
        msgs_sorted = remove-IsSorted entry.0 q.msgs w.msgs_sorted;
        available_sorted = remove-IsSorted entry.1.id q.available w.available_sorted;
        inflight_sorted = remove-IsSorted entry.1.id q.inflight w.inflight_sorted;
        named = remove-IsNamed entry.0 q.msgs w.named;
        apart = gone-IsApart entry.1.id entry.1.id q.available q.inflight w.apart;
      })
      w

pub expire_loop-IsWellFormed :
    (now : ℕ) (entries : Assoc MessageId QueueMessage) (q : QueueData)
    → IsWellFormed q
    → IsWellFormed (expire_loop now entries q).0
unfolding expire_loop
expire_loop-IsWellFormed now [] q w = w
expire_loop-IsWellFormed now (entry ∷ entries) q w =
    expire_loop-IsWellFormed now entries _ (expire-IsWellFormed now entry q w)

module _ (uuid_text : MessageId → Text) where
  deliver-IsWellFormed :
      (now : ℕ) (handle i : MessageId) (o : Option QueueMessage) (q : QueueData)
      → get i q.msgs ≡ o
      → IsWellFormed q
      → IsWellFormed (deliver uuid_text now handle i o q).1
  deliver-IsWellFormed now handle i none q e w = w
  deliver-IsWellFormed now handle i (some m) q e w =
      if-both (λ (out : List QueueMessage × QueueData). IsWellFormed out.1)
        (is_visible m now && not (has_expired m now)) _ _
        (record {
          msgs_sorted = put-IsSorted i _ q.msgs w.msgs_sorted;
          available_sorted = remove-IsSorted i q.available w.available_sorted;
          inflight_sorted = put-IsSorted i tt q.inflight w.inflight_sorted;
          named =
              put-IsNamed i (mark_received (uuid_text handle) now m) q.msgs (w.named i m e) w.named;
          apart = move-IsApart i q.available q.inflight w.apart;
        })
        w

  pub dequeue_loop-IsWellFormed :
      (now : ℕ) (handles : MessageId → MessageId) (is : List MessageId) (q : QueueData)
      → IsWellFormed q
      → IsWellFormed (dequeue_loop uuid_text now handles is q).1
  unfolding dequeue_loop
  dequeue_loop-IsWellFormed now handles [] q w = w
  dequeue_loop-IsWellFormed now handles (i ∷ is) q w =
      dequeue_loop-IsWellFormed now handles is _
        (deliver-IsWellFormed now (handles i) i (get i q.msgs) q refl w)
