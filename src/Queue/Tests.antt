-- ===== src/Queue/Tests.antt =====
-- Runs of the queue of nova-queue/src/backend.rs on one queue with two messages.
use nova_runtime.Base.{
  ◌+◌, ◌≡◌, ◌≢◌, refl, List, [], ◌∷◌, Option, none, some, Text, nat_eq, arith, list_eq, All, ok,
  err, count_if,
}
use nova_runtime.Base.Assoc.{get}
use nova_runtime.Queue.{
  QueueMessage, new_message, new_config, Store, no_data, message_not_found, IndividualQueueConfig,
}
use nova_runtime.Queue.IdMap.{MessageId, put, ids}
use nova_runtime.Queue.Backend.{
  create_queue, enqueue, dequeue, dequeue_loop, get_queue, add_message, ack,
}
use nova_runtime.Queue.Sweeps.{release_expired_messages, release_loop}
use nova_runtime.Queue.History.{
  IsTidy, IsReachable, nothing_yet, after, created, enqueued, dequeued, IsReachable-IsTidy,
}
use nova_runtime.Queue.Delivery.{remainder}
use nova_runtime.Queue.Repeats.{dequeue-apart}
use nova_runtime.Queue.Sweeping.{
  is_back, place, returned, holds, release_expired_messages-returned, ack-handed,
}

-- A UUID of these runs is below 256, and its text is one character.
abbrev uuid_text : MessageId → Text
uuid_text i = i ∷ []

abbrev parse_uuid : Text → Option MessageId
parse_uuid (i ∷ []) = some i
parse_uuid _ = none

abbrev name : Text
name = 113 ∷ []

abbrev config : IndividualQueueConfig
config = new_config 0 name

abbrev nothing : Store
nothing n = no_data

abbrev opened : Store
opened = (create_queue config nothing).1

abbrev one : Store
one = (enqueue 5 (new_message 2 5 name (65 ∷ [])) opened).1

abbrev two : Store
two = (enqueue 6 (new_message 1 6 name (66 ∷ [])) one).1

two-IsReachable : IsReachable uuid_text parse_uuid two
unfolding create_queue enqueue add_message get_queue get
two-IsReachable =
    after one two
      (after opened one (after nothing opened (nothing_yet nothing refl) (created config refl))
        (enqueued 5 (new_message 2 5 name (65 ∷ [])) refl refl))
      (enqueued 6 (new_message 1 6 name (66 ∷ [])) refl refl)

abbrev handles : MessageId → MessageId
handles i = i + 100

-- The message with the lower identifier comes first, also if it came later.
first_out :
    (dequeue uuid_text 10 handles name 1 two).0
    ≡ ok (
        record (new_message 1 6 name (66 ∷ [])) {
          attempt_count = 1;
          receipt_handle = some (101 ∷ []);
          visible_at = 30010;
        }
        ∷ [])
unfolding dequeue dequeue_loop create_queue enqueue add_message get_queue get put
first_out = refl

IsReachable-IsTidy_example : IsTidy two
IsReachable-IsTidy_example = IsReachable-IsTidy uuid_text parse_uuid two two-IsReachable

dequeue-apart_example :
    let once = dequeue uuid_text 10 handles name 1 two in
    let twice = dequeue uuid_text 20 handles name 5 once.1 in
    (xs ys : List QueueMessage) × (once.0 ≡ ok xs)
    × (twice.0 ≡ ok ys)
    × All (λ x. All (λ y. y.id ≢ x.id) ys) xs
unfolding dequeue dequeue_loop create_queue enqueue add_message get_queue get put
dequeue-apart_example =
    dequeue-apart uuid_text parse_uuid two two-IsReachable name config config 10 20 handles handles
      1 5 refl refl refl refl

abbrev taken : Store
taken = (dequeue uuid_text 10 handles name 2 two).1

taken-IsReachable : IsReachable uuid_text parse_uuid taken
taken-IsReachable = after two taken two-IsReachable (dequeued 10 handles name 2 refl)

-- Both come back when their 30 seconds are over.
both_back : (release_expired_messages name 30010 taken).0 ≡ 2
unfolding release_expired_messages release_loop dequeue dequeue_loop create_queue enqueue
    add_message get_queue get put
both_back = refl

release_expired_messages-returned_example :
    let out = release_expired_messages name 30010 taken in
    (out.0 ≡ count_if (λ i. is_back 30010 (get i (taken name).msgs)) (ids (taken name).inflight))
    × ((j : MessageId)
        → place j (out.1 name)
          ≡ returned
              (holds (get j (taken name).inflight))
              (is_back 30010 (get j (taken name).msgs))
              (place j (taken name)))
    × (remainder (out.1 name) ≡ remainder (taken name))
    × ((other : Text) → name ≢ other → out.1 other ≡ taken other)
release_expired_messages-returned_example =
    release_expired_messages-returned uuid_text parse_uuid taken name 30010 taken-IsReachable

unused : (i : MessageId) → get (handles i) (two name).msgs ≡ none
unfolding create_queue enqueue add_message get_queue get put
unused i = ground arith

ack-handed_example :
    let t = (dequeue uuid_text 10 handles name 2 two).1 in
    (xs : List QueueMessage) × ((dequeue uuid_text 10 handles name 2 two).0 ≡ ok xs)
    × All
        (λ x.
          (handle : Text) × (x.receipt_handle ≡ some handle)
          × (ack parse_uuid name handle t ≡ (err message_not_found, t)))
        xs
unfolding create_queue enqueue add_message get_queue get
ack-handed_example =
    ack-handed uuid_text parse_uuid (λ i. refl) two name config 10 2 handles two-IsReachable refl
      refl unused
