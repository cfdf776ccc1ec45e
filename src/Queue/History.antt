-- ===== src/Queue/History.antt =====
-- The states that the calls of nova-queue/src/backend.rs can reach from an empty store.
use nova_runtime.Base.{
  ℕ, ◌≡◌, refl, Bool, true, false, List, [], ◌∷◌, Option, none, some, Text, if-both, ◌==◌, nat_eq,
  list_eq, Result, err, ok,
}
use nova_runtime.Base.Assoc.{get}
use nova_runtime.Queue.{
  QueueMessage, QueueData, QueueError, IndividualQueueConfig, Store, no_data, write,
}
use nova_runtime.Queue.IdMap.{MessageId, put, put-IsSorted}
use nova_runtime.Queue.Backend.{
  create_queue, create_in, delete_queue, delete_in, update_queue, update_in, set_paused, pause,
  resume, purge, enqueue, enqueue_in, dequeue, dequeue_in, ack, ack_id, ack_message, nack, nack_id,
  nack_message, get_queue,
}
use nova_runtime.Queue.Sweeps.{
  release_expired_messages, move_to_dlq, move_from, move_loop, move_dead, copied, dlq_of,
  is_exhausted, purge_expired_messages,
}
use nova_runtime.Queue.Invariant.{
  IsWellFormed, put-IsNamed, no_data-IsWellFormed, purged-IsWellFormed, add_message-IsWellFormed,
  acked-IsWellFormed, returned-IsWellFormed, release_loop-IsWellFormed, expire_loop-IsWellFormed,
  dequeue_loop-IsWellFormed,
}

abbrev pub IsTidy : Store → Type 0
IsTidy s = (name : Text) → IsWellFormed (s name)

write-IsTidy :
    (name : Text) (q : QueueData) (s : Store) → IsWellFormed q → IsTidy s → IsTidy (write name q s)
write-IsTidy name q s w t = λ other. if-both IsWellFormed (name == other) q (s other) w (t other)

-- The settings do not matter.
config-IsWellFormed :
    (o : Option IndividualQueueConfig) (q : QueueData)
    → IsWellFormed q
    → IsWellFormed (record q { config = o })
config-IsWellFormed o q w = record {
  msgs_sorted = w.msgs_sorted;
  available_sorted = w.available_sorted;
  inflight_sorted = w.inflight_sorted;
  named = w.named;
  apart = w.apart;
}

create-IsTidy :
    (o : Option IndividualQueueConfig) (c : IndividualQueueConfig) (s : Store)
    → IsTidy s
    → IsTidy (create_in o c s).1
create-IsTidy none c s t = write-IsTidy c.name _ s (config-IsWellFormed (some c) _ (t c.name)) t
create-IsTidy (some old) c s t = t

delete-IsTidy :
    (o : Option IndividualQueueConfig) (name : Text) (s : Store)
    → IsTidy s
    → IsTidy (delete_in o name s).1
delete-IsTidy none name s t = t
delete-IsTidy (some old) name s t =
    write-IsTidy name _ s (config-IsWellFormed none _ (purged-IsWellFormed (s name))) t

update-IsTidy :
    (o : Option IndividualQueueConfig) (c : IndividualQueueConfig) (s : Store)
    → IsTidy s
    → IsTidy (update_in o c s).1
update-IsTidy none c s t = t
update-IsTidy (some old) c s t =
    write-IsTidy c.name _ s (config-IsWellFormed (some c) _ (t c.name)) t

set_paused-IsTidy :
    (paused : Bool) (now : ℕ) (r : Result QueueError IndividualQueueConfig) (s : Store)
    → IsTidy s
    → IsTidy (set_paused paused now r s).1
unfolding update_queue
set_paused-IsTidy paused now (err e) s t = t
set_paused-IsTidy paused now (ok c) s t = update-IsTidy (s c.name).config _ s t

enqueue-IsTidy :
    (now : ℕ) (m : QueueMessage) (r : Result QueueError IndividualQueueConfig) (s : Store)
    → get m.id (s m.queue_name).inflight ≡ none
    → IsTidy s
    → IsTidy (enqueue_in now m r s).1
enqueue-IsTidy now m (err e) s f t = t
enqueue-IsTidy now m (ok c) s f t =
    if-both (λ (out : Result QueueError (Unit {0}) × Store). IsTidy out.1) c.paused _ _ t
      (write-IsTidy m.queue_name _ s
        (add_message-IsWellFormed now m (s m.queue_name) f (t m.queue_name)) t)

dequeue-IsTidy :
    (uuid_text : MessageId → Text) (now : ℕ) (handles : MessageId → MessageId) (name : Text) (n : ℕ)
    (r : Result QueueError IndividualQueueConfig) (s : Store)
    → IsTidy s
    → IsTidy (dequeue_in uuid_text now handles name n r s).1
dequeue-IsTidy uuid_text now handles name n (err e) s t = t
dequeue-IsTidy uuid_text now handles name n (ok c) s t =
    if-both (λ (out : Result QueueError (List QueueMessage) × Store). IsTidy out.1) c.paused _ _ t
      (write-IsTidy name _ s (dequeue_loop-IsWellFormed uuid_text now handles _ (s name) (t name))
        t)

ack-IsTidy :
    (name : Text) (i : MessageId) (o : Option QueueMessage) (s : Store)
    → IsTidy s
    → IsTidy (ack_message name i o s).1
ack-IsTidy name i none s t = t
ack-IsTidy name i (some m) s t = write-IsTidy name _ s (acked-IsWellFormed i (s name) (t name)) t

nack-IsTidy :
    (now : ℕ) (name : Text) (i : MessageId) (o : Option QueueMessage) (s : Store)
    → get i (s name).msgs ≡ o
    → IsTidy s
    → IsTidy (nack_message now name i o s).1
nack-IsTidy now name i none s e t = t
nack-IsTidy now name i (some m) s e t =
    write-IsTidy name _ s (returned-IsWellFormed i _ (s name) ((t name).named i m e) (t name)) t

dead-IsWellFormed :
    (i : MessageId) (m : QueueMessage) (q : QueueData)
    → m.id ≡ i
    → IsWellFormed q
    → IsWellFormed (record q { msgs = put i m q.msgs; dlq = put i tt q.dlq })
dead-IsWellFormed i m q e w = record {
  msgs_sorted = put-IsSorted i m q.msgs w.msgs_sorted;
  available_sorted = w.available_sorted;
  inflight_sorted = w.inflight_sorted;
  named = put-IsNamed i m q.msgs e w.named;
  apart = w.apart;
}

copied-IsTidy :
    (name dlq_name : Text) (now : ℕ) (i : MessageId) (m : QueueMessage) (s : Store)
    → get i (s name).msgs ≡ some m
    → IsTidy s
    → IsTidy (copied dlq_name now i m s)
copied-IsTidy name dlq_name now i m s e t =
    write-IsTidy dlq_name _ s
      (dead-IsWellFormed i _ (s dlq_name) ((t name).named i m e) (t dlq_name)) t

move_dead-IsTidy :
    (name dlq_name : Text) (now : ℕ) (i : MessageId) (o : Option QueueMessage) (s : Store)
    → get i (s name).msgs ≡ o
    → IsTidy s
    → IsTidy (move_dead name dlq_name now i o s).0
move_dead-IsTidy name dlq_name now i none s e t = t
move_dead-IsTidy name dlq_name now i (some m) s e t =
    let c = copied-IsTidy name dlq_name now i m s e t in
    if-both (λ (out : Store × ℕ). IsTidy out.0) (is_exhausted now m) _ _
      (write-IsTidy name _ _ (acked-IsWellFormed i _ (c name)) c) t

move_loop-IsTidy :
    (name dlq_name : Text) (now : ℕ) (is : List MessageId) (s : Store)
    → IsTidy s
    → IsTidy (move_loop name dlq_name now is s).0
unfolding move_loop
move_loop-IsTidy name dlq_name now [] s t = t
move_loop-IsTidy name dlq_name now (i ∷ is) s t =
    move_loop-IsTidy name dlq_name now is _
      (move_dead-IsTidy name dlq_name now i (get i (s name).msgs) s refl t)

move_from-IsTidy :
    (name : Text) (now : ℕ) (r : Result QueueError (Option Text)) (s : Store)
    → IsTidy s
    → IsTidy (move_from name now r s).1
move_from-IsTidy name now (err e) s t = t
move_from-IsTidy name now (ok none) s t = t
move_from-IsTidy name now (ok (some dlq_name)) s t = move_loop-IsTidy name dlq_name now _ s t

module _ (uuid_text : MessageId → Text) (parse_uuid : Text → Option MessageId) where
  ack_id-IsTidy :
      (name : Text) (o : Option MessageId) (s : Store)
      → IsTidy s
      → IsTidy (ack_id parse_uuid name o s).1
  ack_id-IsTidy name none s t = t
  ack_id-IsTidy name (some i) s t = ack-IsTidy name i (get i (s name).msgs) s t

  nack_id-IsTidy :
      (now : ℕ) (name : Text) (o : Option MessageId) (s : Store)
      → IsTidy s
      → IsTidy (nack_id parse_uuid now name o s).1
  nack_id-IsTidy now name none s t = t
  nack_id-IsTidy now name (some i) s t = nack-IsTidy now name i (get i (s name).msgs) s refl t

  -- One call. A message that is enqueued must not have the identifier of one in flight.
  pub data IsStep (s t : Store) : Type 0 where
    created : (c : IndividualQueueConfig) → t ≡ (create_queue c s).1 → IsStep s t
    deleted : (name : Text) → t ≡ (delete_queue name s).1 → IsStep s t
    updated : (c : IndividualQueueConfig) → t ≡ (update_queue c s).1 → IsStep s t
    paused : (name : Text) (now : ℕ) → t ≡ (pause name now s).1 → IsStep s t
    resumed : (name : Text) (now : ℕ) → t ≡ (resume name now s).1 → IsStep s t
    purged_all : (name : Text) → t ≡ (purge name s).1 → IsStep s t
    enqueued :
        (now : ℕ) (m : QueueMessage)
        → get m.id (s m.queue_name).inflight ≡ none
        → t ≡ (enqueue now m s).1
        → IsStep s t
    dequeued :
        (now : ℕ) (handles : MessageId → MessageId) (name : Text) (n : ℕ)
        → t ≡ (dequeue uuid_text now handles name n s).1
        → IsStep s t
    acked : (name handle : Text) → t ≡ (ack parse_uuid name handle s).1 → IsStep s t
    nacked : (now : ℕ) (name handle : Text) → t ≡ (nack parse_uuid now name handle s).1 → IsStep s t
    released : (name : Text) (now : ℕ) → t ≡ (release_expired_messages name now s).1 → IsStep s t
    moved_dead : (name : Text) (now : ℕ) → t ≡ (move_to_dlq name now s).1 → IsStep s t
    expired : (name : Text) (now : ℕ) → t ≡ (purge_expired_messages name now s).1 → IsStep s t

  pub data IsReachable : Store → Type 0 where
    nothing_yet : (t : Store) → t ≡ (λ name. no_data) → IsReachable t
    after : (s t : Store) → IsReachable s → IsStep s t → IsReachable t

  IsStep-IsTidy : (s t : Store) → IsStep s t → IsTidy s → IsTidy t
  unfolding create_queue delete_queue update_queue pause resume purge enqueue dequeue ack nack
      release_expired_messages move_to_dlq purge_expired_messages
  IsStep-IsTidy s t (created c e) p = rw e (create-IsTidy (s c.name).config c s p)
  IsStep-IsTidy s t (deleted name e) p = rw e (delete-IsTidy (s name).config name s p)
  IsStep-IsTidy s t (updated c e) p = rw e (update-IsTidy (s c.name).config c s p)
  IsStep-IsTidy s t (paused name now e) p = rw e (set_paused-IsTidy true now (get_queue name s) s p)
  IsStep-IsTidy s t (resumed name now e) p =
      rw e (set_paused-IsTidy false now (get_queue name s) s p)
  IsStep-IsTidy s t (purged_all name e) p =
      rw e (write-IsTidy name _ s (purged-IsWellFormed (s name)) p)
  IsStep-IsTidy s t (enqueued now m f e) p =
      rw e (enqueue-IsTidy now m (get_queue m.queue_name s) s f p)
  IsStep-IsTidy s t (dequeued now handles name n e) p =
      rw e (dequeue-IsTidy uuid_text now handles name n (get_queue name s) s p)
  IsStep-IsTidy s t (acked name handle e) p = rw e (ack_id-IsTidy name (parse_uuid handle) s p)
  IsStep-IsTidy s t (nacked now name handle e) p =
      rw e (nack_id-IsTidy now name (parse_uuid handle) s p)
  IsStep-IsTidy s t (released name now e) p =
      rw e (write-IsTidy name _ s (release_loop-IsWellFormed now _ (s name) (p name)) p)
  IsStep-IsTidy s t (moved_dead name now e) p =
      rw e (move_from-IsTidy name now (dlq_of (get_queue name s)) s p)
  IsStep-IsTidy s t (expired name now e) p =
      rw e (write-IsTidy name _ s (expire_loop-IsWellFormed now _ (s name) (p name)) p)

  -- After any calls on an empty store, where no message is enqueued under the identifier of one in
  -- flight in its queue, in every queue the messages, the available and the in-flight entries are
  -- in the order of their identifiers, each message stands under its own identifier, and none in
  -- flight is available.
  pub IsReachable-IsTidy : (s : Store) → IsReachable s → IsTidy s
  IsReachable-IsTidy s (nothing_yet t e) = rw e (λ name. no_data-IsWellFormed)
  IsReachable-IsTidy s (after r t h step) = IsStep-IsTidy r s step (IsReachable-IsTidy r h)
