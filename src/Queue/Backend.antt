-- ===== src/Queue/Backend.antt =====
-- `StorageQueueBackend` of nova-queue/src/backend.rs. Its clocks and the random UUIDs of the handles are
-- arguments; how the crate `uuid` writes and reads a UUID is a parameter.
use nova_runtime.Base.{
  ℕ, Bool, true, false, not, ◌&&◌, List, [], ◌∷◌, Option, none, some, Text, ltb, length, take,
  if◌then◌else◌, Result, err, ok, ok_or, map, ◌++◌, nat_eq,
}
use nova_runtime.Base.Assoc.{get, remove}
use nova_runtime.Queue.{
  QueueMessage, IndividualQueueConfig, QueueStats, QueueError, not_found, already_exists,
  message_not_found, invalid_receipt_handle, queue_paused, QueueData, Store, write, is_visible,
  has_expired, mark_received,
}
use nova_runtime.Queue.IdMap.{MessageId, put, ids}

abbrev Reply : Type 0 → Type 0
Reply A = Result QueueError A × Store

unfoldable pub get_queue : Text → Store → Result QueueError IndividualQueueConfig
get_queue name s = ok_or (s name).config not_found

abbrev pub create_in :
    Option IndividualQueueConfig → IndividualQueueConfig → Store → Reply (Unit {0})
create_in (some old) config s = (err already_exists, s)
create_in none config s =
    (ok tt, write config.name (record (s config.name) { config = some config }) s)

unfoldable pub create_queue : IndividualQueueConfig → Store → Reply (Unit {0})
create_queue config s = create_in (s config.name).config config s

-- Every message and every index entry of a queue.
abbrev pub purged : QueueData → QueueData
purged q = record q { msgs = []; available = []; inflight = []; delayed = []; dlq = [] }

unfoldable pub purge : Text → Store → Reply (Unit {0})
purge name s = (ok tt, write name (purged (s name)) s)

abbrev pub delete_in : Option IndividualQueueConfig → Text → Store → Reply (Unit {0})
delete_in none name s = (err not_found, s)
delete_in (some old) name s = (ok tt, write name (record (purged (s name)) { config = none }) s)

unfoldable pub delete_queue : Text → Store → Reply (Unit {0})
delete_queue name s = delete_in (s name).config name s

abbrev pub update_in :
    Option IndividualQueueConfig → IndividualQueueConfig → Store → Reply (Unit {0})
update_in none config s = (err not_found, s)
update_in (some old) config s =
    (ok tt, write config.name (record (s config.name) { config = some config }) s)

unfoldable pub update_queue : IndividualQueueConfig → Store → Reply (Unit {0})
update_queue config s = update_in (s config.name).config config s

abbrev pub set_paused :
    Bool → ℕ → Result QueueError IndividualQueueConfig → Store → Reply (Unit {0})
set_paused paused now (err e) s = (err e, s)
set_paused paused now (ok config) s =
    update_queue (record config { paused = paused; updated_at = now }) s

unfoldable pub pause : Text → ℕ → Store → Reply (Unit {0})
pause name now s = set_paused true now (get_queue name s) s

unfoldable pub resume : Text → ℕ → Store → Reply (Unit {0})
resume name now s = set_paused false now (get_queue name s) s

abbrev pub is_after : Option ℕ → ℕ → Bool
is_after none now_ms = false
is_after (some delay_until) now_ms = ltb now_ms delay_until

unfoldable pub add_message : ℕ → QueueMessage → QueueData → QueueData
add_message now_ms m q =
    let stored = record q { msgs = put m.id m q.msgs } in
    if is_after m.delay_until now_ms
    then record stored { delayed = put m.id tt q.delayed }
    else record stored { available = put m.id tt q.available }

abbrev pub enqueue_in :
    ℕ → QueueMessage → Result QueueError IndividualQueueConfig → Store → Reply (Unit {0})
enqueue_in now_ms m (err e) s = (err e, s)
enqueue_in now_ms m (ok config) s =
    if config.paused
    then (err queue_paused, s)
    else (ok tt, write m.queue_name (add_message now_ms m (s m.queue_name)) s)

unfoldable pub enqueue : ℕ → QueueMessage → Store → Reply (Unit {0})
enqueue now_ms m s = enqueue_in now_ms m (get_queue m.queue_name s) s

unfoldable pub enqueue_batch :
    ℕ → List QueueMessage → Store → List (Result QueueError (Unit {0})) × Store
enqueue_batch now_ms [] s = ([], s)
enqueue_batch now_ms (m ∷ ms) s =
    let one = enqueue now_ms m s in
    let rest = enqueue_batch now_ms ms one.1 in (one.0 ∷ rest.0, rest.1)

module _ (uuid_text : MessageId → Text) where
  -- The body of the loop, for the message that an entry of the index names.
  abbrev pub deliver :
      ℕ → MessageId → MessageId → Option QueueMessage → QueueData → List QueueMessage × QueueData
  deliver now_ms handle i none q = ([], q)
  deliver now_ms handle i (some m) q =
      let received = mark_received (uuid_text handle) now_ms m in
      if is_visible m now_ms && not (has_expired m now_ms)
      then (
        received ∷ [],
        record q {
          msgs = put i received q.msgs;
          available = remove i q.available;
          inflight = put i tt q.inflight;
        },
      )
      else ([], q)

  unfoldable pub dequeue_loop :
      ℕ → (MessageId → MessageId) → List MessageId → QueueData → List QueueMessage × QueueData
  dequeue_loop now_ms handles [] q = ([], q)
  dequeue_loop now_ms handles (i ∷ rest) q =
      let one = deliver now_ms (handles i) i (get i q.msgs) q in
      let more = dequeue_loop now_ms handles rest one.1 in (one.0 ++ more.0, more.1)

  abbrev pub dequeue_in :
      ℕ
      → (MessageId → MessageId)
      → Text
      → ℕ
      → Result QueueError IndividualQueueConfig
      → Store
      → Reply (List QueueMessage)
  dequeue_in now_ms handles name max_messages (err e) s = (err e, s)
  dequeue_in now_ms handles name max_messages (ok config) s =
      let out = dequeue_loop now_ms handles (take max_messages (ids (s name).available)) (s name) in
      if config.paused then (err queue_paused, s) else (ok out.0, write name out.1 s)

  -- `handles` gives the random UUID that a message gets in this call.
  unfoldable pub dequeue :
      ℕ → (MessageId → MessageId) → Text → ℕ → Store → Reply (List QueueMessage)
  dequeue now_ms handles name max_messages s =
      dequeue_in now_ms handles name max_messages (get_queue name s) s

abbrev pub ack_message : Text → MessageId → Option QueueMessage → Store → Reply (Unit {0})
ack_message name i none s = (err message_not_found, s)
ack_message name i (some m) s =
    let q = s name in
    (ok tt, write name (record q { msgs = remove i q.msgs; inflight = remove i q.inflight }) s)

abbrev pub nack_message : ℕ → Text → MessageId → Option QueueMessage → Store → Reply (Unit {0})
nack_message now_ms name i none s = (err message_not_found, s)
nack_message now_ms name i (some m) s =
    let q = s name in
    (
      ok tt,
      write name
          (record q {
            msgs = put i (record m { visible_at = now_ms; receipt_handle = none }) q.msgs;
            inflight = remove i q.inflight;
            available = put i tt q.available;
          })
          s,
    )

module _ (parse_uuid : Text → Option MessageId) where
  abbrev pub ack_id : Text → Option MessageId → Store → Reply (Unit {0})
  ack_id name none s = (err invalid_receipt_handle, s)
  ack_id name (some i) s = ack_message name i (get i (s name).msgs) s

  unfoldable pub ack : Text → Text → Store → Reply (Unit {0})
  ack name receipt_handle s = ack_id name (parse_uuid receipt_handle) s

  abbrev pub nack_id : ℕ → Text → Option MessageId → Store → Reply (Unit {0})
  nack_id now_ms name none s = (err invalid_receipt_handle, s)
  nack_id now_ms name (some i) s = nack_message now_ms name i (get i (s name).msgs) s

  unfoldable pub nack : ℕ → Text → Text → Store → Reply (Unit {0})
  nack now_ms name receipt_handle s = nack_id now_ms name (parse_uuid receipt_handle) s

unfoldable pub peek : Text → ℕ → Store → List QueueMessage
peek name max_messages s = take max_messages (map (λ entry. entry.1) (s name).msgs)

unfoldable pub stats : Text → Store → QueueStats
stats name s =
    let q = s name in
    record {
      available_messages = length q.available;
      in_flight_messages = length q.inflight;
      delayed_messages = length q.delayed;
      total_messages = length q.msgs;
      dlq_messages = length q.dlq;
    }
