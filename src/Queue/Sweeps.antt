-- ===== src/Queue/Sweeps.antt =====
-- The background calls of nova-queue/src/backend.rs: `release_expired_messages`, `move_to_dlq` and
-- `purge_expired_messages`. Each goes over a scan taken at its start.
use nova_runtime.Base.{
  ℕ, ◌+◌, Bool, not, ◌&&◌, List, [], ◌∷◌, Option, none, some, Text, leb, if◌then◌else◌, Result, err,
  ok, nat_eq, list_eq,
}
use nova_runtime.Base.Assoc.{Assoc, get, remove}
use nova_runtime.Queue.{
  QueueMessage, IndividualQueueConfig, QueueError, QueueData, Store, write, has_expired,
}
use nova_runtime.Queue.IdMap.{MessageId, put, ids}
use nova_runtime.Queue.Backend.{get_queue}

abbrev pub is_released : ℕ → QueueMessage → Bool
is_released now_ms m = leb m.visible_at now_ms && not (has_expired m now_ms)

abbrev pub release : ℕ → MessageId → Option QueueMessage → QueueData → QueueData × ℕ
release now_ms i none q = (q, 0)
release now_ms i (some m) q =
    if is_released now_ms m
    then (record q { inflight = remove i q.inflight; available = put i tt q.available }, 1)
    else (q, 0)

unfoldable pub release_loop : ℕ → List MessageId → QueueData → QueueData × ℕ
release_loop now_ms [] q = (q, 0)
release_loop now_ms (i ∷ rest) q =
    let one = release now_ms i (get i q.msgs) q in
    let more = release_loop now_ms rest one.0 in (more.0, one.1 + more.1)

unfoldable pub release_expired_messages : Text → ℕ → Store → ℕ × Store
release_expired_messages name now_ms s =
    let out = release_loop now_ms (ids (s name).inflight) (s name) in (out.1, write name out.0 s)

abbrev pub is_exhausted : ℕ → QueueMessage → Bool
is_exhausted now_ms m = leb m.max_receives m.attempt_count && leb m.visible_at now_ms

abbrev pub as_dead : Text → ℕ → QueueMessage → QueueMessage
as_dead dlq_name now_ms m = record m {
  queue_name = dlq_name;
  receipt_handle = none;
  attempt_count = 0;
  enqueued_at = now_ms;
  visible_at = now_ms;
}

-- The message is written to the other queue before it is deleted from its own.
abbrev pub copied : Text → ℕ → MessageId → QueueMessage → Store → Store
copied dlq_name now_ms i m s =
    let there = s dlq_name in
    write dlq_name
      (record there {
        msgs = put i (as_dead dlq_name now_ms m) there.msgs;
        dlq = put i tt there.dlq;
      })
      s

abbrev pub move_dead : Text → Text → ℕ → MessageId → Option QueueMessage → Store → Store × ℕ
move_dead name dlq_name now_ms i none s = (s, 0)
move_dead name dlq_name now_ms i (some m) s =
    let moved = copied dlq_name now_ms i m s in
    let here = moved name in
    if is_exhausted now_ms m
    then (
      write name (record here { msgs = remove i here.msgs; inflight = remove i here.inflight })
          moved,
      1,
    )
    else (s, 0)

unfoldable pub move_loop : Text → Text → ℕ → List MessageId → Store → Store × ℕ
move_loop name dlq_name now_ms [] s = (s, 0)
move_loop name dlq_name now_ms (i ∷ rest) s =
    let one = move_dead name dlq_name now_ms i (get i (s name).msgs) s in
    let more = move_loop name dlq_name now_ms rest one.0 in (more.0, one.1 + more.1)

abbrev pub move_from :
    Text → ℕ → Result QueueError (Option Text) → Store → Result QueueError ℕ × Store
move_from name now_ms (err e) s = (err e, s)
move_from name now_ms (ok none) s = (ok 0, s)
move_from name now_ms (ok (some dlq_name)) s =
    let out = move_loop name dlq_name now_ms (ids (s name).inflight) s in (ok out.1, out.0)

abbrev pub dlq_of : Result QueueError IndividualQueueConfig → Result QueueError (Option Text)
dlq_of (err e) = err e
dlq_of (ok config) = ok config.dlq_name

unfoldable pub move_to_dlq : Text → ℕ → Store → Result QueueError ℕ × Store
move_to_dlq name now_ms s = move_from name now_ms (dlq_of (get_queue name s)) s

-- The deletions of one expired message: its own key and those under its identifier.
abbrev pub expire : ℕ → MessageId × QueueMessage → QueueData → QueueData × ℕ
expire now_ms entry q =
    let id = entry.1.id in
    if has_expired entry.1 now_ms
    then (
      record q {
        msgs = remove entry.0 q.msgs;
        available = remove id q.available;
        inflight = remove id q.inflight;
        delayed = remove id q.delayed;
        dlq = remove id q.dlq;
      },
      1,
    )
    else (q, 0)

unfoldable pub expire_loop : ℕ → Assoc MessageId QueueMessage → QueueData → QueueData × ℕ
expire_loop now_ms [] q = (q, 0)
expire_loop now_ms (entry ∷ rest) q =
    let one = expire now_ms entry q in
    let more = expire_loop now_ms rest one.0 in (more.0, one.1 + more.1)

unfoldable pub purge_expired_messages : Text → ℕ → Store → ℕ × Store
purge_expired_messages name now_ms s =
    let out = expire_loop now_ms (s name).msgs (s name) in (out.1, write name out.0 s)
