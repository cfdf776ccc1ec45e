-- ===== src/Queue.antt =====
-- The queues of nova-queue: messages and settings (nova-queue/src/types.rs) and the state that the
-- backend (nova-queue/src/backend.rs) keeps in the storage engine. Times are milliseconds after 1970.
-- Values are stored as they are: JSON, which the source writes them in, gives back what it is given.
pub mod IdMap
pub mod Backend
pub mod Sweeps
pub mod Invariant
pub mod History
pub mod Delivery
pub mod Repeats
pub mod Sweeping
pub mod Tests
use nova_runtime.Base.{
  ℕ, ◌+◌, ◌*◌, ◌%◌, ◌^◌, Bool, true, false, List, [], Option, none, some, Text, leb, ltb, ◌&&◌,
  if◌then◌else◌, ◌==◌, list_eq, nat_eq,
}
use nova_runtime.Base.Assoc.{Assoc}
use nova_runtime.Queue.IdMap.{MessageId}

pub data MessagePriority : Type 0 where
  critical high normal low : MessagePriority

pub data QueueType : Type 0 where
  fifo priority_queue delayed_queue dead_letter : QueueType

pub record QueueMessage : Type 0 where
  pub id : MessageId
  pub queue_name : Text
  pub body : List ℕ
  pub priority : MessagePriority
  pub delay_until : Option ℕ
  pub enqueued_at : ℕ
  pub visible_at : ℕ
  pub visibility_timeout_secs : ℕ
  pub receipt_handle : Option Text
  pub attempt_count : ℕ
  pub max_receives : ℕ
  pub ttl_secs : Option ℕ
  pub expires_at : Option ℕ
  pub deduplication_id : Option Text
  pub group_id : Option Text
  pub attributes : Assoc Text Text

abbrev pub new_message : MessageId → ℕ → Text → List ℕ → QueueMessage
new_message id now queue_name body = record {
  id = id;
  queue_name = queue_name;
  body = body;
  priority = normal;
  delay_until = none;
  enqueued_at = now;
  visible_at = now;
  visibility_timeout_secs = 30;
  receipt_handle = none;
  attempt_count = 0;
  max_receives = 3;
  ttl_secs = some 86400;
  expires_at = some (now + 86400000);
  deduplication_id = none;
  group_id = none;
  attributes = [];
}

abbrev pub expired_by : Option ℕ → ℕ → Bool
expired_by none now_ms = false
expired_by (some expires_at) now_ms = leb expires_at now_ms

abbrev pub alive_at : Option ℕ → ℕ → Bool
alive_at none now_ms = true
alive_at (some expires_at) now_ms = ltb now_ms expires_at

abbrev pub is_visible : QueueMessage → ℕ → Bool
is_visible m now_ms = leb m.visible_at now_ms && alive_at m.expires_at now_ms

abbrev pub has_expired : QueueMessage → ℕ → Bool
has_expired m now_ms = expired_by m.expires_at now_ms

-- The handle is the text of a new random UUID.
abbrev pub mark_received : Text → ℕ → QueueMessage → QueueMessage
mark_received handle now_ms m = record m {
  attempt_count = (m.attempt_count + 1) % 2 ^ 32;
  receipt_handle = some handle;
  visible_at = now_ms + m.visibility_timeout_secs * 1000;
}

pub record ConsumerGroup : Type 0 where
  pub name : Text
  pub queue_name : Text
  pub max_concurrent : ℕ
  pub created_at : ℕ

pub record IndividualQueueConfig : Type 0 where
  pub name : Text
  pub queue_type : QueueType
  pub max_size : ℕ
  pub max_message_size : ℕ
  pub default_visibility_timeout_secs : ℕ
  pub message_ttl_secs : ℕ
  pub delivery_delay_secs : ℕ
  pub receive_message_wait_secs : ℕ
  pub max_receive_count : ℕ
  pub dlq_name : Option Text
  pub dlq_max_entries : ℕ
  pub dlq_max_retries : ℕ
  pub created_at : ℕ
  pub updated_at : ℕ
  pub paused : Bool
  pub consumer_groups : List ConsumerGroup

abbrev pub new_config : ℕ → Text → IndividualQueueConfig
new_config now name = record {
  name = name;
  queue_type = fifo;
  max_size = 10000;
  max_message_size = 262144;
  default_visibility_timeout_secs = 30;
  message_ttl_secs = 86400;
  delivery_delay_secs = 0;
  receive_message_wait_secs = 0;
  max_receive_count = 3;
  dlq_name = none;
  dlq_max_entries = 100000;
  dlq_max_retries = 3;
  created_at = now;
  updated_at = now;
  paused = false;
  consumer_groups = [];
}

pub record QueueStats : Type 0 where
  pub available_messages : ℕ
  pub in_flight_messages : ℕ
  pub delayed_messages : ℕ
  pub total_messages : ℕ
  pub dlq_messages : ℕ

pub data QueueError : Type 0 where
  not_found already_exists message_not_found invalid_receipt_handle queue_paused : QueueError

-- The keys under `queue:available:` and its kin hold no value.
abbrev pub Index : Type 0
Index = Assoc MessageId (Unit {0})

-- What the engine holds under the keys of one queue.
pub record QueueData : Type 0 where
  pub config : Option IndividualQueueConfig
  pub msgs : Assoc MessageId QueueMessage
  pub available : Index
  pub inflight : Index
  pub delayed : Index
  pub dlq : Index

abbrev pub no_data : QueueData
no_data = record { config = none; msgs = []; available = []; inflight = []; delayed = []; dlq = [] }

-- The keys of all queues. A name has no colon, so that no queue's keys begin as another's do.
abbrev pub Store : Type 0
Store = Text → QueueData

abbrev pub write : Text → QueueData → Store → Store
write name q s other = if name == other then q else s other
