-- ===== src/Executor/CircuitBreaker.antt =====
-- The circuit breaker: nova-executor/src/circuit_breaker.rs, with `SubsystemId` of types.rs and
-- `RuntimeError` of nova-core/src/error.rs. Instants and durations are numbers of one unit. Each
-- lock is held for one map operation; a call of `execute` is one step, and the closure enters by the
-- result that it returns.
pub mod Moves
pub mod Cases
pub mod Settling
pub mod Transitions
pub mod Windows
pub mod Tests
use nova_runtime.Base.{
  ℕ, ◌+◌, ◌-◌, ◌*◌, List, [], ◌∷◌, Bool, true, false, ◌&&◌, String, Option, none, some, ltb, leb,
  if◌then◌else◌, Eq, eq_of, Result, ok, err, wrapping_add,
}
use nova_runtime.Base.Assoc.{Assoc, get, insert, remove}

pub data SubsystemId : Type 0 where
  storage cache queue scheduler search_ blob sql auth pipeline admin : SubsystemId

unfoldable pub SubsystemId-discrete : Discrete SubsystemId
SubsystemId-discrete = hlevel

instance abbrev pub subsystem_eq : Eq SubsystemId
subsystem_eq = eq_of SubsystemId-discrete

pub data RuntimeError : Type 0 where
  not_found already_exists invalid_argument permission_denied : String → RuntimeError
  out_of_memory storage_error io corrupt_data busy timeout : String → RuntimeError
  checksum_mismatch : ℕ → ℕ → RuntimeError
  transaction_conflict protocol serialization deserialization internal : String → RuntimeError
  shutting_down : RuntimeError
  transaction_error deadlock_detected capacity_exceeded : String → RuntimeError

unfoldable pub is_tracked_failure : RuntimeError → Bool
is_tracked_failure (timeout s) = true
is_tracked_failure (transaction_conflict s) = true
is_tracked_failure (deadlock_detected s) = true
is_tracked_failure (transaction_error s) = true
is_tracked_failure (busy s) = true
is_tracked_failure (io s) = true
is_tracked_failure _ = false

pub data CircuitState : Type 0 where
  closed : CircuitState
  open_until : ℕ → CircuitState
  half_open : CircuitState

-- `failure` keeps the error whose text the source stores.
pub data CircuitError : Type 0 where
  circuit_open : CircuitError
  failure : RuntimeError → CircuitError

pub record CircuitBreaker : Type 0 where
  pub state : Assoc SubsystemId CircuitState
  pub failure_count : Assoc SubsystemId ℕ
  pub success_count : Assoc SubsystemId ℕ
  pub failure_threshold : ℕ
  pub success_threshold : ℕ
  pub half_open_timeout : ℕ
  pub window : ℕ
  pub last_state_change : Assoc SubsystemId ℕ
  pub opens : ℕ
  pub half_opens : ℕ
  pub closes : ℕ
  pub rejected : ℕ

-- The instants that one call reads, in order: at the test of an open circuit, in the transition to
-- half open, at a failure, and twice when a circuit opens or closes.
pub record Times : Type 0 where
  pub tested : ℕ
  pub half_opened : ℕ
  pub failed : ℕ
  pub opened : ℕ
  pub changed : ℕ

unfoldable pub new : ℕ → ℕ → ℕ → ℕ → CircuitBreaker
new failure_threshold success_threshold half_open_timeout window = record {
  state = [];
  failure_count = [];
  success_count = [];
  failure_threshold = failure_threshold;
  success_threshold = success_threshold;
  half_open_timeout = half_open_timeout;
  window = window;
  last_state_change = [];
  opens = 0;
  half_opens = 0;
  closes = 0;
  rejected = 0;
}

unfoldable pub or_default : {A : Type 0} → A → Option A → A
or_default a none = a
or_default a (some b) = b

unfoldable pub get_state : SubsystemId → CircuitBreaker → CircuitState
unfolding or_default
get_state s cb = or_default closed (get s cb.state)

unfoldable pub count_transition : CircuitState → CircuitBreaker → CircuitBreaker
count_transition closed cb = record cb { closes = wrapping_add cb.closes 1 }
count_transition (open_until t) cb = record cb { opens = wrapping_add cb.opens 1 }
count_transition half_open cb = record cb { half_opens = wrapping_add cb.half_opens 1 }

unfoldable pub transition : SubsystemId → CircuitState → ℕ → CircuitBreaker → CircuitBreaker
unfolding count_transition
transition s new_state now cb = count_transition new_state (record cb {
  state = insert s new_state cb.state;
  last_state_change = insert s now cb.last_state_change;
})

unfoldable pub trip : SubsystemId → ℕ → ℕ → CircuitBreaker → CircuitBreaker
unfolding transition
trip s opened changed cb =
    let cb' = transition s (open_until (opened + cb.half_open_timeout)) changed cb in
    record cb' { failure_count = remove s cb'.failure_count }

unfoldable pub close : SubsystemId → ℕ → CircuitBreaker → CircuitBreaker
unfolding transition
close s changed cb =
    let cb' = transition s closed changed cb in
    record cb' {
      failure_count = remove s cb'.failure_count;
      success_count = remove s cb'.success_count;
    }

-- `force_open` opens for an hour, `force_close` closes; `second` is one in the unit of the instants.
unfoldable pub force_open : ℕ → SubsystemId → ℕ → ℕ → CircuitBreaker → CircuitBreaker
unfolding transition
force_open second s opened changed = transition s (open_until (opened + 3600 * second)) changed

unfoldable pub force_close : SubsystemId → ℕ → CircuitBreaker → CircuitBreaker
unfolding close
force_close = close

unfoldable pub reset : SubsystemId → CircuitBreaker → CircuitBreaker
reset s cb = record cb {
  state = remove s cb.state;
  failure_count = remove s cb.failure_count;
  success_count = remove s cb.success_count;
  last_state_change = remove s cb.last_state_change;
}

is_half_open : Option CircuitState → Bool
is_half_open (some half_open) = true
is_half_open _ = false

unfoldable pub on_success : SubsystemId → Times → CircuitBreaker → CircuitBreaker
unfolding close or_default is_half_open
on_success s at cb =
    let count = or_default 0 (get s cb.success_count) + 1 in
    let cb' = record cb { success_count = insert s count cb.success_count } in
    if leb cb.success_threshold count && is_half_open (get s cb.state)
    then close s at.changed cb'
    else cb'

-- Whether the failure count starts again: the window has passed since the last change of state.
window_passed : ℕ → Option ℕ → ℕ → Bool
window_passed window none now = false
window_passed window (some last) now = ltb window (now - last)

unfoldable pub on_failure : SubsystemId → Times → CircuitBreaker → CircuitBreaker
unfolding trip or_default window_passed
on_failure s at cb =
    let counts =
      if window_passed cb.window (get s cb.last_state_change) at.failed
      then insert s 0 cb.failure_count
      else cb.failure_count in
    let count = or_default 0 (get s counts) + 1 in
    let cb' = record cb { failure_count = insert s count counts } in
    if leb cb.failure_threshold count then trip s at.opened at.changed cb' else cb'

-- The part of `execute` after the test of the state.
unfoldable pub settle :
    {T : Type 0}
    → SubsystemId
    → Times
    → Result RuntimeError T
    → CircuitBreaker
    → CircuitBreaker × Result CircuitError T
settle s at (ok t) cb = (on_success s at cb, ok t)
settle s at (err e) cb =
    if is_tracked_failure e then (on_failure s at cb, err (failure e)) else (cb, err (failure e))

unfoldable pub execute :
    {T : Type 0}
    → SubsystemId
    → Times
    → Result RuntimeError T
    → CircuitBreaker
    → CircuitBreaker × Result CircuitError T
execute s at outcome cb = elim (get_state s cb) [
  | open_until until ↦
      if ltb at.tested until
      then (record cb { rejected = wrapping_add cb.rejected 1 }, err circuit_open)
      else settle s at outcome (transition s half_open at.half_opened cb)
  | closed ↦ settle s at outcome cb
  | half_open ↦ settle s at outcome cb
]
