-- ===== src/Executor/CircuitBreaker/Moves.antt =====
-- What one call of `execute` of nova-executor/src/circuit_breaker.rs may do to its circuit.
use nova_runtime.Base.{
  ℕ, ◌+◌, ◌-◌, ◌<◌, ◌≤◌, true, false, if◌then◌else◌, Option, none, some, ◌≡◌, ◌≢◌, ◌⊎◌, ltb, Result,
  ok, err,
}
use nova_runtime.Base.Assoc.{get}
use nova_runtime.Executor.CircuitBreaker.{
  SubsystemId, RuntimeError, CircuitState, closed, open_until, half_open, circuit_open,
  CircuitError, failure, CircuitBreaker, Times, get_state, is_tracked_failure, or_default,
  subsystem_eq,
}

-- How many failures and successes in a row are counted, and since when the state stands.
abbrev pub failures : SubsystemId → CircuitBreaker → ℕ
failures s cb = or_default 0 (get s cb.failure_count)

abbrev pub successes : SubsystemId → CircuitBreaker → ℕ
successes s cb = or_default 0 (get s cb.success_count)

-- The state in which a call runs: the trial of an open circuit is half open.
abbrev pub trial : CircuitState → CircuitState
trial closed = closed
trial half_open = half_open
trial (open_until t) = half_open

-- Since when it stands; a trial begins it anew.
abbrev pub since : SubsystemId → Times → CircuitBreaker → CircuitState → Option ℕ
since s at cb closed = get s cb.last_state_change
since s at cb half_open = get s cb.last_state_change
since s at cb (open_until t) = some at.half_opened

-- A failure after the window, counted from there, counts alone.
abbrev pub failures_within : ℕ → Option ℕ → ℕ → ℕ → ℕ
failures_within window none failed count = count
failures_within window (some last) failed count = if ltb window (failed - last) then 0 else count

-- Does the circuit let a call through?
abbrev pub LetsThrough : Times → CircuitState → Type 0
LetsThrough at closed = Unit
LetsThrough at half_open = Unit
LetsThrough at (open_until t) = t ≤ at.tested

-- The state of a circuit, its counts, and since when it stands.
pub record Stands (s : SubsystemId) (c : CircuitState) (failed succeeded : ℕ) (changed : Option ℕ)
    (cb : CircuitBreaker) : Type 0 where
  pub state_eq : get_state s cb ≡ c
  pub failures_eq : failures s cb ≡ failed
  pub successes_eq : successes s cb ≡ succeeded
  pub changed_eq : get s cb.last_state_change ≡ changed

module _ {T : Type 0} (s : SubsystemId) (at : Times) (cb : CircuitBreaker)
    (outcome : Result RuntimeError T) where
  -- The failures in the window of a call, with one that it adds.
  abbrev pub counted : CircuitState → ℕ
  counted c = failures_within cb.window (since s at cb c) at.failed (failures s cb) + 1

  -- What one call does to its circuit and returns, and under which conditions. No two of the six
  -- apply at once.
  pub data Moves : CircuitState → CircuitBreaker → Result CircuitError T → Type 0 where
    refuses :
        (t : ℕ) (cb' : CircuitBreaker)
        → at.tested < t
        → Stands s (open_until t) (failures s cb) (successes s cb) (get s cb.last_state_change) cb'
        → Moves (open_until t) cb' (err circuit_open)
    closes :
        (c : CircuitState) (t : T) (cb' : CircuitBreaker)
        → LetsThrough at c
        → trial c ≡ half_open
        → outcome ≡ ok t
        → cb.success_threshold ≤ successes s cb + 1
        → Stands s closed 0 0 (some at.changed) cb'
        → Moves c cb' (ok t)
    succeeds :
        (c : CircuitState) (t : T) (cb' : CircuitBreaker)
        → LetsThrough at c
        → outcome ≡ ok t
        → (trial c ≢ half_open) ⊎ (successes s cb + 1 < cb.success_threshold)
        → Stands s (trial c) (failures s cb) (successes s cb + 1) (since s at cb c) cb'
        → Moves c cb' (ok t)
    opens :
        (c : CircuitState) (e : RuntimeError) (cb' : CircuitBreaker)
        → LetsThrough at c
        → outcome ≡ err e
        → is_tracked_failure e ≡ true
        → cb.failure_threshold ≤ counted c
        → Stands s
            (open_until (at.opened + cb.half_open_timeout))
            0
            (successes s cb)
            (some at.changed)
            cb'
        → Moves c cb' (err (failure e))
    fails :
        (c : CircuitState) (e : RuntimeError) (cb' : CircuitBreaker)
        → LetsThrough at c
        → outcome ≡ err e
        → is_tracked_failure e ≡ true
        → counted c < cb.failure_threshold
        → Stands s (trial c) (counted c) (successes s cb) (since s at cb c) cb'
        → Moves c cb' (err (failure e))
    ignores :
        (c : CircuitState) (e : RuntimeError) (cb' : CircuitBreaker)
        → LetsThrough at c
        → outcome ≡ err e
        → is_tracked_failure e ≡ false
        → Stands s (trial c) (failures s cb) (successes s cb) (since s at cb c) cb'
        → Moves c cb' (err (failure e))
