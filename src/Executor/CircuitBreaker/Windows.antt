-- ===== src/Executor/CircuitBreaker/Windows.antt =====
-- What the counters of nova-executor/src/circuit_breaker.rs make of a sequence of calls.
use nova_runtime.Base.{
  ℕ, suc, ◌+◌, ◌<◌, ◌≡◌, ◌∙◌, refl, ap, true, List, [], ◌∷◌, none, some, All, length, err, arith,
}
use native.Mathlib.Nat.{add-zero}
use mathlib.Core.Path.{subst, sym}
use nova_runtime.Base.Assoc.{get, insert, get-insert_self}
use nova_runtime.Executor.CircuitBreaker.{
  SubsystemId, subsystem_eq, RuntimeError, closed, open_until, CircuitBreaker, Times, get_state,
  transition, on_failure, settle, execute, is_tracked_failure, or_default,
}

module _ (s : SubsystemId) where
  -- `n` failing calls, the newest last.
  unfoldable pub fail : List (Times × RuntimeError) → CircuitBreaker → CircuitBreaker
  fail [] cb = cb
  fail ((at, e) ∷ rest) cb = fail rest (execute {T = Unit {0}} s at (err e) cb).0

  -- The circuit is closed, and its last change of state, if any, is at `last`.
  pub record IsQuiet (last : ℕ) (cb : CircuitBreaker) : Type 0 where
    pub is_closed : get_state s cb ≡ closed
    pub changed : get s cb.last_state_change ≡ some last

  on_failure-IsQuiet :
      (last : ℕ) (at : Times) (cb : CircuitBreaker)
      → 1 < cb.failure_threshold
      → last + cb.window < at.failed
      → IsQuiet last cb
      → IsQuiet last (on_failure s at cb)
        × ((on_failure s at cb).failure_threshold ≡ cb.failure_threshold)
        × ((on_failure s at cb).window ≡ cb.window)
  unfolding on_failure get_state
  on_failure-IsQuiet last at cb two late q = ground (
    arith,
    get-insert_self s 0 cb.failure_count,
    get-insert_self s 1 (insert s 0 cb.failure_count),
  )

  execute-IsQuiet :
      (last : ℕ) (at : Times) (e : RuntimeError) (cb : CircuitBreaker)
      → 1 < cb.failure_threshold
      → last + cb.window < at.failed
      → IsQuiet last cb
      → let cb' = (execute {T = Unit {0}} s at (err e) cb).0 in
        IsQuiet last cb' × (cb'.failure_threshold ≡ cb.failure_threshold) × (cb'.window ≡ cb.window)
  unfolding execute settle
  execute-IsQuiet last at e cb two late q =
      rw (q.is_closed, execute) (ground (arith, on_failure-IsQuiet last at cb two late q))

  -- If the circuit is closed and last changed state at an instant, the threshold is above 1 and
  -- every later call fails more than the window after that instant, then after any number of
  -- failing calls the circuit is still closed.
  pub fail-IsQuiet :
      (last : ℕ) (calls : List (Times × RuntimeError)) (cb : CircuitBreaker)
      → 1 < cb.failure_threshold
      → All (λ call. last + cb.window < call.0.failed) calls
      → IsQuiet last cb
      → IsQuiet last (fail calls cb)
  unfolding fail
  fail-IsQuiet last [] cb two late q = q
  fail-IsQuiet last ((at, e) ∷ calls) cb two late q =
      let (q', same, same') = execute-IsQuiet last at e cb two late.0 q in
      fail-IsQuiet last calls _ (rw same two) (rw same' late.1) q'

  -- A circuit that has never changed state, with `n` failures counted.
  pub record IsCounting (n : ℕ) (cb : CircuitBreaker) : Type 0 where
    pub is_closed : get_state s cb ≡ closed
    pub unchanged : get s cb.last_state_change ≡ none
    pub counted : or_default 0 (get s cb.failure_count) ≡ n

  on_failure-IsCounting :
      (n : ℕ) (at : Times) (cb : CircuitBreaker)
      → IsCounting n cb
      → suc n < cb.failure_threshold
      → IsCounting (suc n) (on_failure s at cb)
        × ((on_failure s at cb).failure_threshold ≡ cb.failure_threshold)
  unfolding on_failure get_state or_default
  on_failure-IsCounting n at cb c h = ground (
    arith,
    c.counted,
    get-insert_self s (or_default 0 (get s cb.failure_count) + 1) cb.failure_count,
  )

  last_failure :
      (n : ℕ) (at : Times) (cb : CircuitBreaker)
      → IsCounting n cb
      → suc n ≡ cb.failure_threshold
      → get_state s (on_failure s at cb) ≡ open_until (at.opened + cb.half_open_timeout)
  unfolding on_failure get_state transition
  last_failure n at cb c h =
      ground (
        arith,
        c.counted,
        get-insert_self s (open_until (at.opened + cb.half_open_timeout)) cb.state,
      )

  fail_one :
      (n : ℕ) (at : Times) (e : RuntimeError) (cb : CircuitBreaker)
      → is_tracked_failure e ≡ true
      → IsCounting n cb
      → (execute {T = Unit {0}} s at (err e) cb).0 ≡ on_failure s at cb
  unfolding execute settle
  fail_one n at e cb tracked c = rw (c.is_closed, execute, tracked) refl

  -- If the circuit is closed and has never changed state, then calls that fail by tracked errors,
  -- too few to reach the threshold, leave it closed and add their number to the failure count, and
  -- leave the threshold.
  pub fail-IsCounting :
      (n : ℕ) (calls : List (Times × RuntimeError)) (cb : CircuitBreaker)
      → All (λ call. is_tracked_failure call.1 ≡ true) calls
      → IsCounting n cb
      → n + length calls < cb.failure_threshold
      → IsCounting (n + length calls) (fail calls cb)
        × ((fail calls cb).failure_threshold ≡ cb.failure_threshold)
  unfolding fail
  fail-IsCounting n [] cb tracked c h = (rw add-zero c, refl)
  fail-IsCounting n ((at, e) ∷ calls) cb tracked c h =
      let (c', same) = on_failure-IsCounting n at cb c (omega arith) in
      subst
        (λ (x : CircuitBreaker).
          IsCounting (n + length ((at, e) ∷ calls)) x
          × (x.failure_threshold ≡ cb.failure_threshold))
        (sym (ap (fail calls) (fail_one n at e cb tracked.0 c)))
        (let (ih, same') =
            fail-IsCounting (suc n) calls (on_failure s at cb) tracked.1 c' (omega arith) in
          (rw move ih, same' ∙ same))
    where
      move : n + suc (length calls) ≡ suc n + length calls
      move = omega arith

  -- If the circuit is closed, has never changed state and has counted no failure, then the tracked
  -- failure that makes the threshold opens it until the timeout after the opening instant.
  pub fail-opens :
      (calls : List (Times × RuntimeError)) (at : Times) (e : RuntimeError) (cb : CircuitBreaker)
      → All (λ call. is_tracked_failure call.1 ≡ true) calls
      → is_tracked_failure e ≡ true
      → IsCounting 0 cb
      → suc (length calls) ≡ cb.failure_threshold
      → get_state s (execute {T = Unit {0}} s at (err e) (fail calls cb)).0
        ≡ open_until (at.opened + (fail calls cb).half_open_timeout)
  fail-opens calls at e cb tracked last_tracked c h =
      let (c', same) = fail-IsCounting 0 calls cb tracked c (omega arith) in
      rw (fail_one _ at e (fail calls cb) last_tracked c')
        (last_failure (0 + length calls) at (fail calls cb) c' (omega arith))
