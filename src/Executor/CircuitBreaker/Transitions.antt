-- ===== src/Executor/CircuitBreaker/Transitions.antt =====
-- The states that a circuit goes through: nova-executor/src/circuit_breaker.rs.
use nova_runtime.Base.{
  ℕ, ◌+◌, ◌<◌, ◌≡◌, ◌≢◌, ◌↔◌, inl, inr, refl, ltb, Result, ok, err, wrapping_add, arith, Bool-cases,
  ltb→lt, lt→ltb,
}
use nova_runtime.Base.Assoc.{get-insert_ne}
use nova_runtime.Executor.CircuitBreaker.{
  SubsystemId, RuntimeError, CircuitState, closed, open_until, half_open, circuit_open,
  CircuitBreaker, Times, get_state, transition, on_success, on_failure, settle, execute,
  subsystem_eq,
}
use nova_runtime.Executor.CircuitBreaker.Moves.{Moves, refuses}
use nova_runtime.Executor.CircuitBreaker.Settling.{
  settle-Moves, same_limits, half-SameLimits, half-Stands, as_it_was, rejected-Stands,
}

module _ (s : SubsystemId) where
  -- A call moves its circuit as `Moves` says, whatever it returns: it is refused, with nothing
  -- changed for the circuit, if the circuit is open and the instant of the test comes before its
  -- end. Otherwise it runs, in the half-open state if the circuit was open. A success there that
  -- reaches the success threshold closes a half-open circuit and clears its counts, any other
  -- success is counted. A tracked failure that reaches the failure threshold, with those before it
  -- since the change of state unless the window has passed, opens the circuit until the timeout
  -- after the opening instant and clears the failures, any other tracked failure is counted, and
  -- an untracked one changes no more.
  pub execute-Moves :
      {T : Type 0} (at : Times) (outcome : Result RuntimeError T) (cb : CircuitBreaker)
      → let out = execute s at outcome cb in Moves s at cb outcome (get_state s cb) out.0 out.1
  unfolding execute
  execute-Moves at outcome cb = execute-Moves_from (get_state s cb) refl
    where
      execute-Moves_from :
          (c : CircuitState)
          → get_state s cb ≡ c
          → Moves s at cb outcome
              (get_state s cb)
              (execute s at outcome cb).0
              (execute s at outcome cb).1
      execute-Moves_from closed e =
          rw (e, execute)
            (settle-Moves s at cb cb closed tt (same_limits cb) (rw e at (as_it_was s cb)) outcome)
      execute-Moves_from half_open e =
          rw (e, execute)
            (settle-Moves s at cb cb half_open tt (same_limits cb) (rw e at (as_it_was s cb))
              outcome)
      execute-Moves_from (open_until t) e = elim (Bool-cases (ltb at.tested t)) [
        | inl early ↦
            rw (e, execute, early)
              (refuses t _ (ltb→lt _ _ early)
                (rw e at (rejected-Stands s (wrapping_add cb.rejected 1) cb)))
        | inr late ↦
            rw (e, execute, late)
              (settle-Moves s at cb (transition s half_open at.half_opened cb) (open_until t)
                (ground arith) (half-SameLimits s at.half_opened cb)
                (half-Stands s at.half_opened cb) outcome)
      ]

  settle-ne-circuit_open :
      {T : Type 0} (at : Times) (outcome : Result RuntimeError T) (cb : CircuitBreaker)
      → (settle s at outcome cb).1 ≢ err circuit_open
  unfolding settle
  settle-ne-circuit_open at (ok t) cb h = cc
  settle-ne-circuit_open at (err e) cb h = ground arith

  refused_early :
      {T : Type 0} (at : Times) (outcome : Result RuntimeError T) (cb : CircuitBreaker)
      (c : CircuitState)
      → get_state s cb ≡ c
      → (execute s at outcome cb).1 ≡ err circuit_open
      → (t : ℕ) × (get_state s cb ≡ open_until t) × (at.tested < t)
  unfolding execute
  refused_early at outcome cb closed e h =
      absurd (settle-ne-circuit_open at outcome cb (rw (e, execute) at h))
  refused_early at outcome cb half_open e h =
      absurd (settle-ne-circuit_open at outcome cb (rw (e, execute) at h))
  refused_early at outcome cb (open_until t) e h = elim (Bool-cases (ltb at.tested t)) [
    | inl early ↦ (t, e, ltb→lt _ _ early)
    | inr late ↦ absurd (
        settle-ne-circuit_open at outcome (transition s half_open at.half_opened cb)
          (rw (e, execute, late) at h))
  ]

  -- A call is refused as open exactly when its circuit is open and the instant of the test comes
  -- before the instant until which it is open.
  pub execute-eq-circuit_open :
      {T : Type 0} (at : Times) (outcome : Result RuntimeError T) (cb : CircuitBreaker)
      → ((execute s at outcome cb).1 ≡ err circuit_open)
        ↔ ((t : ℕ) × (get_state s cb ≡ open_until t) × (at.tested < t))
  unfolding execute
  execute-eq-circuit_open at outcome cb = (
    refused_early at outcome cb (get_state s cb) refl,
    λ (t, e, early). rw (e, execute, lt→ltb _ _ early),
  )

module _ (s j : SubsystemId) (h : s ≢ j) where
  other-transition :
      (c : CircuitState) (now : ℕ) (cb : CircuitBreaker)
      → get_state j (transition s c now cb) ≡ get_state j cb
  unfolding transition get_state
  other-transition closed now cb = rw (get-insert_ne s j closed cb.state h)
  other-transition (open_until t) now cb = rw (get-insert_ne s j _ cb.state h)
  other-transition half_open now cb = rw (get-insert_ne s j _ cb.state h)

  other-on_success :
      (at : Times) (cb : CircuitBreaker) → get_state j (on_success s at cb) ≡ get_state j cb
  unfolding on_success transition get_state
  other-on_success at cb = ground (arith, get-insert_ne s j closed cb.state h)

  other-on_failure :
      (at : Times) (cb : CircuitBreaker) → get_state j (on_failure s at cb) ≡ get_state j cb
  unfolding on_failure transition get_state
  other-on_failure at cb =
      ground (arith, get-insert_ne s j (open_until (at.opened + cb.half_open_timeout)) cb.state h)

  other-settle :
      {T : Type 0} (at : Times) (outcome : Result RuntimeError T) (cb : CircuitBreaker)
      → get_state j (settle s at outcome cb).0 ≡ get_state j cb
  unfolding settle
  other-settle at (ok t) cb = other-on_success at cb
  other-settle at (err e) cb = ground (arith, other-on_failure at cb)

  state-rejected :
      (cb : CircuitBreaker) (n : ℕ) → get_state j (record cb { rejected = n }) ≡ get_state j cb
  unfolding get_state
  state-rejected cb n = refl

  -- A call for one subsystem leaves the state of every other subsystem as it was, whatever it
  -- returns.
  pub other-execute :
      {T : Type 0} (at : Times) (outcome : Result RuntimeError T) (cb : CircuitBreaker)
      → get_state j (execute s at outcome cb).0 ≡ get_state j cb
  unfolding execute
  other-execute at outcome cb = ground (
    arith,
    other-settle at outcome cb,
    other-settle at outcome (transition s half_open at.half_opened cb),
    other-transition half_open at.half_opened cb,
    state-rejected cb (wrapping_add cb.rejected 1),
  )
