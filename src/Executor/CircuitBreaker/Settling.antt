-- ===== src/Executor/CircuitBreaker/Settling.antt =====
-- Calls that nova-executor/src/circuit_breaker.rs lets through, up to their effect on the circuit.
use nova_runtime.Base.{
  ℕ, ◌+◌, true, some, ◌≡◌, inl, inr, refl, sym, ap, ◌∙◌, Result, ok, err, arith, Bool-cases,
}
use nova_runtime.Base.Assoc.{get, get-insert_self}
use nova_runtime.Executor.CircuitBreaker.{
  SubsystemId, RuntimeError, CircuitState, open_until, half_open, failure, CircuitBreaker, Times,
  get_state, transition, is_tracked_failure, or_default, count_transition, on_success, on_failure,
  settle, subsystem_eq,
}
use nova_runtime.Executor.CircuitBreaker.Moves.{
  failures, successes, trial, since, failures_within, LetsThrough, Stands, Moves, closes, succeeds,
  opens, fails, ignores,
}
use nova_runtime.Executor.CircuitBreaker.Cases.{
  SuccessCase, FailureCase, on_success-cases, on_failure-cases, within,
}

-- The settings are the same.
pub record SameLimits (b cb : CircuitBreaker) : Type 0 where
  failure_threshold_eq : b.failure_threshold ≡ cb.failure_threshold
  success_threshold_eq : b.success_threshold ≡ cb.success_threshold
  half_open_timeout_eq : b.half_open_timeout ≡ cb.half_open_timeout
  window_eq : b.window ≡ cb.window

pub same_limits : (cb : CircuitBreaker) → SameLimits cb cb
same_limits cb = record {
  failure_threshold_eq = refl;
  success_threshold_eq = refl;
  half_open_timeout_eq = refl;
  window_eq = refl;
}

module _ (s : SubsystemId) where
  module _ (at : Times) (cb b : CircuitBreaker) (c : CircuitState) (through : LetsThrough at c)
      (limits : SameLimits b cb)
      (st : Stands s (trial c) (failures s cb) (successes s cb) (since s at cb c) b) where
    within_eq :
        within s at b ≡ failures_within cb.window (since s at cb c) at.failed (failures s cb)
    within_eq = rw (limits.window_eq, st.changed_eq, st.failures_eq) refl

    ok-Moves :
        {T : Type 0} (t : T) (outcome : Result RuntimeError T)
        → outcome ≡ ok t
        → Moves s at cb outcome c (on_success s at b) (ok t)
    unfolding SuccessCase
    ok-Moves t outcome o = elim (on_success-cases s at b) [
      | inl (half, enough, now) ↦
          closes c t _ through (sym st.state_eq ∙ half) o
            (omega (arith, limits.success_threshold_eq, st.successes_eq)) now
      | inr (few, now) ↦
          succeeds c t _ through o
            (elim few [
              | inl other ↦ inl (λ h. other (st.state_eq ∙ h))
              | inr n ↦ inr (omega (arith, limits.success_threshold_eq, st.successes_eq))
            ])
            (record {
              state_eq = now.state_eq ∙ st.state_eq;
              failures_eq = now.failures_eq ∙ st.failures_eq;
              successes_eq = now.successes_eq ∙ ap (λ (n : ℕ). n + 1) st.successes_eq;
              changed_eq = now.changed_eq ∙ st.changed_eq;
            })
    ]

    err-Moves :
        {T : Type 0} (e : RuntimeError) (outcome : Result RuntimeError T)
        → outcome ≡ err e
        → is_tracked_failure e ≡ true
        → Moves s at cb outcome c (on_failure s at b) (err (failure e))
    unfolding FailureCase
    err-Moves e outcome o tracked = elim (on_failure-cases s at b) [
      | inl (many, now) ↦
          opens c e _ through o tracked (omega (arith, limits.failure_threshold_eq, within_eq))
            (record {
              state_eq =
                  now.state_eq
                  ∙ ap (λ (n : ℕ). open_until (at.opened + n)) limits.half_open_timeout_eq;
              failures_eq = now.failures_eq;
              successes_eq = now.successes_eq ∙ st.successes_eq;
              changed_eq = now.changed_eq;
            })
      | inr (few, now) ↦
          fails c e _ through o tracked (omega (arith, limits.failure_threshold_eq, within_eq))
            (record {
              state_eq = now.state_eq ∙ st.state_eq;
              failures_eq = now.failures_eq ∙ ap (λ (n : ℕ). n + 1) within_eq;
              successes_eq = now.successes_eq ∙ st.successes_eq;
              changed_eq = now.changed_eq ∙ st.changed_eq;
            })
    ]

    pub settle-Moves :
        {T : Type 0} (outcome : Result RuntimeError T)
        → Moves s at cb outcome c (settle s at outcome b).0 (settle s at outcome b).1
    unfolding settle
    settle-Moves (ok t) = ok-Moves t (ok t) refl
    settle-Moves (err e) = elim (Bool-cases (is_tracked_failure e)) [
      | inl tracked ↦ rw tracked (err-Moves e (err e) refl tracked)
      | inr other ↦ rw other (ignores c e b through refl other st)
    ]

  pub half-SameLimits :
      (now : ℕ) (cb : CircuitBreaker) → SameLimits (transition s half_open now cb) cb
  unfolding transition count_transition
  half-SameLimits now cb = record {
    failure_threshold_eq = refl;
    success_threshold_eq = refl;
    half_open_timeout_eq = refl;
    window_eq = refl;
  }

  pub half-Stands :
      (now : ℕ) (cb : CircuitBreaker)
      → Stands s half_open
          (failures s cb)
          (successes s cb)
          (some now)
          (transition s half_open now cb)
  unfolding transition count_transition get_state or_default
  half-Stands now cb = record {
    state_eq = rw (get-insert_self s half_open cb.state) refl;
    failures_eq = refl;
    successes_eq = refl;
    changed_eq = get-insert_self s now cb.last_state_change;
  }

  pub as_it_was :
      (cb : CircuitBreaker)
      → Stands s (get_state s cb) (failures s cb) (successes s cb) (get s cb.last_state_change) cb
  as_it_was cb = record {
    state_eq = refl;
    failures_eq = refl;
    successes_eq = refl;
    changed_eq = refl;
  }

  pub rejected-Stands :
      (n : ℕ) (cb : CircuitBreaker)
      → Stands s
          (get_state s cb)
          (failures s cb)
          (successes s cb)
          (get s cb.last_state_change)
          (record cb { rejected = n })
  unfolding get_state
  rejected-Stands n cb = record {
    state_eq = refl;
    failures_eq = refl;
    successes_eq = refl;
    changed_eq = refl;
  }
