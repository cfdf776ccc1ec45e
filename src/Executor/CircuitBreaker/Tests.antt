-- ===== src/Executor/CircuitBreaker/Tests.antt =====
-- The circuit breaker of nova-executor/src/circuit_breaker.rs at concrete inputs.
use nova_runtime.Base.{ℕ, ◌≢◌, refl, List, [], ◌∷◌, Result, ok, arith}
use nova_runtime.Base.Assoc.{get, insert, remove}
use nova_runtime.Executor.CircuitBreaker.{
  SubsystemId-discrete, storage, cache, RuntimeError, timeout, io, CircuitBreaker, Times, new,
  get_state, trip, close, execute, or_default,
}
use nova_runtime.Executor.CircuitBreaker.Moves.{Moves}
use nova_runtime.Executor.CircuitBreaker.Transitions.{execute-Moves}
use nova_runtime.Executor.CircuitBreaker.Windows.{fail, IsQuiet, IsCounting, fail-IsQuiet}

abbrev at_time : ℕ → Times
at_time t = record { tested = t; half_opened = t; failed = t; opened = t; changed = t }

-- Three failures open, two successes close, 50 to the next probe, a window of 100.
abbrev breaker : CircuitBreaker
breaker = new 3 2 50 100

abbrev success : Result RuntimeError ℕ
success = ok 5

abbrev late_failures : List (Times × RuntimeError)
late_failures =
    (at_time 200, timeout "")
    ∷ (at_time 200, timeout "")
    ∷ (at_time 200, timeout "")
    ∷ (at_time 200, io "")
    ∷ (at_time 200, io "")
    ∷ []

abbrev two_failures : List (Times × RuntimeError)
two_failures = (at_time 5, timeout "") ∷ (at_time 900, io "") ∷ []

abbrev opened_breaker : CircuitBreaker
opened_breaker = (trip storage 10 10 breaker)

execute-Moves_example :
    let out = execute storage (at_time 70) success opened_breaker in
    Moves storage (at_time 70) opened_breaker success (get_state storage opened_breaker) out.0 out.1
execute-Moves_example = execute-Moves storage (at_time 70) success opened_breaker

storage≢cache : storage ≢ cache
storage≢cache e = cc

abbrev healed : CircuitBreaker
healed = close storage 80 opened_breaker

healed-IsQuiet : IsQuiet storage 80 healed
unfolding new trip close get_state SubsystemId-discrete insert get or_default remove
healed-IsQuiet = record { is_closed = refl; changed = refl }

-- Five failures at one instant leave the circuit closed.
fail-IsQuiet_example : IsQuiet storage 80 (fail storage late_failures healed)
unfolding new trip close
fail-IsQuiet_example =
    fail-IsQuiet storage 80 late_failures healed (omega arith) (omega arith) healed-IsQuiet

breaker-IsCounting : IsCounting storage 0 breaker
unfolding new get_state get or_default
breaker-IsCounting = record { is_closed = refl; unchanged = refl; counted = refl }
