-- ===== src/Executor/CircuitBreaker/Cases.antt =====
-- What `on_success` and `on_failure` of nova-executor/src/circuit_breaker.rs do to a circuit.
use nova_runtime.Base.{
  ℕ, ◌+◌, ◌<◌, ◌≤◌, true, false, if◌then◌else◌, Option, none, some, ◌≡◌, ◌≢◌, ◌⊎◌, inl, inr, refl,
  arith, if-cases, leb→le, ◌&&◌, leb,
}
use mathlib.Core.Path.{subst}
use nova_runtime.Base.Assoc.{Assoc, insert, get, get-remove_self, get-insert_self}
use nova_runtime.Executor.CircuitBreaker.{
  SubsystemId, CircuitState, closed, open_until, half_open, CircuitBreaker, Times, get_state,
  transition, or_default, close, trip, is_half_open, window_passed, count_transition, on_success,
  on_failure, subsystem_eq,
}
use nova_runtime.Executor.CircuitBreaker.Moves.{failures, successes, failures_within, Stands}

half-some :
    (o : Option CircuitState) (t n : ℕ)
    → (leb t n && is_half_open o) ≡ true
    → (or_default closed o ≡ half_open) × (t ≤ n)
unfolding or_default is_half_open
half-some none t n e = absurd (ground arith)
half-some (some closed) t n e = absurd (ground arith)
half-some (some (open_until u)) t n e = absurd (ground arith)
half-some (some half_open) t n e = (refl, ground arith)

half-none :
    (o : Option CircuitState) (t n : ℕ)
    → (leb t n && is_half_open o) ≡ false
    → (or_default closed o ≢ half_open) ⊎ (n < t)
unfolding or_default is_half_open
half-none none t n e = inl (λ h. cc)
half-none (some closed) t n e = inl (λ h. cc)
half-none (some (open_until u)) t n e = inl (λ h. cc)
half-none (some half_open) t n e = inr (ground arith)

module _ (s : SubsystemId) where
  close-Stands : (now : ℕ) (cb : CircuitBreaker) → Stands s closed 0 0 (some now) (close s now cb)
  unfolding close get_state transition or_default count_transition
  close-Stands now cb = record {
    state_eq = rw (get-insert_self s closed cb.state) refl;
    failures_eq = rw (get-remove_self s cb.failure_count) refl;
    successes_eq = rw (get-remove_self s cb.success_count) refl;
    changed_eq = get-insert_self s now cb.last_state_change;
  }

  trip-Stands :
      (opened now : ℕ) (cb : CircuitBreaker)
      → Stands s
          (open_until (opened + cb.half_open_timeout))
          0
          (successes s cb)
          (some now)
          (trip s opened now cb)
  unfolding trip get_state transition or_default count_transition
  trip-Stands opened now cb = record {
    state_eq = rw (get-insert_self s (open_until (opened + cb.half_open_timeout)) cb.state) refl;
    failures_eq = rw (get-remove_self s cb.failure_count) refl;
    successes_eq = refl;
    changed_eq = get-insert_self s now cb.last_state_change;
  }

  successes-Stands :
      (n : ℕ) (cb : CircuitBreaker)
      → Stands s
          (get_state s cb)
          (failures s cb)
          n
          (get s cb.last_state_change)
          (record cb { success_count = insert s n cb.success_count })
  unfolding get_state or_default
  successes-Stands n cb = record {
    state_eq = refl;
    failures_eq = refl;
    successes_eq = rw (get-insert_self s n cb.success_count) refl;
    changed_eq = refl;
  }

  failures-Stands :
      (n : ℕ) (counts : Assoc SubsystemId ℕ) (cb : CircuitBreaker)
      → Stands s
          (get_state s cb)
          n
          (successes s cb)
          (get s cb.last_state_change)
          (record cb { failure_count = insert s n counts })
  unfolding get_state or_default
  failures-Stands n counts cb = record {
    state_eq = refl;
    failures_eq = rw (get-insert_self s n counts) refl;
    successes_eq = refl;
    changed_eq = refl;
  }

  -- A success heals a half-open circuit at the threshold, or is counted.
  unfoldable pub SuccessCase : CircuitBreaker → Times → CircuitBreaker → Type 0
  SuccessCase cb at cb' =
      ((get_state s cb ≡ half_open)
        × (cb.success_threshold ≤ successes s cb + 1)
        × Stands s closed 0 0 (some at.changed) cb')
      ⊎ (((get_state s cb ≢ half_open) ⊎ (successes s cb + 1 < cb.success_threshold))
          × Stands s (get_state s cb) (failures s cb) (successes s cb + 1)
              (get s cb.last_state_change) cb')

  pub on_success-cases : (at : Times) (cb : CircuitBreaker) → SuccessCase cb at (on_success s at cb)
  unfolding on_success get_state SuccessCase
  on_success-cases at cb =
      let n = successes s cb + 1 in
      let cb' = record cb { success_count = insert s n cb.success_count } in
      if-cases (SuccessCase cb at) (leb cb.success_threshold n && is_half_open (get s cb.state))
        (close s at.changed cb') cb'
        (λ e.
          let (half, enough) = half-some (get s cb.state) cb.success_threshold n e in
          inl (half, enough, close-Stands at.changed cb'))
        (λ e. inr (half-none (get s cb.state) cb.success_threshold n e, successes-Stands n cb))

  abbrev pub within : Times → CircuitBreaker → ℕ
  within at cb = failures_within cb.window (get s cb.last_state_change) at.failed (failures s cb)

  unfoldable pub FailureCase : CircuitBreaker → Times → CircuitBreaker → Type 0
  FailureCase cb at cb' =
      ((cb.failure_threshold ≤ within at cb + 1)
        × Stands s (open_until (at.opened + cb.half_open_timeout)) 0 (successes s cb)
            (some at.changed) cb')
      ⊎ ((within at cb + 1 < cb.failure_threshold)
          × Stands s (get_state s cb) (within at cb + 1) (successes s cb)
              (get s cb.last_state_change) cb')

  counts-within :
      (window : ℕ) (last : Option ℕ) (now : ℕ) (counts : Assoc SubsystemId ℕ)
      → or_default 0 (get s (if window_passed window last now then insert s 0 counts else counts))
        ≡ failures_within window last now (or_default 0 (get s counts))
  unfolding window_passed or_default
  counts-within window none now counts = refl
  counts-within window (some last) now counts = ground (arith, get-insert_self s 0 counts)

  pub on_failure-cases : (at : Times) (cb : CircuitBreaker) → FailureCase cb at (on_failure s at cb)
  unfolding on_failure FailureCase
  on_failure-cases at cb =
      let counts =
        if window_passed cb.window (get s cb.last_state_change) at.failed
        then insert s 0 cb.failure_count
        else cb.failure_count in
      let same = counts-within cb.window (get s cb.last_state_change) at.failed cb.failure_count in
      let n = or_default 0 (get s counts) + 1 in
      let cb' = record cb { failure_count = insert s n counts } in
      if-cases (FailureCase cb at) (leb cb.failure_threshold n) (trip s at.opened at.changed cb')
        cb' (λ e. inl (omega (arith, leb→le _ _ e, same), trip-Stands at.opened at.changed cb'))
        (λ e. inr (
          ground (arith, e, same),
          subst
              (λ (m : ℕ).
                Stands s (get_state s cb) (m + 1) (successes s cb) (get s cb.last_state_change) cb')
              same (failures-Stands n counts cb),
        ))
