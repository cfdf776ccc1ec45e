-- ===== src/Scheduler/TimeWheel/Tests.antt =====
-- The timing wheel of nova-scheduler/src/time_wheel.rs at concrete inputs.
use nova_runtime.Base.{ℕ, ◌-◌, ◌/◌, max, ◌%◌, ◌≡◌, refl, [], ◌∷◌, some, length, arith}
use nova_runtime.Scheduler.TimeWheel.{TimeWheel, schedule, ticks_ahead, push_at, divides, cancel}
use nova_runtime.Scheduler.TimeWheel.Firing.{
  IsTurning, IsAbsent, FiresAfter, schedule-FiresAfter, cancel-IsAbsent,
}

-- Ten slots of 100 ms, at slot 8.
abbrev wheel : TimeWheel
wheel = record {
  tick_ms = 100;
  slots = [] ∷ [] ∷ (7 ∷ []) ∷ [] ∷ [] ∷ [] ∷ [] ∷ [] ∷ [] ∷ [] ∷ [];
  current_slot = 8;
  started_at = 0;
}

wheel_schedules :
    schedule 5 1450 1000 wheel
    ≡ some
        (record wheel { slots = [] ∷ [] ∷ (7 ∷ 5 ∷ []) ∷ [] ∷ [] ∷ [] ∷ [] ∷ [] ∷ [] ∷ [] ∷ [] }, 2)
unfolding schedule divides ticks_ahead push_at
wheel_schedules = refl

-- 999 ms make nine ticks, 1000 ms a whole turn.
whole_turn :
    schedule 5 2000 1000 wheel
    ≡ some (
      record wheel { slots = [] ∷ [] ∷ (7 ∷ []) ∷ [] ∷ [] ∷ [] ∷ [] ∷ [] ∷ (5 ∷ []) ∷ [] ∷ [] },
      8,
    )
unfolding schedule divides ticks_ahead push_at
whole_turn = refl

wheel-IsAbsent : IsAbsent 5 (cancel 5 wheel)
wheel-IsAbsent = cancel-IsAbsent 5 wheel

wheel-IsTurning : IsTurning (cancel 5 wheel)
unfolding cancel
wheel-IsTurning = record { position = omega arith }

cancelled : (cancel 5 wheel).tick_ms ≡ 100
unfolding cancel
cancelled = refl

schedule-FiresAfter_example :
    (w' : TimeWheel) × (slot : ℕ) × (schedule 5 1450 1000 (cancel 5 wheel) ≡ some (w', slot))
    × FiresAfter 5 slot
        ((max 1 ((1450 - 1000) / (cancel 5 wheel).tick_ms) - 1) % length (cancel 5 wheel).slots)
        w'
schedule-FiresAfter_example =
    schedule-FiresAfter 5 1450 1000 (cancel 5 wheel) wheel-IsTurning wheel-IsAbsent
      (omega (arith, cancelled))
