-- ===== src/Scheduler/TimeWheel.antt =====
-- The timing wheel for short intervals: `TimeWheel` of nova-scheduler/src/time_wheel.rs. Jobs are the
-- numbers of their UUIDs, times are milliseconds since the epoch, and the clock is an argument. A
-- wheel of no slots or of ticks of no length makes the source panic: that is `none`.
pub mod Slots
pub mod Firing
pub mod Tests
use nova_runtime.Base.{
  ℕ, zero, suc, ◌+◌, ◌-◌, ◌/◌, ◌%◌, Bool, true, false, not, Option, none, some, List, [], ◌∷◌, ◌++◌,
  length, get_elem?, retain, map, leb, nat_beq, if◌then◌else◌,
}

pub record TimeWheel : Type 0 where
  pub tick_ms : ℕ
  pub slots : List (List ℕ)
  pub current_slot : ℕ
  pub started_at : ℕ

replicate : ℕ → List (List ℕ)
replicate zero = []
replicate (suc n) = [] ∷ replicate n

unfoldable pub new : ℕ → ℕ → ℕ → TimeWheel
unfolding replicate
new tick_ms num_slots now = record {
  tick_ms = tick_ms;
  slots = replicate num_slots;
  current_slot = 0;
  started_at = now;
}

-- `self.slots[slot].write().push_back(job_id)`
unfoldable pub push_at : ℕ → ℕ → List (List ℕ) → List (List ℕ)
push_at i job [] = []
push_at zero job (s ∷ ss) = (s ++ job ∷ []) ∷ ss
push_at (suc i) job (s ∷ ss) = s ∷ push_at i job ss

-- How many ticks ahead a job is put: one for what is due, or due within a tick.
unfoldable pub ticks_ahead : ℕ → ℕ → ℕ → ℕ
ticks_ahead tick_ms fire_at now =
    if leb fire_at now
    then 1
    else (let ticks = (fire_at - now) / tick_ms in if nat_beq ticks 0 then 1 else ticks)

-- Whether the divisors of `schedule` are positive on its path.
unfoldable pub divides : TimeWheel → ℕ → ℕ → Bool
divides w fire_at now =
    if nat_beq (length w.slots) 0
    then false
    else if leb fire_at now
    then true
    else not (nat_beq w.tick_ms 0)

unfoldable pub schedule : ℕ → ℕ → ℕ → TimeWheel → Option (TimeWheel × ℕ)
schedule job fire_at now w =
    if divides w fire_at now
    then (let slot = (w.current_slot + ticks_ahead w.tick_ms fire_at now) % length w.slots in
        some (record w { slots = push_at slot job w.slots }, slot))
    else none

-- `mem::swap` with an empty deque.
unfoldable pub take_at : ℕ → List (List ℕ) → List ℕ × List (List ℕ)
take_at i [] = ([], [])
take_at zero (s ∷ ss) = (s, [] ∷ ss)
take_at (suc i) (s ∷ ss) = let (due, ss') = take_at i ss in (due, s ∷ ss')

unfoldable pub tick : TimeWheel → Option (TimeWheel × List ℕ)
tick w =
    if nat_beq (length w.slots) 0
    then none
    else (let slot = (w.current_slot + 1) % length w.slots in
        let (due, slots') = take_at slot w.slots in
        some (record w { slots = slots'; current_slot = slot }, due))

unfoldable pub cancel : ℕ → TimeWheel → TimeWheel
cancel job w = record w { slots = map (retain (λ id. not (nat_beq id job))) w.slots }
