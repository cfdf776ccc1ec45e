-- ===== src/Scheduler/PriorityQueue/Tests.antt =====
-- The long-interval queue of nova-scheduler/src/time_wheel.rs at concrete inputs.
use nova_runtime.Base.{◌≡◌, refl, Bool, not, [], ◌∷◌, leb, nat_beq, map, retain, arith}
use nova_runtime.Scheduler.PriorityQueue.{Entry, PriorityQueue, schedule, pop_due, sort_by_time}
use nova_runtime.Scheduler.PriorityQueue.Due.{pop_due-eq}

abbrev jobs : PriorityQueue
jobs = (10, 1) ∷ (20, 2) ∷ (30, 3) ∷ []

-- Jobs of one time keep the order in which they were scheduled.
ties : schedule 9 20 jobs ≡ (10, 1) ∷ (20, 2) ∷ (20, 9) ∷ (30, 3) ∷ []
unfolding schedule sort_by_time
ties = refl

abbrev is_nine : Entry → Bool
is_nine e = nat_beq e.1 9

pop_due-eq_example :
    ((pop_due 20 jobs).0 ≡ map (λ e. e.1) (retain (λ e. leb e.0 20) jobs))
    × ((pop_due 20 jobs).1 ≡ retain (λ e. not (leb e.0 20)) jobs)
pop_due-eq_example = pop_due-eq 20 jobs (omega arith)
