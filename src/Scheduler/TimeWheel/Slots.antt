-- ===== src/Scheduler/TimeWheel/Slots.antt =====
-- What pushing, taking and cancelling make of the slots of nova-scheduler/src/time_wheel.rs.
use nova_runtime.Base.{
  ℕ, zero, suc, ◌+◌, nat_beq, ◌<◌, ◌≡◌, refl, ap, not, List, [], ◌∷◌, count_if, count_if-append,
  length, retain, map, nat_beq, nat_beq_iff, if◌then◌else◌, arith,
}
use nova_runtime.Scheduler.TimeWheel.{push_at, take_at}

-- How often a job stands in a list, and in a slot.
abbrev pub times : ℕ → List ℕ → ℕ
times job = count_if (λ id. nat_beq id job)

pub in_slot : ℕ → ℕ → List (List ℕ) → ℕ
in_slot job i [] = 0
in_slot job zero (s ∷ ss) = times job s
in_slot job (suc i) (s ∷ ss) = in_slot job i ss

pub in_slot-push_at :
    (job i j : ℕ) (ss : List (List ℕ))
    → i < length ss
    → in_slot job j (push_at i job ss) ≡ in_slot job j ss + (if nat_beq i j then 1 else 0)
unfolding in_slot push_at
in_slot-push_at job i j [] h = absurd (omega arith)
in_slot-push_at job zero zero (s ∷ ss) h =
    ground
      (arith, count_if-append (λ id. nat_beq id job) s (job ∷ []), (nat_beq_iff job job).1 refl)
in_slot-push_at job zero (suc j) (s ∷ ss) h = ground arith
in_slot-push_at job (suc i) zero (s ∷ ss) h = ground arith
in_slot-push_at job (suc i) (suc j) (s ∷ ss) h =
    ground (arith, in_slot-push_at job i j ss (omega arith))

pub times-take_at : (job i : ℕ) (ss : List (List ℕ)) → times job (take_at i ss).0 ≡ in_slot job i ss
unfolding in_slot take_at
times-take_at job i [] = refl
times-take_at job zero (s ∷ ss) = refl
times-take_at job (suc i) (s ∷ ss) = times-take_at job i ss

pub in_slot-take_at :
    (job i j : ℕ) (ss : List (List ℕ))
    → in_slot job j (take_at i ss).1 ≡ (if nat_beq i j then 0 else in_slot job j ss)
unfolding in_slot take_at
in_slot-take_at job i j [] = ground arith
in_slot-take_at job zero zero (s ∷ ss) = ground arith
in_slot-take_at job zero (suc j) (s ∷ ss) = ground arith
in_slot-take_at job (suc i) zero (s ∷ ss) = ground arith
in_slot-take_at job (suc i) (suc j) (s ∷ ss) = ground (arith, in_slot-take_at job i j ss)

pub length-take_at : (i : ℕ) (ss : List (List ℕ)) → length (take_at i ss).1 ≡ length ss
unfolding take_at
length-take_at i [] = refl
length-take_at zero (s ∷ ss) = refl
length-take_at (suc i) (s ∷ ss) = ap suc (length-take_at i ss)

pub length-push_at : (i job : ℕ) (ss : List (List ℕ)) → length (push_at i job ss) ≡ length ss
unfolding push_at
length-push_at i job [] = refl
length-push_at zero job (s ∷ ss) = refl
length-push_at (suc i) job (s ∷ ss) = ap suc (length-push_at i job ss)

times-retain : (job : ℕ) (s : List ℕ) → times job (retain (λ id. not (nat_beq id job)) s) ≡ 0
times-retain job [] = refl
times-retain job (x ∷ s) = ground (arith, times-retain job s)

pub in_slot-cancel :
    (job j : ℕ) (ss : List (List ℕ))
    → in_slot job j (map (retain (λ id. not (nat_beq id job))) ss) ≡ 0
unfolding in_slot
in_slot-cancel job j [] = refl
in_slot-cancel job zero (s ∷ ss) = times-retain job s
in_slot-cancel job (suc j) (s ∷ ss) = in_slot-cancel job j ss
