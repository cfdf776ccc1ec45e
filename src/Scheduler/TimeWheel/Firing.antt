-- ===== src/Scheduler/TimeWheel/Firing.antt =====
-- When a scheduled job fires: nova-scheduler/src/time_wheel.rs.
use nova_runtime.Base.{
  ℕ, zero, suc, ◌+◌, ◌-◌, ◌/◌, max, Bool-cases, inl, inr, leb, nat_beq, ◌%◌, ◌≤◌, ◌<◌, ◌≡◌, ◌≢◌,
  ◌∙◌, refl, sym, ap, ap₂, Option, none, some, List, [], ◌++◌, count_if-append, length, nat_beq,
  if◌then◌else◌, arith,
}
use mathlib.Core.Path.{subst}
use native.Mathlib.Nat.{mod-add-mod, add-mod-mod, mod-lt, zero-div}
use nova_runtime.Scheduler.TimeWheel.{
  TimeWheel, push_at, take_at, ticks_ahead, divides, schedule, tick, cancel,
}
use nova_runtime.Scheduler.TimeWheel.Slots.{
  times, in_slot, in_slot-push_at, times-take_at, in_slot-take_at, length-take_at, length-push_at,
  in_slot-cancel,
}

-- Ticks, with the jobs of each.
pub advance : ℕ → TimeWheel → Option (TimeWheel × List ℕ)
advance zero w = some (w, [])
advance (suc n) w = elim (tick w) [
  | none ↦ none
  | some (w', due) ↦ elim (advance n w') [
    | none ↦ none
    | some (w'', later) ↦ some (w'', due ++ later)
  ]
]

-- The job stands once in the wheel, in this slot.
pub record Holds (job slot : ℕ) (w : TimeWheel) : Type 0 where
  pub once : (j : ℕ) → in_slot job j w.slots ≡ (if nat_beq slot j then 1 else 0)

-- The job stands nowhere in the wheel.
pub record IsAbsent (job : ℕ) (w : TimeWheel) : Type 0 where
  pub nowhere : (j : ℕ) → in_slot job j w.slots ≡ 0

-- A wheel whose position is one of its slots.
pub record IsTurning (w : TimeWheel) : Type 0 where
  pub position : w.current_slot < length w.slots

mod-add_lt : (c d n : ℕ) → c < n → suc (suc d) ≤ n → (c + suc (suc d)) % n ≢ (c + 1) % n
mod-add_lt c d n h k e = grind arith

mod-next : (c d n : ℕ) → (c + suc (suc d)) % n ≡ ((c + 1) % n + suc d) % n
mod-next c d n = ap (λ (m : ℕ). m % n) regroup ∙ sym (mod-add-mod (c + 1) n (suc d))
  where
    regroup : c + suc (suc d) ≡ c + 1 + suc d
    regroup = omega arith

mod-ahead : (c t n : ℕ) → 0 < t → (c + t) % n ≡ (c + suc ((t - 1) % n)) % n
mod-ahead c t n k =
    ap (λ (m : ℕ). m % n) regroup
    ∙ (sym (add-mod-mod (c + 1) (t - 1) n) ∙ ap (λ (m : ℕ). m % n) onward)
  where
    regroup : c + t ≡ c + 1 + (t - 1)
    regroup = omega arith

    onward : c + 1 + (t - 1) % n ≡ c + suc ((t - 1) % n)
    onward = omega arith

module _ (job slot : ℕ) where
  tick_misses :
      (w : TimeWheel)
      → IsTurning w
      → Holds job slot w
      → slot ≢ (w.current_slot + 1) % length w.slots
      → (w' : TimeWheel) × (due : List ℕ) × (tick w ≡ some (w', due))
        × (times job due ≡ 0)
        × Holds job slot w'
        × IsTurning w'
        × (w'.current_slot ≡ (w.current_slot + 1) % length w.slots)
        × (length w'.slots ≡ length w.slots)
  unfolding tick
  tick_misses w v h ne =
      let n = length w.slots in
      let next = (w.current_slot + 1) % n in
      let len = length-take_at next w.slots in
      (
        record w { slots = (take_at next w.slots).1; current_slot = next },
        (take_at next w.slots).0,
        ground arith,
        ground (arith, times-take_at job next w.slots, h.once next),
        record { once = λ j. ground (arith, in_slot-take_at job next j w.slots, h.once j) },
        record { position = rw len (mod-lt (w.current_slot + 1) (omega (arith, v.position))) },
        refl,
        len,
      )

  tick_fires :
      (w : TimeWheel)
      → IsTurning w
      → Holds job slot w
      → slot ≡ (w.current_slot + 1) % length w.slots
      → (w' : TimeWheel) × (due : List ℕ) × (tick w ≡ some (w', due))
        × (times job due ≡ 1)
        × IsAbsent job w'
        × IsTurning w'
  unfolding tick
  tick_fires w v h e =
      let next = (w.current_slot + 1) % length w.slots in
      let len = length-take_at next w.slots in
      (
        record w { slots = (take_at next w.slots).1; current_slot = next },
        (take_at next w.slots).0,
        ground arith,
        ground (arith, times-take_at job next w.slots, h.once next),
        record { nowhere = λ j. ground (arith, in_slot-take_at job next j w.slots, h.once j) },
        record { position = rw len (mod-lt (w.current_slot + 1) (omega (arith, v.position))) },
      )

  -- An absent job fires in no tick.
  tick-IsAbsent :
      (w : TimeWheel)
      → IsTurning w
      → IsAbsent job w
      → (w' : TimeWheel) × (due : List ℕ) × (tick w ≡ some (w', due))
        × (times job due ≡ 0)
        × IsAbsent job w'
        × IsTurning w'
  unfolding tick
  tick-IsAbsent w v a =
      let next = (w.current_slot + 1) % length w.slots in
      let len = length-take_at next w.slots in
      (
        record w { slots = (take_at next w.slots).1; current_slot = next },
        (take_at next w.slots).0,
        ground (arith, v.position),
        ground (arith, times-take_at job next w.slots, a.nowhere next),
        record { nowhere = λ j. ground (arith, in_slot-take_at job next j w.slots, a.nowhere j) },
        record { position = rw len (mod-lt (w.current_slot + 1) (omega (arith, v.position))) },
      )

  -- Any number of ticks runs, and the job fires in none of them.
  abbrev pub IsQuiet : TimeWheel → Type 0
  IsQuiet w =
      (n : ℕ)
      → (w' : TimeWheel) × (later : List ℕ) × (advance n w ≡ some (w', later))
        × (times job later ≡ 0)

  IsAbsent-IsQuiet : (w : TimeWheel) → IsTurning w → IsAbsent job w → IsQuiet w
  unfolding advance
  IsAbsent-IsQuiet w v a zero = (w, [], refl, refl)
  IsAbsent-IsQuiet w v a (suc n) =
      let (w', due, ticked, none_due, a', v') = tick-IsAbsent w v a in
      let (w'', later, advanced, none_later) = IsAbsent-IsQuiet w' v' a' n in
      (
        w'',
        due ++ later,
        ground (arith, ticked, advanced),
        omega (arith, count_if-append (λ id. nat_beq id job) due later),
      )

  -- The job fires in the tick after `d` others, and in no other, however many follow.
  abbrev pub FiresAfter : ℕ → TimeWheel → Type 0
  FiresAfter d w =
      (w1 : TimeWheel) × (w2 : TimeWheel) × (early : List ℕ) × (due : List ℕ) × (advance d w
        ≡ some (w1, early))
      × (times job early ≡ 0)
      × (tick w1 ≡ some (w2, due))
      × (times job due ≡ 1)
      × IsQuiet w2

  Holds-FiresAfter :
      (d : ℕ) (w : TimeWheel)
      → IsTurning w
      → Holds job slot w
      → d < length w.slots
      → slot ≡ (w.current_slot + suc d) % length w.slots
      → FiresAfter d w
  unfolding advance
  Holds-FiresAfter zero w v h lt e =
      let (w2, due, ticked, one, a, v2) = tick_fires w v h e in
      (w, w2, [], due, refl, refl, ticked, one, IsAbsent-IsQuiet w2 v2 a)
  Holds-FiresAfter (suc d) w v h lt e =
      let (w', none_due, ticked, zero_due, h', v', moved, len) =
        tick_misses w v h
          (λ k. mod-add_lt w.current_slot d (length w.slots) v.position lt (sym e ∙ k)) in
      let (w1, w2, early, due, advanced, zero_early, ticked', one, quiet) =
        Holds-FiresAfter d w' v' h' (omega (arith, len)) (
          e
          ∙ (mod-next w.current_slot d (length w.slots)
              ∙ ap₂ (λ (c n : ℕ). (c + suc d) % n) (sym moved) (sym len))) in
      (
        w1,
        w2,
        none_due ++ early,
        due,
        ground (arith, ticked, advanced),
        omega (arith, count_if-append (λ id. nat_beq id job) none_due early),
        ticked',
        one,
        quiet,
      )

-- The whole ticks until a time, at least one.
ticks_ahead-eq :
    (tick_ms fire_at now : ℕ) → ticks_ahead tick_ms fire_at now ≡ max 1 ((fire_at - now) / tick_ms)
unfolding ticks_ahead
ticks_ahead-eq tick_ms fire_at now = elim (Bool-cases (leb fire_at now)) [
  | inl past ↦
      let none_left : fire_at - now ≡ 0 = ground arith in
      rw (past, none_left, zero-div tick_ms) refl
  | inr ahead ↦ rw ahead (ground arith)
]

ticks_ahead-pos : (tick_ms fire_at now : ℕ) → 0 < ticks_ahead tick_ms fire_at now
unfolding ticks_ahead
ticks_ahead-pos tick_ms fire_at now = ground arith

schedule_ahead :
    (job fire_at now : ℕ) (w : TimeWheel)
    → IsTurning w
    → IsAbsent job w
    → 0 < w.tick_ms
    → let ahead = ticks_ahead w.tick_ms fire_at now in
      (w' : TimeWheel) × (slot : ℕ) × (schedule job fire_at now w ≡ some (w', slot))
      × FiresAfter job slot ((ahead - 1) % length w.slots) w'
unfolding schedule divides
schedule_ahead job fire_at now w v a pos =
    let n = length w.slots in
    let ahead = ticks_ahead w.tick_ms fire_at now in
    let slot = (w.current_slot + ahead) % n in
    let inside : slot < n = mod-lt (w.current_slot + ahead) (omega (arith, v.position)) in
    let len = length-push_at slot job w.slots in
    let w' : TimeWheel = record w { slots = push_at slot job w.slots } in
    let in_range : (ahead - 1) % n < length w'.slots =
      rw len (mod-lt (ahead - 1) (omega (arith, v.position))) in
    (
      w',
      slot,
      ground (arith, v.position),
      Holds-FiresAfter job slot ((ahead - 1) % n) w'
          (record { position = omega (arith, len, v.position) })
          (record {
            once = λ j. omega (arith, in_slot-push_at job slot j w.slots inside, a.nowhere j);
          })
          in_range
          (rw len (mod-ahead w.current_slot ahead n (ticks_ahead-pos w.tick_ms fire_at now))),
    )

-- On a wheel whose position is one of its slots, with a tick longer than 0, scheduling a job that
-- stands in no slot succeeds; with `ahead` the whole ticks to its time, at least 1, the job is in
-- the list of exactly one tick, once: the one after ((ahead - 1) mod slots) others. It is in none
-- of those, and in none of the ticks after it, however many, all of which run.
pub schedule-FiresAfter :
    (job fire_at now : ℕ) (w : TimeWheel)
    → IsTurning w
    → IsAbsent job w
    → 0 < w.tick_ms
    → let ahead = max 1 ((fire_at - now) / w.tick_ms) in
      (w' : TimeWheel) × (slot : ℕ) × (schedule job fire_at now w ≡ some (w', slot))
      × FiresAfter job slot ((ahead - 1) % length w.slots) w'
schedule-FiresAfter job fire_at now w v a pos =
    subst
      (λ (ahead : ℕ).
        (w' : TimeWheel) × (slot : ℕ) × (schedule job fire_at now w ≡ some (w', slot))
        × FiresAfter job slot ((ahead - 1) % length w.slots) w')
      (ticks_ahead-eq w.tick_ms fire_at now) (schedule_ahead job fire_at now w v a pos)

-- After a job is cancelled, no slot of the wheel has it.
pub cancel-IsAbsent : (job : ℕ) (w : TimeWheel) → IsAbsent job (cancel job w)
unfolding cancel
cancel-IsAbsent job w = record { nowhere = λ j. in_slot-cancel job j w.slots }
