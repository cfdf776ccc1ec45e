-- ===== src/Auth/BruteForce/Lockout.antt =====
-- When nova-auth/src/brute_force.rs locks an identifier out.
use nova_runtime.Base.{
  ℕ, ◌+◌, ◌-◌, ◌≤◌, ◌≡◌, ◌∙◌, refl, sym, ap, Bool, true, false, List, [], ◌∷◌, ◌++◌, Option, none,
  some, Bool-cases, inl, inr, length, count_if, count_if-append, All, All-append, ltb, leb,
  if◌then◌else◌, Text, ◌==◌, nat_eq, list_eq, arith,
}
use nova_runtime.Base.Assoc.{get, insert, get-insert, get-remove, get-insert_self}
use nova_runtime.Auth.BruteForce.{
  BruteForceDetector, from_secs, or_empty, prune, recent, record_failure, record_success,
  check_lock, is_locked, failure_count,
}

abbrev pub locked_at : ℕ → Option ℕ → Bool
locked_at now none = false
locked_at now (some lock_until) = ltb now lock_until

check_lock-eq :
    (id : Text) (t : ℕ) (d : BruteForceDetector) (o : Option ℕ)
    → (check_lock id t d o).1 ≡ locked_at t o
check_lock-eq id t d none = refl
check_lock-eq id t d (some u) = elim (Bool-cases (ltb t u)) [
  | inl h ↦ rw h refl
  | inr h ↦ rw h refl
]

is_locked-eq :
    (id : Text) (t : ℕ) (d : BruteForceDetector)
    → (is_locked id t d).1 ≡ locked_at t (get id d.locked)
unfolding is_locked
is_locked-eq id t d = check_lock-eq id t d (get id d.locked)

failure_count-recent :
    (id : Text) (now : ℕ) (d : BruteForceDetector)
    → failure_count id (record_failure id now d) ≡ length (recent id now d)
unfolding failure_count record_failure
failure_count-recent id now d = rw (get-insert_self id (recent id now d) d.attempts) refl

locked-record_failure :
    (id other : Text) (now : ℕ) (d : BruteForceDetector) (enough : Bool)
    → get other
        (if enough then insert id (now + from_secs d.lockout_duration_secs) d.locked else d.locked)
      ≡ (if (if id == other then enough else false)
          then some (now + from_secs d.lockout_duration_secs)
          else get other d.locked)
locked-record_failure id other now d true =
    get-insert id other (now + from_secs d.lockout_duration_secs) d.locked
    ∙ elim (Bool-cases (id == other)) [ inl h ↦ rw h refl | inr h ↦ rw h refl ]
locked-record_failure id other now d false = elim (Bool-cases (id == other)) [
  | inl h ↦ rw h refl
  | inr h ↦ rw h refl
]

locked_at-if :
    (b : Bool) (t u : ℕ) (o : Option ℕ)
    → locked_at t (if b then some u else o) ≡ (if b then ltb t u else locked_at t o)
locked_at-if true t u o = refl
locked_at-if false t u o = refl

locked-after :
    (id other : Text) (now : ℕ) (d : BruteForceDetector)
    → get other (record_failure id now d).locked ≡ (
        if (if id == other then leb d.max_attempts (length (recent id now d)) else false)
        then some (now + from_secs d.lockout_duration_secs)
        else get other d.locked)
unfolding record_failure
locked-after id other now d =
    locked-record_failure id other now d (leb d.max_attempts (length (recent id now d)))

-- After a failure of an identifier, that identifier is locked until the lockout duration after the
-- failure if its failure count is then at least the maximum, and otherwise exactly as it was
-- before; any other identifier is locked exactly as it was before.
pub is_locked-record_failure :
    (id other : Text) (now t : ℕ) (d : BruteForceDetector)
    → (is_locked other t (record_failure id now d)).1 ≡ (
        if (if id == other
          then leb d.max_attempts (failure_count id (record_failure id now d))
          else false)
        then ltb t (now + from_secs d.lockout_duration_secs)
        else (is_locked other t d).1)
is_locked-record_failure id other now t d =
    let enough = (if id == other then leb d.max_attempts (length (recent id now d)) else false) in
    let until = now + from_secs d.lockout_duration_secs in
    is_locked-eq other t (record_failure id now d)
    ∙ ap (λ (o : Option ℕ). locked_at t o) (locked-after id other now d)
    ∙ locked_at-if enough t until (get other d.locked)
    ∙ ap (λ (b : Bool). if enough then ltb t until else b) (sym (is_locked-eq other t d))
    ∙ ap
        (λ (n : ℕ).
          if (if id == other then leb d.max_attempts n else false)
          then ltb t until
          else (is_locked other t d).1)
        (sym (failure_count-recent id now d))

-- Instants in order, none after `now`.
abbrev pub InOrder : ℕ → List ℕ → Type 0
InOrder now [] = Unit
InOrder now (t ∷ ts) = (t ≤ now) × All (λ (u : ℕ). t ≤ u) ts × InOrder now ts

count_if-within :
    (window now t : ℕ) (ts : List ℕ)
    → now - t ≤ window
    → All (λ (u : ℕ). t ≤ u) ts
    → count_if (λ u. leb (now - u) window) ts ≡ length ts
count_if-within window now t [] h a = refl
count_if-within window now t (u ∷ ts) h a =
    let near : now - u ≤ window = omega (arith, h, a.0) in
    ground (arith, near, count_if-within window now t ts h a.1)

length-prune :
    (window now : ℕ) (ts : List ℕ)
    → InOrder now ts
    → length (prune window now ts) ≡ count_if (λ t. leb (now - t) window) ts
unfolding prune
length-prune window now [] h = refl
length-prune window now (t ∷ ts) h = elim (Bool-cases (ltb window (now - t))) [
  | inl old ↦ rw old (ground (arith, old, length-prune window now ts h.2))
  | inr near ↦
      let low : now - t ≤ window = ground (arith, near) in
      rw near (ground (arith, low, count_if-within window now t ts low h.1))
]

InOrder-append : (now : ℕ) (ts : List ℕ) → InOrder now ts → InOrder now (ts ++ (now ∷ []))
InOrder-append now [] h = (omega arith, tt, tt)
InOrder-append now (t ∷ ts) h =
    (h.0, All-append (λ (u : ℕ). t ≤ u) ts (now ∷ []) h.1 (h.0, tt), InOrder-append now ts h.2)

-- If the attempts of an identifier are in order of time and none is later than now, then after a
-- failure its failure count is the number of those attempts in the window before now and one more.
pub failure_count-record_failure :
    (id : Text) (now : ℕ) (d : BruteForceDetector)
    → InOrder now (or_empty (get id d.attempts))
    → failure_count id (record_failure id now d)
      ≡ count_if (λ t. leb (now - t) (from_secs d.window_secs)) (or_empty (get id d.attempts)) + 1
unfolding recent
failure_count-record_failure id now d h =
    let ts = or_empty (get id d.attempts) in
    let window = from_secs d.window_secs in
    let self : leb (now - now) window ≡ true = ground arith in
    failure_count-recent id now d
    ∙ length-prune window now (ts ++ (now ∷ [])) (InOrder-append now ts h)
    ∙ count_if-append (λ t. leb (now - t) window) ts (now ∷ [])
    ∙ ap (λ (b : Bool). count_if (λ t. leb (now - t) window) ts + (if b then 1 else 0)) self

-- After a success its identifier is not locked and has no failures, and every other identifier is
-- locked and has failures as before.
pub record_success-forgets :
    (id other : Text) (t : ℕ) (d : BruteForceDetector)
    → ((is_locked other t (record_success id d)).1
        ≡ (if id == other then false else (is_locked other t d).1))
      × (failure_count other (record_success id d)
          ≡ (if id == other then 0 else failure_count other d))
unfolding record_success failure_count
record_success-forgets id other t d = (
  is_locked-eq other t (record_success id d)
      ∙ ap (λ (o : Option ℕ). locked_at t o) (get-remove id other d.locked)
      ∙ elim (Bool-cases (id == other)) [
        | inl h ↦ rw h refl
        | inr h ↦ rw h (sym (is_locked-eq other t d))
      ],
  ap (λ (o : Option (List ℕ)). length (or_empty o)) (get-remove id other d.attempts)
      ∙ elim (Bool-cases (id == other)) [ inl h ↦ rw h refl | inr h ↦ rw h refl ],
)
