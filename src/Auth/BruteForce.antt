-- ===== src/Auth/BruteForce.antt =====
-- The lockout after failed logins: nova-auth/src/brute_force.rs. Instants are nanoseconds of a clock
-- that is an argument. Both maps are held by one state, and a method is one step on both.
pub mod Lockout
pub mod Tests
use nova_runtime.Base.{
  ℕ, ◌+◌, ◌-◌, ◌*◌, ◌/◌, ◌%◌, ◌^◌, Bool, true, false, not, List, [], ◌∷◌, ◌++◌, Option, none, some,
  length, retain, ltb, leb, nat_beq, if◌then◌else◌, Text, Eq, ◌==◌, nat_eq, list_eq,
}
use nova_runtime.Base.Assoc.{Assoc, get, insert, remove}

pub record BruteForceDetector : Type 0 where
  pub attempts : Assoc Text (List ℕ)
  pub max_attempts : ℕ
  pub window_secs : ℕ
  pub lockout_duration_secs : ℕ
  pub locked : Assoc Text ℕ

abbrev pub new : ℕ → ℕ → ℕ → BruteForceDetector
new max_attempts window_secs lockout_duration_secs = record {
  attempts = [];
  max_attempts = max_attempts;
  window_secs = window_secs;
  lockout_duration_secs = lockout_duration_secs;
  locked = [];
}

-- `Duration::from_secs`.
abbrev pub from_secs : ℕ → ℕ
from_secs secs = secs * 1000000000

abbrev pub or_empty : Option (List ℕ) → List ℕ
or_empty none = []
or_empty (some ts) = ts

-- The loop that pops old attempts from the front.
unfoldable pub prune : ℕ → ℕ → List ℕ → List ℕ
prune window now [] = []
prune window now (t ∷ ts) =
    let rest = prune window now ts in if ltb window (now - t) then rest else t ∷ ts

-- The attempts of the identifier with the new one, after the pruning.
unfoldable pub recent : Text → ℕ → BruteForceDetector → List ℕ
recent identifier now d =
    prune (from_secs d.window_secs) now (or_empty (get identifier d.attempts) ++ (now ∷ []))

unfoldable pub record_failure : Text → ℕ → BruteForceDetector → BruteForceDetector
record_failure identifier now d = record d {
  attempts = insert identifier (recent identifier now d) d.attempts;
  locked =
      (if leb d.max_attempts (length (recent identifier now d))
        then insert identifier (now + from_secs d.lockout_duration_secs) d.locked
        else d.locked);
}

unfoldable pub record_success : Text → BruteForceDetector → BruteForceDetector
record_success identifier d = record d {
  attempts = remove identifier d.attempts;
  locked = remove identifier d.locked;
}

-- A lock that has expired is removed, with the attempts.
abbrev pub check_lock : Text → ℕ → BruteForceDetector → Option ℕ → BruteForceDetector × Bool
check_lock identifier now d none = (d, false)
check_lock identifier now d (some lock_until) =
    if ltb now lock_until then (d, true) else (record_success identifier d, false)

unfoldable pub is_locked : Text → ℕ → BruteForceDetector → BruteForceDetector × Bool
is_locked identifier now d = check_lock identifier now d (get identifier d.locked)

abbrev pub remaining : ℕ → Option ℕ → ℕ
remaining now none = 0
remaining now (some lock_until) = ((lock_until - now) / 1000000) % 2 ^ 64

unfoldable pub remaining_lockout_ms : Text → ℕ → BruteForceDetector → ℕ
remaining_lockout_ms identifier now d = remaining now (get identifier d.locked)

unfoldable pub failure_count : Text → BruteForceDetector → ℕ
failure_count identifier d = length (or_empty (get identifier d.attempts))

abbrev pub is_empty : List ℕ → Bool
is_empty [] = true
is_empty (t ∷ ts) = false

-- `attempts.retain` with the pruning inside.
unfoldable pub prune_all : ℕ → ℕ → Assoc Text (List ℕ) → Assoc Text (List ℕ)
prune_all window now [] = []
prune_all window now ((identifier, ts) ∷ m) =
    let rest = prune_all window now m in
    let kept = prune window now ts in if is_empty kept then rest else (identifier, kept) ∷ rest

unfoldable pub cleanup : ℕ → BruteForceDetector → BruteForceDetector
cleanup now d = record d {
  attempts = prune_all (from_secs d.window_secs) now d.attempts;
  locked = retain (λ (e : Text × ℕ). ltb now e.1) d.locked;
}
