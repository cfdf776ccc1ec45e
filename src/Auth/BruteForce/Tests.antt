-- ===== src/Auth/BruteForce/Tests.antt =====
-- The lockout of nova-auth/src/brute_force.rs at concrete inputs.
use nova_runtime.Base.{
  ◌+◌, ◌≡◌, refl, true, false, [], ◌∷◌, ltb, leb, if◌then◌else◌, Text, nat_eq, list_eq, list_beq,
  arith,
}
use nova_runtime.Base.Assoc.{get, insert}
use nova_runtime.Auth.BruteForce.{
  BruteForceDetector, new, from_secs, or_empty, prune, recent, record_failure, is_locked,
  failure_count,
}
use nova_runtime.Auth.BruteForce.Lockout.{InOrder, is_locked-record_failure}

abbrev alice : Text
alice = 97 ∷ []

abbrev bob : Text
bob = 98 ∷ []

-- Two attempts in ten seconds lock for a minute.
abbrev detector : BruteForceDetector
detector = new 2 10 60

abbrev once : BruteForceDetector
once = record detector { attempts = (alice, from_secs 1 ∷ []) ∷ [] }

first_failure : record_failure alice (from_secs 1) detector ≡ once
unfolding record_failure recent prune get insert
first_failure = refl

locks : (is_locked alice (from_secs 30) (record_failure alice (from_secs 2) once)).1 ≡ true
unfolding is_locked record_failure recent prune get insert
locks = refl

too_late : (is_locked alice (from_secs 30) (record_failure alice (from_secs 20) once)).1 ≡ false
unfolding is_locked record_failure recent prune get insert
too_late = refl

is_locked-record_failure_example :
    (is_locked alice (from_secs 30) (record_failure alice (from_secs 2) once)).1 ≡ (
      if (if list_beq alice alice
        then leb 2 (failure_count alice (record_failure alice (from_secs 2) once))
        else false)
      then ltb (from_secs 30) (from_secs 2 + from_secs 60)
      else (is_locked alice (from_secs 30) once).1)
is_locked-record_failure_example =
    is_locked-record_failure alice alice (from_secs 2) (from_secs 30) once

in_order : InOrder (from_secs 2) (or_empty (get alice once.attempts))
unfolding get
in_order = (omega arith, tt, tt)
