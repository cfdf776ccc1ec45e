-- ===== src/Blob/Dedup/Counting.antt =====
-- The counts of nova-blob/src/dedup.rs after calls.
use nova_runtime.Base.{
  ℕ, ◌+◌, ◌-◌, ◌≡◌, ◌∙◌, refl, sym, ap, Bool, true, List, [], ◌∷◌, Option, none, some, Option-cases,
  Bool-cases, inl, inr, if◌then◌else◌, Text, ◌==◌, nat_eq, list_eq, list_beq_iff, arith,
}
use nova_runtime.Base.Assoc.{get, insert, get-insert, get-remove}
use nova_runtime.Blob.Dedup.{
  ChunkRecord, DeduplicationEngine, record_chunk, release_chunk, count_of, get_ref_count,
  remove_tracked,
}

pub data Call : Type 0 where
  records : Text → ℕ → ℕ → Call
  releases : Text → Call
  forgets : Text → Call

abbrev pub step : Call → DeduplicationEngine → DeduplicationEngine
step (records hash size now) m = (record_chunk hash size now m).0
step (releases hash) m = (release_chunk hash m).0
step (forgets hash) m = remove_tracked hash m

abbrev pub run : List Call → DeduplicationEngine → DeduplicationEngine
run [] m = m
run (c ∷ cs) m = run cs (step c m)

-- What one call does to the count of one chunk.
abbrev pub count_step : Text → Call → ℕ → ℕ
count_step h (records hash size now) n = if hash == h then n + 1 else n
count_step h (releases hash) n = if hash == h then n - 1 else n
count_step h (forgets hash) n = if hash == h then 0 else n

abbrev pub count_calls : Text → List Call → ℕ → ℕ
count_calls h [] n = n
count_calls h (c ∷ cs) n = count_calls h cs (count_step h c n)

count-insert :
    (h hash : Text) (r : ChunkRecord) (m : DeduplicationEngine)
    → get_ref_count h (insert hash r m) ≡ (if hash == h then r.ref_count else get_ref_count h m)
unfolding get_ref_count
count-insert h hash r m =
    rw (get-insert hash h r m)
      (elim (Bool-cases (hash == h)) [ inl k ↦ rw k refl | inr k ↦ rw k refl ])

count-at :
    (h hash : Text) (m : DeduplicationEngine) (o : Option ChunkRecord)
    → (hash == h) ≡ true
    → get hash m ≡ o
    → get_ref_count h m ≡ count_of o
unfolding get_ref_count
count-at h hash m o k e =
    ap count_of (ap (λ (t : Text). get t m) (sym ((list_beq_iff hash h).0 k)) ∙ e)

-- Putting back a record of another count.
count-change :
    (h hash : Text) (r : ChunkRecord) (m : DeduplicationEngine) (o : Option ChunkRecord) (n : ℕ → ℕ)
    → get hash m ≡ o
    → r.ref_count ≡ n (count_of o)
    → get_ref_count h (insert hash r m)
      ≡ (if hash == h then n (get_ref_count h m) else get_ref_count h m)
count-change h hash r m o n e same = count-insert h hash r m ∙ elim (Bool-cases (hash == h)) [
  | inl k ↦ rw k (same ∙ ap n (sym (count-at h hash m o k e)))
  | inr k ↦ rw k refl
]

get_ref_count-record_chunk :
    (h hash : Text) (size now : ℕ) (m : DeduplicationEngine)
    → get_ref_count h (record_chunk hash size now m).0
      ≡ (if hash == h then get_ref_count h m + 1 else get_ref_count h m)
unfolding record_chunk
get_ref_count-record_chunk h hash size now m = elim (Option-cases (get hash m)) [
  | inl e ↦ rw (e, record_chunk) (count-change h hash _ m none (λ n. n + 1) e refl)
  | inr (r, e) ↦ rw (e, record_chunk) (count-change h hash _ m (some r) (λ n. n + 1) e refl)
]

zero_stays : (b : Bool) (n : ℕ) → n ≡ 0 → n ≡ (if b then n - 1 else n)
zero_stays b n h = ground arith

get_ref_count-release_chunk :
    (h hash : Text) (m : DeduplicationEngine)
    → get_ref_count h (release_chunk hash m).0
      ≡ (if hash == h then get_ref_count h m - 1 else get_ref_count h m)
unfolding release_chunk
get_ref_count-release_chunk h hash m = elim (Option-cases (get hash m)) [
  | inl e ↦
      rw (e, release_chunk)
        (elim (Bool-cases (hash == h)) [
          | inl k ↦ zero_stays (hash == h) (get_ref_count h m) (count-at h hash m none k e)
          | inr k ↦ rw k refl
        ])
  | inr (r, e) ↦ rw (e, release_chunk) (count-change h hash _ m (some r) (λ n. n - 1) e refl)
]

get_ref_count-remove_tracked :
    (h hash : Text) (m : DeduplicationEngine)
    → get_ref_count h (remove_tracked hash m) ≡ (if hash == h then 0 else get_ref_count h m)
unfolding remove_tracked get_ref_count
get_ref_count-remove_tracked h hash m =
    rw (get-remove hash h m)
      (elim (Bool-cases (hash == h)) [ inl k ↦ rw k refl | inr k ↦ rw k refl ])

get_ref_count-step :
    (h : Text) (c : Call) (m : DeduplicationEngine)
    → get_ref_count h (step c m) ≡ count_step h c (get_ref_count h m)
get_ref_count-step h (records hash size now) m = get_ref_count-record_chunk h hash size now m
get_ref_count-step h (releases hash) m = get_ref_count-release_chunk h hash m
get_ref_count-step h (forgets hash) m = get_ref_count-remove_tracked h hash m

-- After any calls the count of a chunk is the one that the calls for that chunk alone make of its
-- count before: one more for a recording, one less but not below 0 for a release, 0 for a removal.
pub get_ref_count-run :
    (h : Text) (cs : List Call) (m : DeduplicationEngine)
    → get_ref_count h (run cs m) ≡ count_calls h cs (get_ref_count h m)
get_ref_count-run h [] m = refl
get_ref_count-run h (c ∷ cs) m =
    get_ref_count-run h cs (step c m)
    ∙ ap (λ (n : ℕ). count_calls h cs n) (get_ref_count-step h c m)
