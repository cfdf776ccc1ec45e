-- ===== src/Event/Topic.antt =====
-- Event types and topic patterns: `EventType` of nova-event/src/event.rs and `TopicPattern` of
-- nova-event/src/subscription.rs. The error texts are left out.
use nova_runtime.Base.{
  ℕ, ◌≡◌, Bool, true, false, List, [], ◌∷◌, any, if◌then◌else◌, nat_beq, ◌==◌, list_eq, nat_eq,
  list_beq_iff, Text, Result, ok, err, ◌>>=◌, ok_inj, >>=-eq-ok, arith, Bool-cases, inl, inr,
}

pub data PatternSegment : Type 0 where
  literal : Text → PatternSegment
  single_wildcard multi_wildcard : PatternSegment

pub data EventError : Type 0 where
  invalid_pattern invalid_event_type : EventError

pub record EventType : Type 0 where
  pub segments : List Text
  pub canonical : Text

pub record TopicPattern : Type 0 where
  pub segments : List PatternSegment
  pub canonical : Text

prepend : ℕ → List Text → List Text
prepend c [] = (c ∷ []) ∷ []
prepend c (s ∷ ss) = (c ∷ s) ∷ ss

-- `str::split('.')`.
unfoldable pub split_dots : Text → List Text
unfolding prepend
split_dots [] = [] ∷ []
split_dots (c ∷ cs) =
    let rest = split_dots cs in if nat_beq c b'.' then [] ∷ rest else prepend c rest

abbrev pub is_empty {ℓ} : {A : Type ℓ} → List A → Bool
is_empty [] = true
is_empty (x ∷ xs) = false

abbrev pub plus : Text
plus = b'+' ∷ []

abbrev pub star : Text
star = b'*' ∷ []

unfoldable pub new_event_type : Text → Result EventError EventType
unfolding split_dots
new_event_type canonical =
    let segments = split_dots canonical in
    if is_empty canonical
    then err invalid_event_type
    else if any is_empty segments
    then err invalid_event_type
    else if any (λ s. if s == plus then true else s == star) segments
    then err invalid_event_type
    else ok (record { segments = segments; canonical = canonical })

segment_of : Text → PatternSegment
segment_of s =
    if s == plus then single_wildcard else if s == star then multi_wildcard else literal s

-- The loop over the raw segments: what comes after `*` is an error.
unfoldable pub read_segments : Bool → List Text → Result EventError (List PatternSegment)
unfolding segment_of
read_segments has_multi [] = ok []
read_segments true (s ∷ ss) = err invalid_pattern
read_segments false (s ∷ ss) = read_segments (s == star) ss >>= λ rest. ok (segment_of s ∷ rest)

unfoldable pub new_topic_pattern : Text → Result EventError TopicPattern
new_topic_pattern pattern =
    let raw_segments = split_dots pattern in
    if is_empty pattern
    then err invalid_pattern
    else if any is_empty raw_segments
    then err invalid_pattern
    else (read_segments false raw_segments >>= λ segments.
        ok (record { segments = segments; canonical = pattern }))

unfoldable pub segments_match : List PatternSegment → List Text → Bool
segments_match (multi_wildcard ∷ ps) es = true
segments_match (single_wildcard ∷ ps) [] = false
segments_match (single_wildcard ∷ ps) (e ∷ es) = segments_match ps es
segments_match (literal p ∷ ps) [] = false
segments_match (literal p ∷ ps) (e ∷ es) = if p == e then segments_match ps es else false
segments_match [] [] = true
segments_match [] (e ∷ es) = false

unfoldable pub matches : TopicPattern → EventType → Bool
unfolding segments_match
matches p e = segments_match p.segments e.segments

-- A multi-level wildcard stands last.
abbrev pub MultiLast : List PatternSegment → Type 0
MultiLast [] = Unit
MultiLast (literal l ∷ ps) = MultiLast ps
MultiLast (single_wildcard ∷ ps) = MultiLast ps
MultiLast (multi_wildcard ∷ ps) = ps ≡ []

-- Nothing may follow a multi-level wildcard.
read_segments-after :
    (ss : List Text) (ps : List PatternSegment) → read_segments true ss ≡ ok ps → ps ≡ []
unfolding read_segments
read_segments-after [] ps h = ground arith
read_segments-after (s ∷ ss) ps h = cc

segment_of-star : (s : Text) → (s == star) ≡ true → segment_of s ≡ multi_wildcard
unfolding segment_of
segment_of-star s h = rw ((list_beq_iff s star).0 h)

MultiLast-segment_of :
    (s : Text) (ps : List PatternSegment)
    → (s == star) ≡ false
    → MultiLast ps
    → MultiLast (segment_of s ∷ ps)
unfolding segment_of
MultiLast-segment_of s ps h m = elim (Bool-cases (s == plus)) [
  | inl e ↦ rw e m
  | inr e ↦ rw (e, h) m
]

pub read_segments-MultiLast :
    (ss : List Text) (ps : List PatternSegment) → read_segments false ss ≡ ok ps → MultiLast ps
unfolding read_segments
read_segments-MultiLast [] ps h = rw (← ok_inj h) tt
read_segments-MultiLast (s ∷ ss) ps h =
    let (rest, read, whole) = >>=-eq-ok (read_segments (s == star) ss) _ h in
    rw (← ok_inj whole) (elim (Bool-cases (s == star)) [
      | inl last ↦ rw (segment_of-star s last) (read_segments-after ss rest (rw last at read))
      | inr more ↦
          MultiLast-segment_of s rest more (read_segments-MultiLast ss rest (rw more at read))
    ])

pub new_topic_pattern-MultiLast :
    (text : Text) (p : TopicPattern) → new_topic_pattern text ≡ ok p → MultiLast p.segments
unfolding new_topic_pattern
new_topic_pattern-MultiLast text p h =
    ground (arith, read_segments-MultiLast (split_dots text) p.segments)
