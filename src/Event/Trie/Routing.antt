-- ===== src/Event/Trie/Routing.antt =====
-- Which subscriptions an event reaches: nova-event/src/trie.rs against `segments_match` of
-- nova-event/src/subscription.rs.
use nova_runtime.Base.{
  ℕ, ◌+◌, ◌≡◌, ◌∙◌, refl, ap, Bool, true, false, List, [], ◌∷◌, ◌++◌, count_if, count_if-append,
  retain, All, if◌then◌else◌, ◌==◌, list_eq, nat_eq, list_beq_iff, Text, arith, Bool-cases, inl,
  inr, ok,
}
use nova_runtime.Event.Topic.{
  PatternSegment, literal, single_wildcard, multi_wildcard, TopicPattern, EventType, MultiLast,
  segments_match, matches, new_topic_pattern, new_topic_pattern-MultiLast,
}
use nova_runtime.Event.Trie.{
  Subscription, TrieNode, node, Children, childless, child, Wildcard, absent, present, new_node,
  at_child, at_wildcard, insert_below, insert, find_child, own_subscriptions, under, lookup_below,
  lookup,
}

or_new : Wildcard → TrieNode
or_new absent = new_node
or_new (present n) = n

find_child-at_child :
    (l k : Text) (f : TrieNode → TrieNode) (cs : Children)
    → find_child k (at_child l f cs)
      ≡ (if l == k then present (f (or_new (find_child l cs))) else find_child k cs)
unfolding find_child at_child or_new
find_child-at_child l k f childless = refl
find_child-at_child l k f (child j n cs) =
    ground
      (arith, list_beq_iff l k, list_beq_iff j l, list_beq_iff j k, find_child-at_child l k f cs)

at_wildcard-eq : (f : TrieNode → TrieNode) (w : Wildcard) → at_wildcard f w ≡ present (f (or_new w))
unfolding at_wildcard or_new
at_wildcard-eq f absent = refl
at_wildcard-eq f (present n) = refl

lookup-new_node : (es : List Text) → lookup_below es new_node ≡ []
unfolding lookup_below under find_child
lookup-new_node [] = refl
lookup-new_node (e ∷ es) = refl

under-or_new :
    (es : List Text) (w : Wildcard) → lookup_below es (or_new w) ≡ under (lookup_below es) w
unfolding under or_new
under-or_new es absent = lookup-new_node es
under-or_new es (present n) = refl

own-or_new : (w : Wildcard) → own_subscriptions (or_new w) ≡ under own_subscriptions w
unfolding under or_new own_subscriptions
own-or_new absent = refl
own-or_new (present n) = refl

own-insert :
    (sub : Subscription) (t : TrieNode)
    → own_subscriptions (insert_below [] sub t) ≡ own_subscriptions t ++ sub ∷ []
unfolding own_subscriptions insert_below
own-insert sub (node cs sw mw subs) = refl

module _ (p : Subscription → Bool) (sub : Subscription) where
  -- What the new subscription adds to the count where its pattern matches.
  abbrev gain : Bool → ℕ
  gain b = if b then count_if p (sub ∷ []) else 0

  Gains : List Subscription → List Subscription → Bool → Type 0
  Gains before after b = count_if p after ≡ count_if p before + gain b

  child_step :
      (es : List Text) (l e : Text) (f : TrieNode → TrieNode) (cs : Children) (b : Bool)
      → Gains
          (lookup_below es (or_new (find_child l cs)))
          (lookup_below es (f (or_new (find_child l cs))))
          b
      → Gains
          (under (lookup_below es) (find_child e cs))
          (under (lookup_below es) (find_child e (at_child l f cs)))
          (if l == e then b else false)
  unfolding Gains under
  child_step es l e f cs b ih = rw (find_child-at_child l e f cs) (elim (Bool-cases (l == e)) [
    | inl same ↦ rw same (
        ih
        ∙ ap (λ (xs : List Subscription). count_if p xs + gain b)
            (under-or_new es (find_child l cs)
              ∙ ap (λ (k : Text). under (lookup_below es) (find_child k cs))
                  ((list_beq_iff l e).0 same)))
    | inr other ↦ rw other (omega arith)
  ])

  wildcard_step :
      (es : List Text) (f : TrieNode → TrieNode) (w : Wildcard) (b : Bool)
      → Gains (lookup_below es (or_new w)) (lookup_below es (f (or_new w))) b
      → Gains (under (lookup_below es) w) (under (lookup_below es) (at_wildcard f w)) b
  unfolding Gains under
  wildcard_step es f w b ih =
      rw (at_wildcard-eq f w)
        (ih ∙ ap (λ (xs : List Subscription). count_if p xs + gain b) (under-or_new es w))

  multi_step :
      (w : Wildcard)
      → Gains
          (under own_subscriptions w)
          (under own_subscriptions (at_wildcard (insert_below [] sub) w))
          true
  unfolding Gains under
  multi_step w =
      rw
        (
          at_wildcard-eq (insert_below [] sub) w,
          own-insert sub (or_new w),
          own-or_new w,
          count_if-append p (under own_subscriptions w) (sub ∷ []),
        )
        refl

  count-append3 :
      (as_ bs cs : List Subscription)
      → count_if p (as_ ++ (bs ++ cs)) ≡ count_if p as_ + (count_if p bs + count_if p cs)
  count-append3 as_ bs cs = rw (count_if-append p as_ (bs ++ cs), count_if-append p bs cs) refl

  count-lookup-insert :
      (ps : List PatternSegment) (es : List Text) (t : TrieNode)
      → MultiLast ps
      → count_if p (lookup_below es (insert_below ps sub t))
        ≡ count_if p (lookup_below es t) + gain (segments_match ps es)
  unfolding insert_below lookup_below segments_match Gains
  count-lookup-insert [] [] (node cs sw mw subs) h = omega (
    arith,
    count_if-append p (subs ++ sub ∷ []) (under own_subscriptions mw),
    count_if-append p subs (sub ∷ []),
    count_if-append p subs (under own_subscriptions mw),
  )
  count-lookup-insert [] (e ∷ es) (node cs sw mw subs) h = omega arith
  count-lookup-insert (literal l ∷ ps) [] (node cs sw mw subs) h = omega arith
  count-lookup-insert (single_wildcard ∷ ps) [] (node cs sw mw subs) h = omega arith
  count-lookup-insert (literal l ∷ ps) (e ∷ es) (node cs sw mw subs) h =
      let step =
        child_step es l e (insert_below ps sub) cs (segments_match ps es)
          (count-lookup-insert ps es (or_new (find_child l cs)) h) in
      simp count-append3 (omega (arith, step))
  count-lookup-insert (single_wildcard ∷ ps) (e ∷ es) (node cs sw mw subs) h =
      let step =
        wildcard_step es (insert_below ps sub) sw (segments_match ps es)
          (count-lookup-insert ps es (or_new sw) h) in
      simp count-append3 (omega (arith, step))
  count-lookup-insert (multi_wildcard ∷ ps) [] (node cs sw mw subs) h =
      rw h (simp (count_if-append, multi_step mw) (omega arith))
  count-lookup-insert (multi_wildcard ∷ ps) (e ∷ es) (node cs sw mw subs) h =
      rw h (simp (count-append3, multi_step mw) (omega arith))

  lookup-insert :
      (pat : TopicPattern) (ev : EventType) (t : TrieNode)
      → MultiLast pat.segments
      → count_if p (lookup ev (insert pat sub t)) ≡ count_if p (lookup ev t) + gain (matches pat ev)
  unfolding lookup insert matches
  lookup-insert pat ev t valid = count-lookup-insert pat.segments ev.segments t valid

-- A trie holding the subscriptions, each inserted under its topic.
unfoldable pub insert_all : List Subscription → TrieNode → TrieNode
insert_all [] t = t
insert_all (s ∷ ss) t = insert_all ss (insert s.topic s t)

-- The subscription's topic is one that `TopicPattern::new` made.
pub record HasTopic (s : Subscription) : Type 0 where
  pub text : Text
  pub made : new_topic_pattern text ≡ ok s.topic

-- If every subscription has a topic that the pattern parser accepted, then a lookup after
-- inserting them all under their topics finds what it found before and those whose topic matches
-- the event, each as often as it was inserted: for each test, as many pass it.
pub lookup-insert_all :
    (p : Subscription → Bool) (ss : List Subscription) (ev : EventType) (t : TrieNode)
    → All HasTopic ss
    → count_if p (lookup ev (insert_all ss t))
      ≡ count_if p (lookup ev t) + count_if p (retain (λ s. matches s.topic ev) ss)
unfolding insert_all
lookup-insert_all p [] ev t h = omega arith
lookup-insert_all p (s ∷ ss) ev t h =
    let valid = new_topic_pattern-MultiLast h.0.text s.topic h.0.made in
    ground (
      arith,
      lookup-insert_all p ss ev (insert s.topic s t) h.1,
      lookup-insert p s s.topic ev t valid,
    )
