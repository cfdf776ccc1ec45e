-- ===== src/Event/Trie/Tests.antt =====
-- The trie of nova-event/src/trie.rs at concrete inputs.
use nova_runtime.Base.{
  ◌+◌, ◌≡◌, refl, Bool, true, List, [], ◌∷◌, map, count_if, retain, ok, nat_beq, list_eq, nat_eq,
}
use nova_runtime.Event.Topic.{
  literal, single_wildcard, multi_wildcard, TopicPattern, EventType, new_topic_pattern,
  new_event_type, matches, split_dots, read_segments,
}
use nova_runtime.Event.Trie.{
  Subscription, new_node, insert, lookup, find_child, under, at_child, at_wildcard,
}
use nova_runtime.Event.Trie.Routing.{insert_all, lookup-insert_all}

abbrev a_plus : TopicPattern
a_plus = record {
  segments = literal (b'a' ∷ []) ∷ single_wildcard ∷ [];
  canonical = b'a' ∷ b'.' ∷ b'+' ∷ [];
}

abbrev a_star : TopicPattern
a_star = record {
  segments = literal (b'a' ∷ []) ∷ multi_wildcard ∷ [];
  canonical = b'a' ∷ b'.' ∷ b'*' ∷ [];
}

abbrev event_ab : EventType
event_ab = record { segments = (b'a' ∷ []) ∷ (b'b' ∷ []) ∷ []; canonical = b'a' ∷ b'.' ∷ b'b' ∷ [] }

abbrev subs : List Subscription
subs =
    record { id = 1; topic = a_plus; active = true }
    ∷ record { id = 2; topic = a_star; active = true }
    ∷ []

event_ab_read : new_event_type (b'a' ∷ b'.' ∷ b'b' ∷ []) ≡ ok event_ab
unfolding new_event_type
event_ab_read = refl

a_plus_made : new_topic_pattern a_plus.canonical ≡ ok a_plus
unfolding new_topic_pattern split_dots read_segments
a_plus_made = refl

a_star_made : new_topic_pattern a_star.canonical ≡ ok a_star
unfolding new_topic_pattern split_dots read_segments
a_star_made = refl

-- `*` also matches nothing at all.
both_found : map (λ s. s.id) (lookup event_ab (insert_all subs new_node)) ≡ 2 ∷ 1 ∷ []
unfolding insert_all insert lookup find_child under at_child at_wildcard
both_found = refl

abbrev is_second : Subscription → Bool
is_second s = nat_beq s.id 2

lookup-insert_all_example :
    count_if is_second (lookup event_ab (insert_all subs new_node))
    ≡ count_if is_second (lookup event_ab new_node)
      + count_if is_second (retain (λ s. matches s.topic event_ab) subs)
lookup-insert_all_example = lookup-insert_all is_second subs event_ab new_node (
  record { text = a_plus.canonical; made = a_plus_made },
  (record { text = a_star.canonical; made = a_star_made }, tt),
)
