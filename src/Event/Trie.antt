-- ===== src/Event/Trie.antt =====
-- The subscription trie: nova-event/src/trie.rs. The locks of the nodes are left out: a method is one
-- step. Of a subscription the trie reads its id and its `active` flag; `topic` is kept for the
-- statements and the rest of its fields is left out. A node's map of literal children is a list of
-- entries, which `insert` extends at the end.
pub mod Routing
pub mod Removal
pub mod Tests
use nova_runtime.Base.{
  ℕ, Bool, true, false, List, [], ◌∷◌, ◌++◌, any, if◌then◌else◌, nat_beq, ◌==◌, list_eq, nat_eq,
  Text, Option, none, some,
}
use nova_runtime.Event.Topic.{
  PatternSegment, literal, single_wildcard, multi_wildcard, TopicPattern, EventType,
}

pub record Subscription : Type 0 where
  pub id : ℕ
  pub topic : TopicPattern
  pub active : Bool

mutual
  pub data TrieNode : Type 0 where
    node : Children → Wildcard → Wildcard → List Subscription → TrieNode

  -- `literal_children`
  pub data Children : Type 0 where
    childless : Children
    child : Text → TrieNode → Children → Children

  -- `single_wildcard` and `multi_wildcard`
  pub data Wildcard : Type 0 where
    absent : Wildcard
    present : TrieNode → Wildcard

abbrev pub new_node : TrieNode
new_node = node childless absent absent []

-- `entry(lit).or_insert_with(new)`, and what is done to the entry.
unfoldable pub at_child : Text → (TrieNode → TrieNode) → Children → Children
at_child l f childless = child l (f new_node) childless
at_child l f (child k n cs) = if k == l then child k (f n) cs else child k n (at_child l f cs)

unfoldable pub at_wildcard : (TrieNode → TrieNode) → Wildcard → Wildcard
at_wildcard f absent = present (f new_node)
at_wildcard f (present n) = present (f n)

unfoldable pub insert_below : List PatternSegment → Subscription → TrieNode → TrieNode
insert_below [] sub (node cs sw mw subs) = node cs sw mw (subs ++ sub ∷ [])
insert_below (literal l ∷ ps) sub (node cs sw mw subs) =
    node (at_child l (insert_below ps sub) cs) sw mw subs
insert_below (single_wildcard ∷ ps) sub (node cs sw mw subs) =
    node cs (at_wildcard (insert_below ps sub) sw) mw subs
insert_below (multi_wildcard ∷ ps) sub (node cs sw mw subs) =
    node cs sw (at_wildcard (insert_below ps sub) mw) subs

unfoldable pub insert : TopicPattern → Subscription → TrieNode → TrieNode
unfolding insert_below
insert pattern = insert_below pattern.segments

unfoldable pub find_child : Text → Children → Wildcard
find_child l childless = absent
find_child l (child k n cs) = if k == l then present n else find_child l cs

unfoldable pub own_subscriptions : TrieNode → List Subscription
own_subscriptions (node cs sw mw subs) = subs

unfoldable pub under : (TrieNode → List Subscription) → Wildcard → List Subscription
under f absent = []
under f (present n) = f n

-- `lookup_recursive`, with the results that it adds, in order.
unfoldable pub lookup_below : List Text → TrieNode → List Subscription
unfolding own_subscriptions
lookup_below [] (node cs sw mw subs) = subs ++ under own_subscriptions mw
lookup_below (first ∷ rest) (node cs sw mw subs) =
    under own_subscriptions mw
    ++ (under (lookup_below rest) (find_child first cs) ++ under (lookup_below rest) sw)

unfoldable pub lookup : EventType → TrieNode → List Subscription
unfolding lookup_below
lookup event_type = lookup_below event_type.segments

unfoldable mutual
  pub collect : TrieNode → List Subscription
  collect (node cs sw mw subs) =
      subs ++ (collect_children cs ++ (collect_wildcard sw ++ collect_wildcard mw))

  pub collect_children : Children → List Subscription
  collect_children childless = []
  collect_children (child k n cs) = collect n ++ collect_children cs

  pub collect_wildcard : Wildcard → List Subscription
  collect_wildcard absent = []
  collect_wildcard (present n) = collect n

unfoldable pub all_subscriptions : TrieNode → List Subscription
unfolding collect
all_subscriptions n = collect n

-- `position` and `Vec::remove` of the first subscription with the id.
unfoldable pub remove_first : ℕ → List Subscription → List Subscription
remove_first id [] = []
remove_first id (s ∷ ss) = if nat_beq s.id id then ss else s ∷ remove_first id ss

abbrev pub has_id : ℕ → List Subscription → Bool
has_id id = any (λ s. nat_beq s.id id)

-- `find` of the first subscription with the id, whose flag is set.
unfoldable pub set_first : ℕ → Bool → List Subscription → List Subscription
set_first id active [] = []
set_first id active (s ∷ ss) =
    if nat_beq s.id id then record s { active = active } ∷ ss else s ∷ set_first id active ss

-- Both `remove_recursive` and `set_active_recursive` change the list of the first node, in the order
-- of the traversal, that has a subscription with the id: `change` is what they do to it.
unfoldable mutual
  pub change_first : ℕ → (List Subscription → List Subscription) → TrieNode → Bool × TrieNode
  change_first id change (node cs sw mw subs) =
      if has_id id subs
      then (true, node cs sw mw (change subs))
      else (let (in_children, cs') = change_children id change cs in
          if in_children
          then (true, node cs' sw mw subs)
          else (let (in_single, sw') = change_wildcard id change sw in
              if in_single
              then (true, node cs sw' mw subs)
              else (let (in_multi, mw') = change_wildcard id change mw in
                  (in_multi, node cs sw mw' subs))))

  pub change_children : ℕ → (List Subscription → List Subscription) → Children → Bool × Children
  change_children id change childless = (false, childless)
  change_children id change (child k n cs) =
      let (in_node, n') = change_first id change n in
      let (in_rest, cs') = change_children id change cs in
      if in_node then (true, child k n' cs) else (in_rest, child k n cs')

  pub change_wildcard : ℕ → (List Subscription → List Subscription) → Wildcard → Bool × Wildcard
  change_wildcard id change absent = (false, absent)
  change_wildcard id change (present n) =
      let (in_node, n') = change_first id change n in (in_node, present n')

unfoldable pub remove : ℕ → TrieNode → Bool × TrieNode
remove id = change_first id (remove_first id)

unfoldable pub set_active : ℕ → Bool → TrieNode → Bool × TrieNode
set_active id active = change_first id (set_first id active)
