-- ===== src/Event/Trie/Removal.antt =====
-- `remove` and `set_active` against `all_subscriptions`: nova-event/src/trie.rs.
use nova_runtime.Base.{
  ℕ, ◌≡◌, refl, sym, Bool, true, false, List, [], ◌∷◌, ◌++◌, if◌then◌else◌, Text, arith, Bool-cases,
  inl, inr,
}
use nova_runtime.Event.Trie.{
  Subscription, TrieNode, node, Children, childless, child, Wildcard, absent, present, collect,
  collect_children, collect_wildcard, all_subscriptions, remove_first, set_first, has_id,
  change_first, change_children, change_wildcard, remove, set_active,
}

module _ (id : ℕ) where
  -- A change of the first subscription with the id.
  pub record IsFirstChange (change : List Subscription → List Subscription) : Type 0 where
    pub none_there : (xs : List Subscription) → has_id id xs ≡ false → change xs ≡ xs
    pub in_front :
        (xs ys : List Subscription) → has_id id xs ≡ true → change (xs ++ ys) ≡ change xs ++ ys
    pub behind :
        (xs ys : List Subscription) → has_id id xs ≡ false → change (xs ++ ys) ≡ xs ++ change ys

  has_id-append :
      (xs ys : List Subscription)
      → has_id id (xs ++ ys) ≡ (if has_id id xs then true else has_id id ys)
  has_id-append [] ys = refl
  has_id-append (x ∷ xs) ys = ground (arith, has_id-append xs ys)

  remove_first-none : (xs : List Subscription) → has_id id xs ≡ false → remove_first id xs ≡ xs
  unfolding remove_first
  remove_first-none [] h = refl
  remove_first-none (x ∷ xs) h = ground (arith, remove_first-none xs)

  remove_first-in_front :
      (xs ys : List Subscription)
      → has_id id xs ≡ true
      → remove_first id (xs ++ ys) ≡ remove_first id xs ++ ys
  unfolding remove_first
  remove_first-in_front [] ys h = cc
  remove_first-in_front (x ∷ xs) ys h = ground (arith, remove_first-in_front xs ys)

  remove_first-behind :
      (xs ys : List Subscription)
      → has_id id xs ≡ false
      → remove_first id (xs ++ ys) ≡ xs ++ remove_first id ys
  unfolding remove_first
  remove_first-behind [] ys h = refl
  remove_first-behind (x ∷ xs) ys h = ground (arith, remove_first-behind xs ys)

  set_first-none :
      (a : Bool) (xs : List Subscription) → has_id id xs ≡ false → set_first id a xs ≡ xs
  unfolding set_first
  set_first-none a [] h = refl
  set_first-none a (x ∷ xs) h = ground (arith, set_first-none a xs)

  set_first-in_front :
      (a : Bool) (xs ys : List Subscription)
      → has_id id xs ≡ true
      → set_first id a (xs ++ ys) ≡ set_first id a xs ++ ys
  unfolding set_first
  set_first-in_front a [] ys h = cc
  set_first-in_front a (x ∷ xs) ys h = ground (arith, set_first-in_front a xs ys)

  set_first-behind :
      (a : Bool) (xs ys : List Subscription)
      → has_id id xs ≡ false
      → set_first id a (xs ++ ys) ≡ xs ++ set_first id a ys
  unfolding set_first
  set_first-behind a [] ys h = refl
  set_first-behind a (x ∷ xs) ys h = ground (arith, set_first-behind a xs ys)

  remove_first-IsFirstChange : IsFirstChange (remove_first id)
  remove_first-IsFirstChange = record {
    none_there = remove_first-none;
    in_front = remove_first-in_front;
    behind = remove_first-behind;
  }

  set_first-IsFirstChange : (a : Bool) → IsFirstChange (set_first id a)
  set_first-IsFirstChange a = record {
    none_there = set_first-none a;
    in_front = set_first-in_front a;
    behind = set_first-behind a;
  }

  module _ (change : List Subscription → List Subscription) (c : IsFirstChange change) where
    -- Whether the traversal found the id, and what it made of the list.
    abbrev Changes : List Subscription → Bool → List Subscription → Type 0
    Changes before found after = (found ≡ has_id id before) × (after ≡ change before)

    pair_step :
        (xs ys xs' ys' : List Subscription) (f g : Bool)
        → Changes xs f xs'
        → Changes ys g ys'
        → Changes (xs ++ ys) (if f then true else g) (if f then xs' ++ ys else xs ++ ys')
    pair_step xs ys xs' ys' f g (fx, ex) (gy, ey) = elim (Bool-cases (has_id id xs)) [
      | inl here ↦
          rw (fx, here) (rw (has_id-append xs ys, here) refl, rw (c.in_front xs ys here, ex) refl)
      | inr not_here ↦
          rw (fx, not_here)
            (rw (has_id-append xs ys, not_here) gy, rw (c.behind xs ys not_here, ey) refl)
    ]

    node_step :
        (cs cs' : Children) (sw sw' mw mw' : Wildcard) (subs : List Subscription) (k s m : Bool)
        → Changes (collect_children cs) k (collect_children cs')
        → Changes (collect_wildcard sw) s (collect_wildcard sw')
        → Changes (collect_wildcard mw) m (collect_wildcard mw')
        → change_children id change cs ≡ (k, cs')
        → change_wildcard id change sw ≡ (s, sw')
        → change_wildcard id change mw ≡ (m, mw')
        → Changes
            (collect (node cs sw mw subs))
            (change_first id change (node cs sw mw subs)).0
            (collect (change_first id change (node cs sw mw subs)).1)
    unfolding change_first collect
    node_step cs cs' sw sw' mw mw' subs k s m ck cw cm ek es em =
        let tail = pair_step _ _ _ _ s m cw cm in
        let rest = pair_step _ _ _ _ k (if s then true else m) ck tail in
        let whole = pair_step subs _ (change subs) _ (has_id id subs) _ (refl, refl) rest in
        ground (arith, whole, ek, es, em)

    abbrev chosen : Text → TrieNode → TrieNode → Children → Children → Bool → Bool → Bool × Children
    chosen k n n' cs cs' f g = if f then (true, child k n' cs) else (g, child k n cs')

    children_step :
        (k : Text) (n n' : TrieNode) (cs cs' : Children) (f g : Bool)
        → Changes (collect n) f (collect n')
        → Changes (collect_children cs) g (collect_children cs')
        → Changes
            (collect_children (child k n cs))
            (chosen k n n' cs cs' f g).0
            (collect_children (chosen k n n' cs cs' f g).1)
    unfolding collect
    children_step k n n' cs cs' true g cn cc_ = pair_step _ _ _ _ true g cn cc_
    children_step k n n' cs cs' false g cn cc_ = pair_step _ _ _ _ false g cn cc_

    mutual
      unfolding change_first change_children change_wildcard collect collect_children
          collect_wildcard

      first-Changes :
          (t : TrieNode)
          → Changes (collect t) (change_first id change t).0 (collect (change_first id change t).1)
      first-Changes (node cs sw mw subs) =
          node_step cs _ sw _ mw _ subs _ _ _ (children-Changes cs) (wildcard-Changes sw)
            (wildcard-Changes mw) refl refl refl

      children-Changes :
          (cs : Children)
          → Changes
              (collect_children cs)
              (change_children id change cs).0
              (collect_children (change_children id change cs).1)
      children-Changes childless = (refl, sym (c.none_there [] refl))
      children-Changes (child k n cs) =
          children_step k n _ cs _ _ _ (first-Changes n) (children-Changes cs)

      wildcard-Changes :
          (w : Wildcard)
          → Changes
              (collect_wildcard w)
              (change_wildcard id change w).0
              (collect_wildcard (change_wildcard id change w).1)
      wildcard-Changes absent = (refl, sym (c.none_there [] refl))
      wildcard-Changes (present n) = first-Changes n

-- A removal reports whether the id is among all subscriptions, and all subscriptions after it are
-- those before it without the first that has the id.
pub all_subscriptions-remove :
    (id : ℕ) (t : TrieNode)
    → ((remove id t).0 ≡ has_id id (all_subscriptions t))
      × (all_subscriptions (remove id t).1 ≡ remove_first id (all_subscriptions t))
unfolding all_subscriptions remove
all_subscriptions-remove id t = first-Changes id (remove_first id) (remove_first-IsFirstChange id) t

-- Setting the flag reports whether the id is among all subscriptions, and all subscriptions after
-- it are those before it with the flag of the first that has the id set.
pub all_subscriptions-set_active :
    (id : ℕ) (active : Bool) (t : TrieNode)
    → ((set_active id active t).0 ≡ has_id id (all_subscriptions t))
      × (all_subscriptions (set_active id active t).1 ≡ set_first id active (all_subscriptions t))
unfolding all_subscriptions set_active
all_subscriptions-set_active id active t =
    first-Changes id (set_first id active) (set_first-IsFirstChange id active) t
