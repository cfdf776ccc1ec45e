-- ===== src/Search/Levenshtein/Optimal.antt =====
-- `levenshtein_distance` and the automaton of nova-search/src/fuzzy/levenshtein.rs against edit scripts.
use nova_runtime.Base.{
  ℕ, ◌+◌, ◌≤◌, ◌≡◌, ◌∙◌, ◌↔◌, refl, sym, ap, ap₂, true, [], ◌∷◌, ◌++◌, leb, nat_beq_iff, Text,
  arith,
}
use mathlib.Core.Path.{subst}
use nova_runtime.Search.Levenshtein.{
  cost, levenshtein_distance, LevenshteinAutomaton, automaton_matches,
}
use nova_runtime.Search.Levenshtein.Rows.{
  distance, distance-nil_left, onto, levenshtein_distance-eq,
}
use nova_runtime.Search.Levenshtein.Scripts.{
  Edits, done, insert, delete, replace, distance-le, distance-insert, distance-delete,
  distance-replace, Edits-distance, Edits-onto,
}

onto-onto : (xs ra rb : Text) → onto (onto xs ra) rb ≡ onto ra (xs ++ rb)
onto-onto [] ra rb = refl
onto-onto (x ∷ xs) ra rb = onto-onto xs (x ∷ ra) rb

append-nil : (xs : Text) → xs ++ [] ≡ xs
append-nil [] = refl
append-nil (x ∷ xs) = ap (λ (r : Text). x ∷ r) (append-nil xs)

onto_self : (xs : Text) → onto (onto xs []) [] ≡ xs
onto_self xs = onto-onto xs [] [] ∙ append-nil xs

Edits-reversed : {xs ys : Text} {n : ℕ} → Edits xs ys n → Edits (onto xs []) (onto ys []) n
Edits-reversed e = Edits-onto e done (omega arith)

-- A script that turns one text into another by insertions, deletions and replacements of single
-- characters costs at least their computed distance.
pub levenshtein_distance-le : {a b : Text} {n : ℕ} → Edits a b n → levenshtein_distance a b ≤ n
levenshtein_distance-le {a} {b} {n} e =
    subst (λ (d : ℕ). d ≤ n) (sym (levenshtein_distance-eq a b)) (distance-le (Edits-reversed e))

-- Some script turns the first text into the second and costs their distance.
pub Edits-levenshtein_distance : (a b : Text) → Edits a b (levenshtein_distance a b)
Edits-levenshtein_distance a b = rw (levenshtein_distance-eq a b) (
    subst (λ (ys : Text). Edits a ys (distance (onto a []) (onto b []))) (onto_self b)
      (subst (λ (xs : Text). Edits xs (onto (onto b []) []) (distance (onto a []) (onto b [])))
        (onto_self a) (Edits-reversed (Edits-distance (onto a []) (onto b [])))))

cost_comm : (x y : ℕ) → cost x y ≡ cost y x
cost_comm x y = ground (arith, nat_beq_iff x y, nat_beq_iff y x)

Edits-sym : {xs ys : Text} {n : ℕ} → Edits xs ys n → Edits ys xs n
Edits-sym done = done
Edits-sym (insert y e h) = delete y (Edits-sym e) h
Edits-sym (delete x e h) = insert x (Edits-sym e) h
Edits-sym (replace x y e h) = replace y x (Edits-sym e) (omega (arith, h, cost_comm x y))

-- The distance of two texts is the same in both directions.
pub levenshtein_distance_comm : (a b : Text) → levenshtein_distance a b ≡ levenshtein_distance b a
levenshtein_distance_comm a b = omega (
  arith,
  levenshtein_distance-le (Edits-sym (Edits-levenshtein_distance a b)),
  levenshtein_distance-le (Edits-sym (Edits-levenshtein_distance b a)),
)

Edits-self : (xs : Text) → Edits xs xs 0
Edits-self [] = done
Edits-self (x ∷ xs) = replace x x (Edits-self xs) (ground (arith, nat_beq_iff x x))

cost-zero : (x y : ℕ) → cost x y ≡ 0 → x ≡ y
cost-zero x y h = ground (arith, nat_beq_iff x y)

Edits-zero : {xs ys : Text} {n : ℕ} → Edits xs ys n → n ≡ 0 → xs ≡ ys
Edits-zero done h = refl
Edits-zero (insert y e g) h = absurd (omega arith)
Edits-zero (delete x e g) h = absurd (omega arith)
Edits-zero (replace {n} x y e g) h =
    ap₂ (λ (c : ℕ) (cs : Text). c ∷ cs) (cost-zero x y (omega (arith, g, h)))
      (Edits-zero e (omega (arith, g, h)))

-- The distance of two texts is 0 exactly if they are equal.
pub levenshtein_distance-eq-zero : (a b : Text) → (levenshtein_distance a b ≡ 0) ↔ (a ≡ b)
levenshtein_distance-eq-zero a b = (
  λ h. Edits-zero (Edits-levenshtein_distance a b) h,
  λ h. omega (arith, levenshtein_distance-le (subst (λ (c : Text). Edits a c 0) h (Edits-self a))),
)

cost_trans : (x y z : ℕ) → cost x z ≤ cost x y + cost y z
cost_trans x y z = ground (arith, nat_beq_iff x y, nat_beq_iff y z, nat_beq_iff x z)

distance-drop : (a : Text) (y : ℕ) (b : Text) → distance a b ≤ distance a (y ∷ b) + 1
unfolding distance
distance-drop [] y b = omega (arith, distance-nil_left b)
distance-drop (x ∷ a) y b = omega (arith, distance-delete x a b, distance-drop a y b)

-- A step of a script that replaces the first character.
module _ (b c : Text) (m y z : ℕ) (ih : (a : Text) → distance a c ≤ distance a b + m) where
  distance-replace_first : (a : Text) → distance a (z ∷ c) ≤ distance a (y ∷ b) + (m + cost y z)
  unfolding distance
  distance-replace_first [] = omega (arith, ih [], distance-nil_left c, distance-nil_left b)
  distance-replace_first (x ∷ a) = omega (
    arith,
    distance-insert z (x ∷ a) c,
    distance-delete x a (z ∷ c),
    distance-replace x z a c,
    ih (x ∷ a),
    ih a,
    distance-replace_first a,
    cost_trans x y z,
  )

distance-Edits : {b c : Text} {m : ℕ} → Edits b c m → (a : Text) → distance a c ≤ distance a b + m
distance-Edits done a = omega arith
distance-Edits (insert {xs} {ys} z f h) a =
    omega (arith, h, distance-insert z a ys, distance-Edits f a)
distance-Edits (delete {xs} {ys} y f h) a =
    omega (arith, h, distance-drop a y xs, distance-Edits f a)
distance-Edits (replace {xs} {ys} {n} y z f h) a =
    omega (arith, h, distance-replace_first xs ys n y z (distance-Edits f) a)

-- The distance from a first text to a third is at most the sum of those from the first to a second
-- and from the second to the third.
pub levenshtein_distance-triangle :
    (a b c : Text) → levenshtein_distance a c ≤ levenshtein_distance a b + levenshtein_distance b c
levenshtein_distance-triangle a b c = omega (
  arith,
  levenshtein_distance-eq a b,
  levenshtein_distance-eq a c,
  levenshtein_distance-eq b c,
  distance-Edits (Edits-distance (onto b []) (onto c [])) (onto a []),
)

leb_iff : (a b : ℕ) → (leb a b ≡ true) ↔ (a ≤ b)
leb_iff a b = (λ h. ground arith, λ h. ground arith)

-- The automaton accepts a text exactly if some script of insertions, deletions and replacements of
-- single characters turns its pattern into the text and costs at most the maximal distance, a
-- replacement of a character by itself costing nothing and any other step 1.
pub automaton_matches_iff :
    (automaton : LevenshteinAutomaton) (text : Text)
    → (automaton_matches automaton text ≡ true)
      ↔ ((n : ℕ) × Edits automaton.pattern text n × (n ≤ automaton.max_distance))
unfolding automaton_matches
automaton_matches_iff automaton text =
    let iff = leb_iff (levenshtein_distance automaton.pattern text) automaton.max_distance in
    (
      λ h. (
        levenshtein_distance automaton.pattern text,
        Edits-levenshtein_distance automaton.pattern text,
        iff.0 h,
      ),
      λ h. let (n, e, le) = h in iff.1 (omega (arith, levenshtein_distance-le e, le)),
    )
