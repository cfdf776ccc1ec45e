-- ===== src/Search/Levenshtein/Tests.antt =====
-- The edit distance of nova-search/src/fuzzy/levenshtein.rs at concrete inputs.
use nova_runtime.Base.{ℕ, ◌≤◌, ◌≡◌, ◌↔◌, refl, true, [], ◌∷◌, Text}
use nova_runtime.Search.Levenshtein.{
  last_cell, rows, first_row, levenshtein_distance, find_fuzzy_matches, LevenshteinAutomaton,
  automaton_matches,
}
use nova_runtime.Search.Levenshtein.Scripts.{Edits, done, insert, replace}
use nova_runtime.Search.Levenshtein.Optimal.{automaton_matches_iff}

-- Letters by their place in the alphabet.
abbrev kitten : Text
kitten = 11 ∷ 9 ∷ 20 ∷ 20 ∷ 5 ∷ 14 ∷ []

abbrev sitting : Text
sitting = 19 ∷ 9 ∷ 20 ∷ 20 ∷ 9 ∷ 14 ∷ 7 ∷ []

abbrev cat : Text
cat = 3 ∷ 1 ∷ 20 ∷ []

abbrev cats : Text
cats = 3 ∷ 1 ∷ 20 ∷ 19 ∷ []

two_edits : levenshtein_distance kitten sitting ≡ 3
unfolding levenshtein_distance last_cell rows first_row
two_edits = refl

insertion : levenshtein_distance cat cats ≡ 1
unfolding levenshtein_distance last_cell rows first_row
insertion = refl

fuzzy : find_fuzzy_matches cat (cats ∷ kitten ∷ cat ∷ []) 1 ≡ cats ∷ cat ∷ []
unfolding find_fuzzy_matches last_cell rows first_row
fuzzy = refl

abbrev cat_matcher : LevenshteinAutomaton
cat_matcher = record { pattern = cat; max_distance = 1 }

automaton_matches_iff_example :
    (automaton_matches cat_matcher cats ≡ true) ↔ ((n : ℕ) × Edits cat cats n × (n ≤ 1))
automaton_matches_iff_example = automaton_matches_iff cat_matcher cats

abbrev cat_to_cats : Edits cat cats 1
cat_to_cats = replace 3 3 (replace 1 1 (replace 20 20 (insert 19 done refl) refl) refl) refl
