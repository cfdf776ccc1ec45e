-- ===== src/Search/Levenshtein.antt =====
-- Edit distance: nova-search/src/fuzzy/levenshtein.rs. A text is its list of characters, and a row of
-- the table is a list. `prev_row` and `curr_row` swap after each round, so a round makes the next row
-- from the last one; each of its cells reads the cell to the left and the two above.
pub mod Rows
pub mod Scripts
pub mod Optimal
pub mod Tests
use nova_runtime.Base.{
  ℕ, zero, suc, ◌+◌, min, Bool, true, false, List, [], ◌∷◌, length, leb, nat_beq, if◌then◌else◌,
  Text, retain,
}

abbrev pub cost : ℕ → ℕ → ℕ
cost a b = if nat_beq a b then 0 else 1

-- `(0..=b_len).collect()`, from the cell `n` on.
unfoldable pub first_row : ℕ → Text → List ℕ
first_row n [] = n ∷ []
first_row n (b ∷ bs) = n ∷ first_row (n + 1) bs

-- The inner loop: `left` is `curr_row[j]`, and the row starts at `prev_row[j]`.
unfoldable pub fill_row : ℕ → ℕ → Text → List ℕ → List ℕ
fill_row ca left (cb ∷ bs) (diagonal ∷ up ∷ prev) =
    let here = min (min (left + 1) (up + 1)) (diagonal + cost ca cb) in
    here ∷ fill_row ca here bs (up ∷ prev)
fill_row ca left _ _ = []

unfoldable pub next_row : ℕ → ℕ → Text → List ℕ → List ℕ
unfolding fill_row
next_row i ca b prev = (i + 1) ∷ fill_row ca (i + 1) b prev

-- The outer loop, from character `i` on.
unfoldable pub rows : ℕ → Text → Text → List ℕ → List ℕ
unfolding next_row
rows i [] b row = row
rows i (ca ∷ a) b row = rows (i + 1) a b (next_row i ca b row)

-- `prev_row[b_len]`: the row has `b_len + 1` cells.
unfoldable pub last_cell : List ℕ → ℕ
last_cell [] = 0
last_cell (x ∷ []) = x
last_cell (x ∷ y ∷ xs) = last_cell (y ∷ xs)

unfoldable pub levenshtein_distance : Text → Text → ℕ
levenshtein_distance a b =
    if nat_beq (length a) 0
    then length b
    else if nat_beq (length b) 0
    then length a
    else last_cell (rows 0 a b (first_row 0 b))

unfoldable pub find_fuzzy_matches : Text → List Text → ℕ → List Text
unfolding levenshtein_distance
find_fuzzy_matches term candidates max_distance =
    retain (λ c. leb (levenshtein_distance term c) max_distance) candidates

pub record LevenshteinAutomaton : Type 0 where
  pub pattern : Text
  pub max_distance : ℕ

unfoldable pub automaton_matches : LevenshteinAutomaton → Text → Bool
unfolding levenshtein_distance
automaton_matches m text = leb (levenshtein_distance m.pattern text) m.max_distance

unfoldable pub find_matches : LevenshteinAutomaton → List Text → List Text
unfolding automaton_matches
find_matches m = retain (automaton_matches m)
