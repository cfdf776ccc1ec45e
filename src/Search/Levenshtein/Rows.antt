-- ===== src/Search/Levenshtein/Rows.antt =====
-- The table of nova-search/src/fuzzy/levenshtein.rs against a recursion on the texts.
use nova_runtime.Base.{
  ℕ, suc, ◌+◌, ◌≡◌, ◌∙◌, refl, ap, min, false, List, [], ◌∷◌, length, nat_beq, Text, arith,
}
use mathlib.Core.Path.{subst}
use nova_runtime.Search.Levenshtein.{
  cost, first_row, fill_row, next_row, rows, last_cell, levenshtein_distance,
}

-- The distance by recursion on the first characters.
unfoldable pub distance : Text → Text → ℕ
distance [] ys = length ys
distance (x ∷ xs) [] = suc (length xs)
distance (x ∷ xs) (y ∷ ys) =
    min (min (distance (x ∷ xs) ys + 1) (distance xs (y ∷ ys) + 1)) (distance xs ys + cost x y)

-- The row of the table after the characters `ra`, read backwards: the cells behind the one after the
-- characters `rb`, read backwards.
rest_of : Text → Text → Text → List ℕ
rest_of ra rb [] = []
rest_of ra rb (b ∷ bs) = distance ra (b ∷ rb) ∷ rest_of ra (b ∷ rb) bs

-- The characters `a` put before those of `ra`, one after the other.
abbrev pub onto : Text → Text → Text
onto [] ra = ra
onto (c ∷ cs) ra = onto cs (c ∷ ra)

pub distance-nil : (xs : Text) → distance xs [] ≡ length xs
unfolding distance
distance-nil [] = refl
distance-nil (x ∷ xs) = refl

first_row-eq : (n : ℕ) (rb bs : Text) → length rb ≡ n → first_row n bs ≡ n ∷ rest_of [] rb bs
unfolding first_row rest_of distance
first_row-eq n rb [] h = refl
first_row-eq n rb (b ∷ bs) h =
    let next : suc (length rb) ≡ n + 1 = omega arith in
    rw (first_row-eq (n + 1) (b ∷ rb) bs next, next) refl

fill_row-eq :
    (ca : ℕ) (ra rb bs : Text)
    → fill_row ca (distance (ca ∷ ra) rb) bs (distance ra rb ∷ rest_of ra rb bs)
      ≡ rest_of (ca ∷ ra) rb bs
unfolding fill_row rest_of distance
fill_row-eq ca ra rb [] = refl
fill_row-eq ca ra rb (b ∷ bs) =
    ap (λ (r : List ℕ). distance (ca ∷ ra) (b ∷ rb) ∷ r) (fill_row-eq ca ra (b ∷ rb) bs)

next_row-eq :
    (ca : ℕ) (ra b : Text)
    → next_row (length ra) ca b (distance ra [] ∷ rest_of ra [] b)
      ≡ distance (ca ∷ ra) [] ∷ rest_of (ca ∷ ra) [] b
unfolding next_row
next_row-eq ca ra b =
    let next : distance (ca ∷ ra) [] ≡ length ra + 1 = omega (arith, distance-nil (ca ∷ ra)) in
    rw (← next) (ap (λ (r : List ℕ). distance (ca ∷ ra) [] ∷ r) (fill_row-eq ca ra [] b))

rows-eq :
    (a b ra : Text)
    → rows (length ra) a b (distance ra [] ∷ rest_of ra [] b)
      ≡ distance (onto a ra) [] ∷ rest_of (onto a ra) [] b
unfolding rows
rows-eq [] b ra = refl
rows-eq (ca ∷ a) b ra =
    let next : length ra + 1 ≡ length (ca ∷ ra) = omega arith in
    rw (next_row-eq ca ra b, next) (rows-eq a b (ca ∷ ra))

last_cell-eq : (r rb b : Text) → last_cell (distance r rb ∷ rest_of r rb b) ≡ distance r (onto b rb)
unfolding last_cell rest_of
last_cell-eq r rb [] = refl
last_cell-eq r rb (c ∷ b) = last_cell-eq r (c ∷ rb) b

pub length-onto : (xs r : Text) → length (onto xs r) ≡ length xs + length r
length-onto [] r = omega arith
length-onto (x ∷ xs) r = omega (arith, length-onto xs (x ∷ r))

table-eq : (a b : Text) → last_cell (rows 0 a b (first_row 0 b)) ≡ distance (onto a []) (onto b [])
table-eq a b = rw (first_row-eq 0 [] b refl) (
    subst
      (λ (n : ℕ). last_cell (rows 0 a b (n ∷ rest_of [] [] b)) ≡ distance (onto a []) (onto b []))
      (distance-nil []) (ap last_cell (rows-eq a b []) ∙ last_cell-eq (onto a []) [] b))

pub distance-nil_left : (ys : Text) → distance [] ys ≡ length ys
unfolding distance
distance-nil_left ys = refl

nat_beq-suc : (n : ℕ) → nat_beq (suc n) 0 ≡ false
nat_beq-suc n = ground arith

-- The table computes the recursive distance of the two texts read backwards.
pub levenshtein_distance-eq :
    (a b : Text) → levenshtein_distance a b ≡ distance (onto a []) (onto b [])
unfolding levenshtein_distance
levenshtein_distance-eq [] b = omega (arith, distance-nil_left (onto b []), length-onto b [])
levenshtein_distance-eq (x ∷ a) [] =
    ground (arith, distance-nil (onto (x ∷ a) []), length-onto (x ∷ a) [])
levenshtein_distance-eq (x ∷ a) (y ∷ b) =
    rw (nat_beq-suc (length a), nat_beq-suc (length b)) (table-eq (x ∷ a) (y ∷ b))
