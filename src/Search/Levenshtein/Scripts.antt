-- ===== src/Search/Levenshtein/Scripts.antt =====
-- The edit scripts that nova-search/src/fuzzy/levenshtein.rs counts: single characters put in, taken
-- out, or replaced.
use nova_runtime.Base.{ℕ, ◌+◌, ◌≤◌, ◌≡◌, ◌⊎◌, refl, min, [], ◌∷◌, length, Text, arith, inl, inr}
use mathlib.Core.Path.{subst}
use nova_runtime.Search.Levenshtein.{cost}
use nova_runtime.Search.Levenshtein.Rows.{distance, distance-nil, onto}

-- `Edits xs ys n`: a way to turn `xs` into `ys` that costs `n`.
pub data Edits : Text → Text → ℕ → Type 0 where
  done : Edits [] [] 0
  insert : {xs ys : Text} {n m : ℕ} (y : ℕ) → Edits xs ys n → m ≡ n + 1 → Edits xs (y ∷ ys) m
  delete : {xs ys : Text} {n m : ℕ} (x : ℕ) → Edits xs ys n → m ≡ n + 1 → Edits (x ∷ xs) ys m
  replace :
      {xs ys : Text} {n m : ℕ} (x y : ℕ)
      → Edits xs ys n
      → m ≡ n + cost x y
      → Edits (x ∷ xs) (y ∷ ys) m

pub distance-delete : (x : ℕ) (xs ys : Text) → distance (x ∷ xs) ys ≤ distance xs ys + 1
unfolding distance
distance-delete x xs [] = omega (arith, distance-nil xs)
distance-delete x xs (y ∷ ys) = omega arith

pub distance-insert : (y : ℕ) (xs ys : Text) → distance xs (y ∷ ys) ≤ distance xs ys + 1
unfolding distance
distance-insert y [] ys = omega arith
distance-insert y (x ∷ xs) ys = omega arith

pub distance-replace :
    (x y : ℕ) (xs ys : Text) → distance (x ∷ xs) (y ∷ ys) ≤ distance xs ys + cost x y
unfolding distance
distance-replace x y xs ys = omega arith

-- No script is cheaper than the distance.
pub distance-le : {xs ys : Text} {n : ℕ} → Edits xs ys n → distance xs ys ≤ n
unfolding distance
distance-le done = omega arith
distance-le (insert {xs} {ys} y e h) = omega (arith, distance-le e, distance-insert y xs ys, h)
distance-le (delete {xs} {ys} x e h) = omega (arith, distance-le e, distance-delete x xs ys, h)
distance-le (replace {xs} {ys} x y e h) =
    omega (arith, distance-le e, distance-replace x y xs ys, h)

Edits-insert_all : (ys : Text) → Edits [] ys (length ys)
Edits-insert_all [] = done
Edits-insert_all (y ∷ ys) = insert y (Edits-insert_all ys) (omega arith)

Edits-delete_all : (xs : Text) → Edits xs [] (length xs)
Edits-delete_all [] = done
Edits-delete_all (x ∷ xs) = delete x (Edits-delete_all xs) (omega arith)

min3-cases : (a b c : ℕ) → (min (min a b) c ≡ a) ⊎ ((min (min a b) c ≡ b) ⊎ (min (min a b) c ≡ c))
min3-cases a b c = ground arith

-- Some script costs as much as the distance.
pub Edits-distance : (xs ys : Text) → Edits xs ys (distance xs ys)
unfolding distance
Edits-distance [] ys = Edits-insert_all ys
Edits-distance (x ∷ xs) [] = delete x (Edits-delete_all xs) (omega arith)
Edits-distance (x ∷ xs) (y ∷ ys) =
    elim (min3-cases (distance (x ∷ xs) ys + 1) (distance xs (y ∷ ys) + 1)
      (distance xs ys + cost x y)) [
        | inl h ↦ insert y (Edits-distance (x ∷ xs) ys) h
        | inr (inl h) ↦ delete x (Edits-distance xs (y ∷ ys)) h
        | inr (inr h) ↦ replace x y (Edits-distance xs ys) h
      ]

-- Scripts one after the other.
pub Edits-onto :
    {xs ys rx ry : Text} {n m k : ℕ}
    → Edits xs ys n
    → Edits rx ry m
    → k ≡ n + m
    → Edits (onto xs rx) (onto ys ry) k
Edits-onto {rx} {ry} done f h = subst (Edits rx ry) (omega (arith, h)) f
Edits-onto {m} (insert {n} y e g) f h =
    Edits-onto {m = m + 1} e (insert y f refl) (omega (arith, g, h))
Edits-onto {m} (delete {n} x e g) f h =
    Edits-onto {m = m + 1} e (delete x f refl) (omega (arith, g, h))
Edits-onto {m} (replace {n} x y e g) f h =
    Edits-onto {m = m + cost x y} e (replace x y f refl) (omega (arith, g, h))
