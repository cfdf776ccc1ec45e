-- ===== src/Base/Assoc.antt =====
-- `HashMap` and `DashMap` as association lists: one entry for a key, a new key at the end.
use mathlib.Core.List.{List, [], ◌∷◌, ◌++◌}
use mathlib.Core.Option.{Option, none, some}
use mathlib.Core.Logic.{◌≢◌, inl, inr}
use mathlib.Core.Path.{◌≡◌, refl, subst}
use native.Mathlib.Omega.{arith}
use mathlib.Core.Bool.{false}
use nova_runtime.Base.Tests.{if◌then◌else◌, Bool-cases}
use nova_runtime.Base.Equality.{Eq, ◌==◌, ==_refl}

abbrev pub Assoc {ℓ κ} : Type ℓ → Type κ → Type (ℓ ⊔ κ)
Assoc K V = List (K × V)

module _ {ℓ κ} {K : Type ℓ} {V : Type κ} ⦃e : Eq K⦄ where
  unfoldable pub get : K → Assoc K V → Option V
  get key [] = none
  get key (entry ∷ rest) = if entry.0 == key then some entry.1 else get key rest

  unfoldable pub insert : K → V → Assoc K V → Assoc K V
  insert key value [] = (key, value) ∷ []
  insert key value (entry ∷ rest) =
      if entry.0 == key then (key, value) ∷ rest else entry ∷ insert key value rest

  unfoldable pub remove : K → Assoc K V → Assoc K V
  remove key [] = []
  remove key (entry ∷ rest) = if entry.0 == key then remove key rest else entry ∷ remove key rest

  pub get-insert :
      (k j : K) (v : V) (m : Assoc K V)
      → get j (insert k v m) ≡ (if k == j then some v else get j m)
  unfolding get insert
  get-insert k j v [] = refl
  get-insert k j v ((i, w) ∷ m) =
      ground (arith, e.decides k j, e.decides i k, e.decides i j, get-insert k j v m)

  pub get-remove :
      (k j : K) (m : Assoc K V) → get j (remove k m) ≡ (if k == j then none else get j m)
  unfolding get remove
  get-remove k j [] = ground arith
  get-remove k j ((i, w) ∷ m) =
      ground (arith, e.decides k j, e.decides i k, e.decides i j, get-remove k j m)

  pub get-insert_self : (k : K) (v : V) (m : Assoc K V) → get k (insert k v m) ≡ some v
  get-insert_self k v m = rw (get-insert k k v m, ==_refl k)

  pub get-remove_self : (k : K) (m : Assoc K V) → get k (remove k m) ≡ none
  get-remove_self k m = rw (get-remove k k m, ==_refl k)

  pub get-insert_ne : (k j : K) (v : V) (m : Assoc K V) → k ≢ j → get j (insert k v m) ≡ get j m
  get-insert_ne k j v m h = ground (arith, get-insert k j v m, e.decides k j)

  pub get-remove_ne : (k j : K) (m : Assoc K V) → k ≢ j → get j (remove k m) ≡ get j m
  get-remove_ne k j m h = ground (arith, get-remove k j m, e.decides k j)

  -- Each key has one entry.
  abbrev pub Distinct : Assoc K V → Type κ
  Distinct [] = Unit
  Distinct ((k, v) ∷ m) = (get k m ≡ none) × Distinct m

  get-insert-none :
      (k j : K) (v : V) (m : Assoc K V)
      → (j == k) ≡ false
      → get j m ≡ none
      → get j (insert k v m) ≡ none
  get-insert-none k j v m h g =
      ground (arith, h, g, get-insert k j v m, e.decides k j, e.decides j k)

  get-remove-none : (k j : K) (m : Assoc K V) → get j m ≡ none → get j (remove k m) ≡ none
  get-remove-none k j m g = ground (arith, g, get-remove k j m)

  pub insert-Distinct : (k : K) (v : V) (m : Assoc K V) → Distinct m → Distinct (insert k v m)
  unfolding insert get
  insert-Distinct k v [] d = (refl, tt)
  insert-Distinct k v ((j, w) ∷ m) d = elim (Bool-cases (j == k)) [
    | inl h ↦ rw h (subst (λ (i : K). get i m ≡ none) ((e.decides j k).0 h) d.0, d.1)
    | inr h ↦ rw h (get-insert-none k j v m h d.0, insert-Distinct k v m d.1)
  ]

  pub remove-Distinct : (k : K) (m : Assoc K V) → Distinct m → Distinct (remove k m)
  unfolding remove
  remove-Distinct k [] d = tt
  remove-Distinct k ((j, w) ∷ m) d = elim (Bool-cases (j == k)) [
    | inl h ↦ rw h (remove-Distinct k m d.1)
    | inr h ↦ rw h (get-remove-none k j m d.0, remove-Distinct k m d.1)
  ]

  pub remove_absent : (k : K) (m : Assoc K V) → get k m ≡ none → remove k m ≡ m
  unfolding get remove
  remove_absent k [] h = refl
  remove_absent k ((j, w) ∷ m) h = ground (arith, h, remove_absent k m)

  pub get-append-none : (k : K) (xs ys : Assoc K V) → get k (xs ++ ys) ≡ none → get k xs ≡ none
  unfolding get
  get-append-none k [] ys h = refl
  get-append-none k ((j, w) ∷ xs) ys h = ground (arith, h, get-append-none k xs ys)
