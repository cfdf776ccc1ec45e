-- ===== src/Queue/IdMap.antt =====
-- The keys of one kind and one queue in the storage engine, whose scans go in the order of the keys: a
-- list in the order of the identifiers. A UUID is its 128 bits as a number, and its text has the
-- same order.
use nova_runtime.Base.{
  ℕ, ◌<◌, ◌≡◌, ◌≢◌, refl, List, [], ◌∷◌, none, some, map, All, All-mono, if◌then◌else◌, if-both,
  if-cases, ltb→lt, ltb, ◌==◌, nat_eq, nat_beq, arith,
}
use nova_runtime.Base.Assoc.{Assoc, get, remove}

abbrev pub MessageId : Type 0
MessageId = ℕ

module _ {ℓ} {V : Type ℓ} where
  unfoldable pub put : MessageId → V → Assoc MessageId V → Assoc MessageId V
  put i v [] = (i, v) ∷ []
  put i v (entry ∷ rest) =
      let later = put i v rest in
      if ltb i entry.0
      then (i, v) ∷ entry ∷ rest
      else if nat_beq i entry.0
      then (i, v) ∷ rest
      else entry ∷ later

  abbrev pub ids : Assoc MessageId V → List MessageId
  ids m = map (λ entry. entry.0) m

  pub get-put :
      (i j : MessageId) (v : V) (m : Assoc MessageId V)
      → get j (put i v m) ≡ (if i == j then some v else get j m)
  unfolding get put
  get-put i j v [] = refl
  get-put i j v ((k, w) ∷ m) = ground (arith, get-put i j v m)

  pub get-put_self : (i : MessageId) (v : V) (m : Assoc MessageId V) → get i (put i v m) ≡ some v
  get-put_self i v m = ground (arith, get-put i i v m)

  pub get-put_ne :
      (i j : MessageId) (v : V) (m : Assoc MessageId V) → i ≢ j → get j (put i v m) ≡ get j m
  get-put_ne i j v m h = ground (arith, get-put i j v m)

  -- The keys ascend, so each is there once.
  abbrev pub IsSorted : Assoc MessageId V → Type 0
  IsSorted [] = Unit
  IsSorted (entry ∷ rest) = All (λ j. entry.0 < j) (ids rest) × IsSorted rest

  above-put :
      (k i : MessageId) (v : V) (m : Assoc MessageId V)
      → k < i
      → All (λ j. k < j) (ids m)
      → All (λ j. k < j) (ids (put i v m))
  unfolding put
  above-put k i v [] h a = (h, tt)
  above-put k i v ((j, w) ∷ m) h a =
      if-both (λ (l : Assoc MessageId V). All (λ j. k < j) (ids l)) (ltb i j) _ _ (h, a)
        (if-both (λ (l : Assoc MessageId V). All (λ j. k < j) (ids l)) (nat_beq i j) _ _ (h, a.1)
          (a.0, above-put k i v m h a.1))

  pub put-IsSorted :
      (i : MessageId) (v : V) (m : Assoc MessageId V) → IsSorted m → IsSorted (put i v m)
  unfolding put
  put-IsSorted i v [] s = (tt, tt)
  put-IsSorted i v ((j, w) ∷ m) s =
      if-cases IsSorted (ltb i j) _ _
        (λ e. ((ltb→lt i j e, All-mono _ _ (ids m) (λ k h. omega (arith, ltb→lt i j e, h)) s.0), s))
        (λ e.
          if-cases IsSorted (nat_beq i j) _ _
            (λ f. (All-mono _ _ (ids m) (λ k h. ground arith) s.0, s.1))
            (λ f. (above-put j i v m (ground arith) s.0, put-IsSorted i v m s.1)))

  above-remove :
      (k i : MessageId) (m : Assoc MessageId V)
      → All (λ j. k < j) (ids m)
      → All (λ j. k < j) (ids (remove i m))
  unfolding remove
  above-remove k i [] a = tt
  above-remove k i ((j, w) ∷ m) a =
      if-both (λ (l : Assoc MessageId V). All (λ j. k < j) (ids l)) (j == i) _ _
        (above-remove k i m a.1) (a.0, above-remove k i m a.1)

  pub remove-IsSorted : (i : MessageId) (m : Assoc MessageId V) → IsSorted m → IsSorted (remove i m)
  unfolding remove
  remove-IsSorted i [] s = tt
  remove-IsSorted i ((j, w) ∷ m) s =
      if-both IsSorted (j == i) _ _ (remove-IsSorted i m s.1)
        (above-remove j i m s.0, remove-IsSorted i m s.1)

  get-there :
      (k j : MessageId) (w : V) (m : Assoc MessageId V) → get k m ≢ none → get k ((j, w) ∷ m) ≢ none
  unfolding get
  get-there k j w m h = ground arith

  -- The keys of a scan are those that have an entry.
  pub get-ids : (m : Assoc MessageId V) → All (λ i. get i m ≢ none) (ids m)
  unfolding get
  get-ids [] = tt
  get-ids ((j, w) ∷ m) =
      (ground arith, All-mono _ _ (ids m) (λ k h. get-there k j w m h) (get-ids m))
