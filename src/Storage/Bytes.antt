-- ===== src/Storage/Bytes.antt =====
-- Little-endian numbers in byte buffers, which the files of nova-storage are made of: `to_le_bytes`
-- and `from_le_bytes` of the unsigned integers, and slices of a buffer.
use nova_runtime.Base.{
  ℕ, zero, suc, ◌+◌, ◌*◌, ◌/◌, ◌%◌, ◌^◌, ◌<◌, ◌≡◌, refl, ap, List, [], ◌∷◌, ◌++◌, length, take,
  drop, arith, length-append,
}

abbrev pub Bytes : Type 0
Bytes = List ℕ

-- The low `n` bytes of a number, the lowest first.
unfoldable pub to_le : ℕ → ℕ → Bytes
to_le zero v = []
to_le (suc n) v = v % 256 ∷ to_le n (v / 256)

unfoldable pub of_le : Bytes → ℕ
of_le [] = 0
of_le (b ∷ bs) = b + 256 * of_le bs

pub length-to_le : (n v : ℕ) → length (to_le n v) ≡ n
unfolding to_le
length-to_le zero v = refl
length-to_le (suc n) v = ap suc (length-to_le n (v / 256))

pub of_le-to_le : (n v : ℕ) → v < 256 ^ n → of_le (to_le n v) ≡ v
unfolding to_le of_le
of_le-to_le zero v h = omega arith
of_le-to_le (suc n) v h = omega (arith, of_le-to_le n (v / 256) (omega arith))

module _ {ℓ} {A : Type ℓ} where
  pub take-length_append : (n : ℕ) (xs ys : List A) → length xs ≡ n → take n (xs ++ ys) ≡ xs
  take-length_append zero [] ys h = refl
  take-length_append zero (x ∷ xs) ys h = absurd (omega arith)
  take-length_append (suc n) [] ys h = absurd (omega arith)
  take-length_append (suc n) (x ∷ xs) ys h =
      ap (λ (zs : List A). x ∷ zs) (take-length_append n xs ys (omega arith))

  pub drop-length_append : (n : ℕ) (xs ys : List A) → length xs ≡ n → drop n (xs ++ ys) ≡ ys
  drop-length_append zero [] ys h = refl
  drop-length_append zero (x ∷ xs) ys h = absurd (omega arith)
  drop-length_append (suc n) [] ys h = absurd (omega arith)
  drop-length_append (suc n) (x ∷ xs) ys h = drop-length_append n xs ys (omega arith)

-- A number that was written is read back from the front of a buffer.
pub of_le-take : (n v : ℕ) (rest : Bytes) → v < 256 ^ n → of_le (take n (to_le n v ++ rest)) ≡ v
of_le-take n v rest h =
    rw (take-length_append n (to_le n v) rest (length-to_le n v)) (of_le-to_le n v h)

pub drop-to_le : (n v : ℕ) (rest : Bytes) → drop n (to_le n v ++ rest) ≡ rest
drop-to_le n v rest = drop-length_append n (to_le n v) rest (length-to_le n v)

pub length-to_le_append : (n v : ℕ) (rest : Bytes) → length (to_le n v ++ rest) ≡ n + length rest
length-to_le_append n v rest = omega (arith, length-append (to_le n v) rest, length-to_le n v)
