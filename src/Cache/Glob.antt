-- ===== src/Cache/Glob.antt =====
-- `matches_glob` of nova-cache/src/backend/mod.rs: keys against patterns with `*` and `?`.
use nova_runtime.Base.{
  ℕ, ◌≡◌, ◌≢◌, ◌↔◌, refl, ap, Bool, true, false, ◌||◌, [], ◌∷◌, ◌++◌, Text, if◌then◌else◌, nat_eq,
  nat_beq, nat_beq_iff, arith, Bool-cases, inl, inr, ◌⊎◌,
}
use mathlib.Core.Path.{subst}

-- The characters `*` and `?`.
abbrev pub star : ℕ
star = 42

abbrev pub question : ℕ
question = 63

unfoldable pub glob : Text → Text → Bool
glob [] [] = true
glob [] (x ∷ key) = false
glob (c ∷ pattern_rest) [] = if nat_beq c star then glob pattern_rest [] else false
glob (c ∷ pattern_rest) (x ∷ key) =
    let skipped = glob pattern_rest (x ∷ key) in
    let taken = glob (c ∷ pattern_rest) key in
    let onward = glob pattern_rest key in
    if nat_beq c star
    then skipped || taken
    else if nat_beq c question
    then onward
    else if nat_beq c x
    then onward
    else false

unfoldable pub matches_glob : Text → Text → Bool
matches_glob pattern_text key = glob pattern_text key

-- What a pattern means: a star stands for any text, a question mark for one character.
pub data Fits : Text → Text → Type 0 where
  end : Fits [] []
  many : (c : ℕ) (p a b k : Text) → c ≡ star → k ≡ a ++ b → Fits p b → Fits (c ∷ p) k
  one : (c x : ℕ) (p b : Text) → c ≡ question → Fits p b → Fits (c ∷ p) (x ∷ b)
  same : (c : ℕ) (p b : Text) → c ≢ star → c ≢ question → Fits p b → Fits (c ∷ p) (c ∷ b)

-- A star takes one more character.
star-Fits : (c x : ℕ) (p k : Text) → c ≡ star → Fits (c ∷ p) k → Fits (c ∷ p) (x ∷ k)
star-Fits c x p k e (many _ _ a b _ _ q f) =
    many c p (x ∷ a) b (x ∷ k) e (ap (λ (t : Text). x ∷ t) q) f
star-Fits c x p _ e (one _ _ _ _ q f) = absurd (omega (arith, e, q))
star-Fits c x p _ e (same _ _ _ n m f) = absurd (n e)

or-true : (a b : Bool) → a || b ≡ true → (a ≡ true) ⊎ (b ≡ true)
or-true true b h = inl refl
or-true false b h = inr h

glob-Fits : (p k : Text) → glob p k ≡ true → Fits p k
unfolding glob
glob-Fits [] [] h = end
glob-Fits [] (x ∷ k) h = cc
glob-Fits (c ∷ p) [] h = elim (Bool-cases (nat_beq c star)) [
  | inl e ↦ many c p [] [] [] (ground arith) refl (glob-Fits p [] (ground (arith, h, e)))
  | inr e ↦ absurd (ground (arith, h, e))
]
glob-Fits (c ∷ p) (x ∷ k) h = elim (Bool-cases (nat_beq c star)) [
  | inl e ↦
      let either : glob p (x ∷ k) || glob (c ∷ p) k ≡ true = ground (arith, h, e) in
      elim (or-true (glob p (x ∷ k)) (glob (c ∷ p) k) either) [
        | inl s ↦ many c p [] (x ∷ k) (x ∷ k) (ground arith) refl (glob-Fits p (x ∷ k) s)
        | inr t ↦ star-Fits c x p k (ground arith) (glob-Fits (c ∷ p) k t)
      ]
  | inr e ↦ elim (Bool-cases (nat_beq c question)) [
    | inl f ↦ one c x p k (ground arith) (glob-Fits p k (ground (arith, h, e, f)))
    | inr f ↦ elim (Bool-cases (nat_beq c x)) [
      | inl g ↦
          subst (λ (y : ℕ). Fits (c ∷ p) (y ∷ k)) ((nat_beq_iff c x).0 g)
            (same c p k (λ q. ground arith) (λ q. ground arith)
              (glob-Fits p k (ground (arith, h, e, f, g))))
      | inr g ↦ absurd (ground (arith, h, e, f, g))
    ]
  ]
]

glob-many : (c : ℕ) (p a b : Text) → c ≡ star → glob p b ≡ true → glob (c ∷ p) (a ++ b) ≡ true
unfolding glob
glob-many c p [] [] e h = ground arith
glob-many c p [] (x ∷ b) e h = ground arith
glob-many c p (x ∷ a) b e h = ground (arith, glob-many c p a b e h)

Fits-glob : (p k : Text) → Fits p k → glob p k ≡ true
unfolding glob
Fits-glob _ _ end = refl
Fits-glob _ _ (many c p a b k e q f) = rw q (glob-many c p a b e (Fits-glob p b f))
Fits-glob _ _ (one c x p b e f) = ground (arith, Fits-glob p b f)
Fits-glob _ _ (same c p b n m f) = ground (arith, Fits-glob p b f)

-- A key matches a pattern exactly if it fits what the pattern means: a star stands for any
-- characters, a question mark for one, and any other character for itself.
pub matches_glob_iff : (p k : Text) → (matches_glob p k ≡ true) ↔ Fits p k
unfolding matches_glob
matches_glob_iff p k = (glob-Fits p k, Fits-glob p k)
