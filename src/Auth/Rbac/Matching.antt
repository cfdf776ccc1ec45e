-- ===== src/Auth/Rbac/Matching.antt =====
-- Which permissions a permission covers: permission_matches of nova-auth/src/rbac.rs.
use nova_runtime.Base.{
  ℕ, ◌≡◌, ◌≢◌, ◌↔◌, refl, sym, ap, ap₂, ◌∙◌, Bool, true, false, ◌&&◌, ◌||◌, [], ◌∷◌, Option, none,
  some, if◌then◌else◌, nat_beq, nat_beq_iff, Text, ◌==◌, nat_eq, list_eq, list_beq_iff, All,
  Bool-cases, inl, inr, arith,
}
use nova_runtime.Auth.Rbac.{colon, split_once, star, permission_matches, required}

-- A text without a colon.
abbrev pub IsPlain : Text → Type 0
IsPlain = All (λ (c : ℕ). c ≢ colon)

pub split_once-required : (a r : Text) → IsPlain a → split_once (required a r) ≡ some (a, r)
unfolding split_once
split_once-required [] r h = refl
split_once-required (c ∷ a) r h =
    let ih = split_once-required a r h.1 in
    elim (Bool-cases (nat_beq c colon)) [
      | inl e ↦ absurd (h.0 ((nat_beq_iff c colon).0 e))
      | inr e ↦ rw (e, ih) refl
    ]

parts : Option (Text × Text) → Text × Text
parts none = ([], [])
parts (some p) = p

required_inj :
    (a b r s : Text) → IsPlain a → IsPlain b → required a r ≡ required b s → (a ≡ b) × (r ≡ s)
unfolding parts
required_inj a b r s h k e =
    let same = ap (λ (t : Text). parts (split_once t)) e in
    let left = ap parts (split_once-required a r h) in
    let right = ap parts (split_once-required b s k) in
    (ap (λ p. p.0) (sym left ∙ same ∙ right), ap (λ p. p.1) (sym left ∙ same ∙ right))

text_beq_iff : (a b : Text) → ((a == b) ≡ true) ↔ (a ≡ b)
text_beq_iff a b = list_beq_iff a b

-- A test of a conjunction is the conjunction of the tests.
&&-of_iff :
    {P Q R : Type 0} (x y z : Bool)
    → (x ≡ true) ↔ P
    → (y ≡ true) ↔ Q
    → (z ≡ true) ↔ R
    → P ↔ (Q × R)
    → x ≡ (y && z)
&&-of_iff x y z p q r h = ground arith

beq-required :
    (a b r s : Text)
    → IsPlain a
    → IsPlain b
    → (required a r == required b s) ≡ ((a == b) && (r == s))
beq-required a b r s h k =
    &&-of_iff (required a r == required b s) (a == b) (r == s)
      (text_beq_iff (required a r) (required b s)) (text_beq_iff a b) (text_beq_iff r s)
      (required_inj a b r s h k, λ e. ap₂ (λ (x y : Text). required x y) (e.0) (e.1))

-- The two ways to cover both halves of a permission.
covers-eq :
    (any_action same_action any_resource same_resource : Bool)
    → (if any_action && any_resource
        then true
        else if same_action && same_resource
        then true
        else if any_action && same_resource
        then true
        else if any_resource && same_action
        then true
        else false)
      ≡ ((any_action || same_action) && (any_resource || same_resource))
covers-eq p q r s = ground arith

-- For permissions of the form `action:resource` whose actions have no colon, one matches another
-- exactly if its action is "*" or the same and its resource is "*" or the same.
pub permission_matches-required :
    (action resource t_action t_resource : Text)
    → IsPlain action
    → IsPlain t_action
    → permission_matches (required action resource) (required t_action t_resource) ≡ (
        ((action == star) || (action == t_action))
        && ((resource == star) || (resource == t_resource)))
unfolding permission_matches
permission_matches-required a r b s h k =
    rw
      (
        beq-required a star r star h ((λ e. absurd (omega arith)), tt),
        beq-required a b r s h k,
        split_once-required a r h,
        split_once-required b s k,
      )
      (covers-eq (a == star) (a == b) (r == star) (r == s))
