-- ===== src/Auth/Rbac/Grants.antt =====
-- When a user has a permission: user_permissions and has_permission of nova-auth/src/rbac.rs.
use nova_runtime.Base.{
  ℕ, ◌≡◌, ◌↔◌, ◌⊎◌, inl, inr, refl, ap, ap₂, Bool, true, List, [], ◌∷◌, ◌++◌, Option, none, some,
  Option-cases, if◌then◌else◌, any, any-append, any_iff, Any, Text, nat_eq, list_eq, arith,
}
use mathlib.Core.Path.{subst}
use nova_runtime.Base.Assoc.{Assoc, get}
use nova_runtime.Auth.Rbac.{
  Role, RbacEngine, or_empty, permission_matches, extend_permissions, permissions_of,
  user_role_names, user_permissions, has_permission,
}

user_permissions-step :
    (roles : Assoc Text Role) (o : Option (List Text))
    → elim o [ none ↦ [] | some names ↦ permissions_of roles names ]
      ≡ permissions_of roles (or_empty o)
unfolding permissions_of
user_permissions-step roles none = refl
user_permissions-step roles (some rs) = refl

pub user_permissions-eq :
    (u : ℕ) (e : RbacEngine) → user_permissions u e ≡ permissions_of e.roles (user_role_names u e)
unfolding user_permissions user_role_names
user_permissions-eq u e = user_permissions-step e.roles (get u e.user_roles)

permissions_of-none :
    (roles : Assoc Text Role) (r : Text) (rs : List Text)
    → get r roles ≡ none
    → permissions_of roles (r ∷ rs) ≡ permissions_of roles rs
unfolding permissions_of
permissions_of-none roles r rs h =
    ap (λ (o : Option Role). extend_permissions o (permissions_of roles rs)) h

permissions_of-some :
    (roles : Assoc Text Role) (r : Text) (rs : List Text) (role : Role)
    → get r roles ≡ some role
    → permissions_of roles (r ∷ rs) ≡ role.permissions ++ permissions_of roles rs
unfolding permissions_of
permissions_of-some roles r rs role h =
    ap (λ (o : Option Role). extend_permissions o (permissions_of roles rs)) h

pub permissions_of-get :
    (roles others : Assoc Text Role) (r : Text) (rs names : List Text)
    → get r roles ≡ get r others
    → permissions_of roles rs ≡ permissions_of others names
    → permissions_of roles (r ∷ rs) ≡ permissions_of others (r ∷ names)
unfolding permissions_of
permissions_of-get roles others r rs names h k =
    ap₂ (λ (o : Option Role) (ps : List Text). extend_permissions o ps) h k

-- `Grants e name target`: the role of that name is defined and has a permission that matches.
abbrev pub Grants : RbacEngine → Text → Text → Type 0
Grants e target name =
    (role : Role) × (get name e.roles ≡ some role)
    × Any (λ p. permission_matches p target ≡ true) role.permissions

or_iff : (x y : Bool) → ((if x then true else y) ≡ true) ↔ ((x ≡ true) ⊎ (y ≡ true))
or_iff x y = (λ h. ground arith, λ h. ground arith)

Grants-some :
    (e : RbacEngine) (target name : Text) (role : Role)
    → get name e.roles ≡ some role
    → Grants e target name
    → Any (λ p. permission_matches p target ≡ true) role.permissions
Grants-some e target name role h (other, k, a) =
    let same : other ≡ role = cc in
    subst (λ (o : Role). Any (λ p. permission_matches p target ≡ true) o.permissions) same a

module _ (e : RbacEngine) (target : Text) where
  -- The permissions of one role before those of others.
  Granted-some :
      (r : Text) (rs : List Text) (role : Role)
      → get r e.roles ≡ some role
      → (any (λ p. permission_matches p target) (permissions_of e.roles rs) ≡ true)
        ↔ Any (Grants e target) rs
      → ((if any (λ p. permission_matches p target) role.permissions
            then true
            else any (λ p. permission_matches p target) (permissions_of e.roles rs))
          ≡ true)
        ↔ Any (Grants e target) (r ∷ rs)
  Granted-some r rs role h ih =
      let one = any_iff (λ p. permission_matches p target) role.permissions in
      let two =
        or_iff (any (λ p. permission_matches p target) role.permissions)
          (any (λ p. permission_matches p target) (permissions_of e.roles rs)) in
      (
        λ k. elim (two.0 k) [ inl a ↦ inl (role, h, one.0 a) | inr a ↦ inr (ih.0 a) ],
        λ k. elim k [
          | inl a ↦ two.1 (inl (one.1 (Grants-some e target r role h a)))
          | inr a ↦ two.1 (inr (ih.1 a))
        ],
      )

  Granted-nil :
      any (λ p. permission_matches p target) (permissions_of e.roles []) ≡ true
      → Any (Grants e target) []
  unfolding permissions_of
  Granted-nil h = cc

  Granted_iff :
      (names : List Text)
      → (any (λ p. permission_matches p target) (permissions_of e.roles names) ≡ true)
        ↔ Any (Grants e target) names
  Granted_iff [] = (Granted-nil, λ h. absurd h)
  Granted_iff (r ∷ rs) = elim (Option-cases (get r e.roles)) [
    | inl h ↦ rw (permissions_of-none e.roles r rs h) (
      λ k. inr ((Granted_iff rs).0 k),
      λ k. elim k [
        | inl (role, g, a) ↦ absurd (ground (arith, h, g))
        | inr a ↦ (Granted_iff rs).1 a
      ],
    )
    | inr (role, h) ↦
        rw
          (
            permissions_of-some e.roles r rs role h,
            any-append (λ p. permission_matches p target) role.permissions
                (permissions_of e.roles rs),
          )
          (Granted-some r rs role h (Granted_iff rs))
  ]

-- A user has a permission exactly if the name of a defined role, one of whose permissions matches
-- it, is among the names of roles assigned to the user.
pub has_permission_iff :
    (u : ℕ) (target : Text) (e : RbacEngine)
    → (has_permission u target e ≡ true) ↔ Any (Grants e target) (user_role_names u e)
unfolding has_permission
has_permission_iff u target e =
    rw (user_permissions-eq u e) (Granted_iff e target (user_role_names u e))
