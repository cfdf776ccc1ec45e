-- ===== src/Auth/Rbac/Assignment.antt =====
-- Giving a role to a user: assign_role of nova-auth/src/rbac.rs.
use nova_runtime.Base.{
  ℕ, ◌≡◌, inl, inr, refl, sym, ap, ◌∙◌, false, ◌||◌, append-nil, append_assoc, List, [], ◌∷◌, ◌++◌,
  Option, none, some, if◌then◌else◌, any, any-append, nat_beq_iff, Text, ◌==◌, nat_eq, list_eq,
  Bool-cases, Result, ok, err, arith,
}
use nova_runtime.Base.Assoc.{Assoc, get, insert, get-insert}
use nova_runtime.Auth.Rbac.{
  Role, RbacEngine, RbacError, or_empty, assign_role, permission_matches, extend_permissions,
  permissions_of, user_role_names, has_permission, role_not_defined,
}
use nova_runtime.Auth.Rbac.Grants.{user_permissions-eq}

-- The outcomes of assigning a role, for the permissions of a user `v`.
abbrev pub AssignOutcome : ℕ → ℕ → Text → Text → RbacEngine → Result RbacError RbacEngine → Type 0
AssignOutcome u v name target e (err x) = (get name e.roles ≡ none) × (x ≡ role_not_defined name)
AssignOutcome u v name target e (ok after) =
    (role : Role) × (get name e.roles ≡ some role)
    × (has_permission v target after ≡ (
        has_permission v target e
        || (if u == v then any (λ p. permission_matches p target) role.permissions else false)))

user_role_names-insert :
    (u v : ℕ) (name : Text) (e : RbacEngine)
    → user_role_names v (record {
      roles = e.roles;
      user_roles = insert u (or_empty (get u e.user_roles) ++ (name ∷ [])) e.user_roles;
    })
      ≡ (if u == v then user_role_names v e ++ (name ∷ []) else user_role_names v e)
unfolding user_role_names
user_role_names-insert u v name e =
    rw (get-insert u v (or_empty (get u e.user_roles) ++ (name ∷ [])) e.user_roles)
      (elim (Bool-cases (u == v)) [
        | inl h ↦
            rw h
              (ap (λ (w : ℕ). or_empty (get w e.user_roles) ++ (name ∷ [])) ((nat_beq_iff u v).0 h))
        | inr h ↦ rw h refl
      ])

extend_permissions-append :
    (o : Option Role) (xs ys : List Text)
    → extend_permissions o (xs ++ ys) ≡ extend_permissions o xs ++ ys
extend_permissions-append none xs ys = refl
extend_permissions-append (some role) xs ys = sym (append_assoc role.permissions xs ys)

permissions_of-append :
    (roles : Assoc Text Role) (names : List Text) (name : Text) (role : Role)
    → get name roles ≡ some role
    → permissions_of roles (names ++ (name ∷ [])) ≡ permissions_of roles names ++ role.permissions
unfolding permissions_of
permissions_of-append roles [] name role h = rw h (append-nil role.permissions)
permissions_of-append roles (r ∷ rs) name role h =
    ap (λ (ps : List Text). extend_permissions (get r roles) ps)
      (permissions_of-append roles rs name role h)
    ∙ extend_permissions-append (get r roles) (permissions_of roles rs) role.permissions

module _ (u v : ℕ) (name target : Text) (e : RbacEngine) where
  assigned : RbacEngine
  assigned = record {
    roles = e.roles;
    user_roles = insert u (or_empty (get u e.user_roles) ++ (name ∷ [])) e.user_roles;
  }

  has_permission-assigned :
      (role : Role)
      → get name e.roles ≡ some role
      → has_permission v target assigned ≡ (
          has_permission v target e
          || (if u == v then any (λ p. permission_matches p target) role.permissions else false))
  unfolding has_permission assigned
  has_permission-assigned role h =
      rw
        (user_permissions-eq v e, user_permissions-eq v assigned, user_role_names-insert u v name e)
        (elim (Bool-cases (u == v)) [
          | inl k ↦
              rw
                (
                  k,
                  permissions_of-append e.roles (user_role_names v e) name role h,
                  any-append (λ p. permission_matches p target)
                      (permissions_of e.roles (user_role_names v e)) role.permissions,
                )
                (ground arith)
          | inr k ↦ rw k (ground arith)
        ])

  assign_role-cases :
      (o : Option Role)
      → get name e.roles ≡ o
      → AssignOutcome u v name target e (elim o as (λ _. Result RbacError RbacEngine) [
        | none ↦ err (role_not_defined name)
        | some role ↦ ok assigned
      ])
  assign_role-cases none h = (h, refl)
  assign_role-cases (some role) h = (role, h, has_permission-assigned role h)

-- Assigning a role fails, with the error for an undefined role, exactly if the role is not
-- defined; otherwise the user has, besides the permissions held before, those that a permission of
-- the role matches, and any other user has the same permissions as before.
pub has_permission-assign_role :
    (u v : ℕ) (name target : Text) (e : RbacEngine)
    → AssignOutcome u v name target e (assign_role u name e)
unfolding assign_role assigned
has_permission-assign_role u v name target e =
    assign_role-cases u v name target e (get name e.roles) refl
