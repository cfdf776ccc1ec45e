-- ===== src/Auth/Rbac/Removal.antt =====
-- Taking roles away: remove_role and unassign_role of nova-auth/src/rbac.rs.
use nova_runtime.Base.{
  ℕ, ◌≡◌, ◌≢◌, inl, inr, refl, sym, ap, ◌∙◌, List, [], ◌∷◌, Option, none, some, if◌then◌else◌, All,
  nat_beq_iff, Text, ◌==◌, ==_refl, nat_eq, list_eq, list_beq_iff, Bool-cases, arith,
}
use mathlib.Core.Path.{subst}
use nova_runtime.Base.Assoc.{Assoc, get, insert, remove, get-insert, get-insert_ne, get-remove_ne}
use nova_runtime.Auth.Rbac.{
  Role, RbacEngine, define_role, without, retain_roles, remove_role, or_empty, unassign_role,
  permissions_of, user_role_names, user_permissions, has_permission,
}
use nova_runtime.Auth.Rbac.Grants.{user_permissions-eq, permissions_of-get}

get-retain_roles :
    (name : Text) (u : ℕ) (m : Assoc ℕ (List Text))
    → or_empty (get u (retain_roles name m)) ≡ without name (or_empty (get u m))
unfolding get retain_roles
get-retain_roles name u [] = refl
get-retain_roles name u ((v, rs) ∷ m) = elim (Bool-cases (v == u)) [
  | inl h ↦ rw h refl
  | inr h ↦ rw h (get-retain_roles name u m)
]

user_role_names-remove_role :
    (u : ℕ) (name : Text) (e : RbacEngine)
    → user_role_names u (remove_role name e) ≡ without name (user_role_names u e)
unfolding user_role_names remove_role
user_role_names-remove_role u name e = get-retain_roles name u e.user_roles

names-unassign :
    (u v : ℕ) (name : Text) (e : RbacEngine) (o : Option (List Text))
    → get u e.user_roles ≡ o
    → user_role_names v (elim o [
      | none ↦ e
      | some rs ↦ record { roles = e.roles; user_roles = insert u (without name rs) e.user_roles }
    ])
      ≡ (if u == v then without name (user_role_names v e) else user_role_names v e)
unfolding user_role_names
names-unassign u v name e none h = elim (Bool-cases (u == v)) [
  | inl k ↦ rw k (
      let same : u ≡ v = (nat_beq_iff u v).0 k in
      let missing : get v e.user_roles ≡ none = ap (λ (w : ℕ). get w e.user_roles) (sym same) ∙ h in
      rw missing refl)
  | inr k ↦ rw k refl
]
names-unassign u v name e (some rs) h = elim (Bool-cases (u == v)) [
  | inl k ↦
      rw (get-insert u v (without name rs) e.user_roles, k)
        (let same : u ≡ v = (nat_beq_iff u v).0 k in
          let found : get v e.user_roles ≡ some rs =
            ap (λ (w : ℕ). get w e.user_roles) (sym same) ∙ h in
          rw found refl)
  | inr k ↦ rw (get-insert u v (without name rs) e.user_roles, k) refl
]

user_role_names-unassign_role :
    (u v : ℕ) (name : Text) (e : RbacEngine)
    → user_role_names v (unassign_role u name e)
      ≡ (if u == v then without name (user_role_names v e) else user_role_names v e)
unfolding unassign_role
user_role_names-unassign_role u v name e = names-unassign u v name e (get u e.user_roles) refl

-- Roles that agree on the names give the same permissions.
permissions_of-ext :
    (roles others : Assoc Text Role) (names : List Text)
    → All (λ (r : Text). get r roles ≡ get r others) names
    → permissions_of roles names ≡ permissions_of others names
unfolding permissions_of
permissions_of-ext roles others [] h = refl
permissions_of-ext roles others (r ∷ rs) h =
    permissions_of-get roles others r rs rs h.0 (permissions_of-ext roles others rs h.1)

without-All : (name : Text) (names : List Text) → All (λ (r : Text). name ≢ r) (without name names)
without-All name [] = tt
without-All name (r ∷ rs) = elim (Bool-cases (r == name)) [
  | inl h ↦ rw h (without-All name rs)
  | inr h ↦ rw h ((λ k. ground (arith, h, k, list_beq_iff r name)), without-All name rs)
]

-- A role once removed, the permissions of everyone are those of the other roles.
permissions_of-remove :
    (name : Text) (roles : Assoc Text Role) (names : List Text)
    → All (λ (r : Text). name ≢ r) names
    → permissions_of (remove name roles) names ≡ permissions_of roles names
unfolding permissions_of
permissions_of-remove name roles [] h = refl
permissions_of-remove name roles (r ∷ rs) h =
    permissions_of-get (remove name roles) roles r rs rs (get-remove_ne name r roles h.0)
      (permissions_of-remove name roles rs h.1)

permissions_of-insert :
    (name : Text) (role : Role) (roles : Assoc Text Role) (names : List Text)
    → All (λ (r : Text). name ≢ r) names
    → permissions_of (insert name role roles) names ≡ permissions_of roles names
unfolding permissions_of
permissions_of-insert name role roles [] h = refl
permissions_of-insert name role roles (r ∷ rs) h =
    permissions_of-get (insert name role roles) roles r rs rs (get-insert_ne name r role roles h.0)
      (permissions_of-insert name role roles rs h.1)

module _ (u : ℕ) (name : Text) (e : RbacEngine) where
  roles-unassign :
      (o : Option (List Text))
      → (elim o as (λ _. RbacEngine) [
        | none ↦ e
        | some rs ↦ record { roles = e.roles; user_roles = insert u (without name rs) e.user_roles }
      ]).roles
        ≡ e.roles
  roles-unassign none = refl
  roles-unassign (some rs) = refl

  roles-unassign_role : (unassign_role u name e).roles ≡ e.roles
  unfolding unassign_role
  roles-unassign_role = roles-unassign (get u e.user_roles)

  user_permissions-remove_role :
      user_permissions u (remove_role name e)
      ≡ permissions_of e.roles (without name (user_role_names u e))
  unfolding remove_role
  user_permissions-remove_role =
      rw (user_permissions-eq u (remove_role name e), user_role_names-remove_role u name e)
        (permissions_of-remove name e.roles (without name (user_role_names u e))
          (without-All name (user_role_names u e)))

  user_permissions-unassign_role :
      user_permissions u (unassign_role u name e)
      ≡ permissions_of e.roles (without name (user_role_names u e))
  user_permissions-unassign_role =
      rw
        (
          user_permissions-eq u (unassign_role u name e),
          user_role_names-unassign_role u u name e,
          roles-unassign_role,
          ==_refl u,
        )
        refl

  without-remove_role :
      (role : Role)
      → role.name ≡ name
      → All (λ (r : Text). role.name ≢ r) (user_role_names u (remove_role name e))
  without-remove_role role h = rw (user_role_names-remove_role u name e) (
      subst (λ (n : Text). All (λ (r : Text). n ≢ r) (without name (user_role_names u e))) (sym h)
        (without-All name (user_role_names u e)))

  user_permissions-define_role :
      (role : Role)
      → role.name ≡ name
      → user_permissions u (define_role role (remove_role name e))
        ≡ user_permissions u (remove_role name e)
  unfolding define_role user_role_names
  user_permissions-define_role role h =
      let removed = remove_role name e in
      user_permissions-eq u (define_role role removed)
      ∙ permissions_of-insert role.name role removed.roles (user_role_names u removed)
          (without-remove_role role h)
      ∙ sym (user_permissions-eq u removed)

  -- After a role is removed, a user has the permissions that the user would have after being
  -- unassigned that role, and a later definition of a role of that name gives the user no
  -- permission.
  pub has_permission-remove_role :
      (target : Text) (role : Role)
      → role.name ≡ name
      → (has_permission u target (remove_role name e)
          ≡ has_permission u target (unassign_role u name e))
        × (has_permission u target (define_role role (remove_role name e))
            ≡ has_permission u target (remove_role name e))
  unfolding has_permission
  has_permission-remove_role target role h = (
    rw (user_permissions-remove_role, user_permissions-unassign_role) refl,
    rw (user_permissions-define_role role h) refl,
  )
