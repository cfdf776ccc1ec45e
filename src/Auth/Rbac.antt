-- ===== src/Auth/Rbac.antt =====
-- Role-based access control: nova-auth/src/rbac.rs, and its types in types.rs. Users are numbers, the
-- names of roles and permissions are texts, since permissions are taken apart at the colon. A
-- `HashSet` of permissions, which is only searched, is the list of what was put into it.
pub mod Matching
pub mod Grants
pub mod Removal
pub mod Assignment
pub mod Tests
use nova_runtime.Base.{
  ℕ, ◌+◌, Bool, true, false, ◌&&◌, List, [], ◌∷◌, ◌++◌, Option, none, some, map, if◌then◌else◌, any,
  all, retain, not, nat_beq, Text, Eq, ◌==◌, nat_eq, list_eq, Result, ok, err,
}
use nova_runtime.Base.Assoc.{Assoc, get, insert, remove}

pub record Role : Type 0 where
  pub name : Text
  pub description : Text
  pub permissions : List Text
  pub created_at : ℕ

pub record PermissionRequest : Type 0 where
  pub user_id : ℕ
  pub action : Text
  pub resource : Text
  pub context : Assoc Text Text

pub record RbacEngine : Type 0 where
  pub roles : Assoc Text Role
  pub user_roles : Assoc ℕ (List Text)

pub data RbacError : Type 0 where
  role_not_defined : Text → RbacError

abbrev pub new : RbacEngine
new = record { roles = []; user_roles = [] }

unfoldable pub define_role : Role → RbacEngine → RbacEngine
unfolding insert
define_role role e = record { roles = insert role.name role e.roles; user_roles = e.user_roles }

-- `roles.retain(|r| r != name)`.
abbrev pub without : Text → List Text → List Text
without name = retain (λ r. not (r == name))

-- `for user_roles in self.user_roles.values_mut()`.
unfoldable pub retain_roles : Text → Assoc ℕ (List Text) → Assoc ℕ (List Text)
retain_roles name [] = []
retain_roles name ((u, rs) ∷ m) = (u, without name rs) ∷ retain_roles name m

unfoldable pub remove_role : Text → RbacEngine → RbacEngine
unfolding remove
remove_role name e = record {
  roles = remove name e.roles;
  user_roles = retain_roles name e.user_roles;
}

-- `entry(user_id).or_default()`, and `unwrap_or_default()`.
abbrev pub or_empty : Option (List Text) → List Text
or_empty none = []
or_empty (some rs) = rs

unfoldable pub assign_role : ℕ → Text → RbacEngine → Result RbacError RbacEngine
assign_role user_id role_name e = elim (get role_name e.roles) [
  | none ↦ err (role_not_defined role_name)
  | some role ↦ ok (record {
    roles = e.roles;
    user_roles =
        insert user_id (or_empty (get user_id e.user_roles) ++ (role_name ∷ [])) e.user_roles;
  })
]

unfoldable pub unassign_role : ℕ → Text → RbacEngine → RbacEngine
unassign_role user_id role_name e = elim (get user_id e.user_roles) [
  | none ↦ e
  | some rs ↦ record {
    roles = e.roles;
    user_roles = insert user_id (without role_name rs) e.user_roles;
  }
]

abbrev pub colon : ℕ
colon = 58

-- `str::split_once(':')`.
unfoldable pub split_once : Text → Option (Text × Text)
split_once [] = none
split_once (c ∷ cs) =
    let rest = split_once cs in
    if nat_beq c colon
    then some ([], cs)
    else elim rest [ none ↦ none | some (a, b) ↦ some (c ∷ a, b) ]

-- The texts "*" and "*:*".
abbrev pub star : Text
star = 42 ∷ []

abbrev pub star_star : Text
star_star = 42 ∷ 58 ∷ 42 ∷ []

-- What follows the two `split_once`.
abbrev pub wildcard_matches : Option (Text × Text) → Option (Text × Text) → Bool
wildcard_matches (some (p_action, p_resource)) (some (t_action, t_resource)) =
    if (p_action == star) && (p_resource == t_resource)
    then true
    else if (p_resource == star) && (p_action == t_action)
    then true
    else false
wildcard_matches _ _ = false

unfoldable pub permission_matches : Text → Text → Bool
permission_matches given target =
    if given == star_star
    then true
    else if given == target
    then true
    else wildcard_matches (split_once given) (split_once target)

-- `perms.extend(role.permissions)`, where the role is defined.
abbrev pub extend_permissions : Option Role → List Text → List Text
extend_permissions none rest = rest
extend_permissions (some role) rest = role.permissions ++ rest

-- The loop over the names of a user's roles.
unfoldable pub permissions_of : Assoc Text Role → List Text → List Text
permissions_of roles [] = []
permissions_of roles (r ∷ rs) = extend_permissions (get r roles) (permissions_of roles rs)

unfoldable pub user_role_names : ℕ → RbacEngine → List Text
user_role_names user_id e = or_empty (get user_id e.user_roles)

unfoldable pub user_permissions : ℕ → RbacEngine → List Text
user_permissions user_id e = elim (get user_id e.user_roles) [
  | none ↦ []
  | some names ↦ permissions_of e.roles names
]

unfoldable pub has_permission : ℕ → Text → RbacEngine → Bool
has_permission user_id permission e =
    any (λ p. permission_matches p permission) (user_permissions user_id e)

unfoldable pub has_any_permission : ℕ → List Text → RbacEngine → Bool
has_any_permission user_id permissions e =
    any (λ p. any (λ up. permission_matches up p) (user_permissions user_id e)) permissions

unfoldable pub has_all_permissions : ℕ → List Text → RbacEngine → Bool
has_all_permissions user_id permissions e =
    all (λ p. any (λ up. permission_matches up p) (user_permissions user_id e)) permissions

-- `format!("{}:{}", request.action, request.resource)`.
abbrev pub required : Text → Text → Text
required action resource = action ++ (colon ∷ resource)

unfoldable pub evaluate : PermissionRequest → RbacEngine → Bool
evaluate request e =
    any (λ p. permission_matches p (required request.action request.resource))
      (user_permissions request.user_id e)

unfoldable pub role_names : RbacEngine → List Text
role_names e = map (λ (r : Text × Role). r.0) e.roles
