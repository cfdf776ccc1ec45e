-- ===== src/Auth/Rbac/Tests.antt =====
-- The access control of nova-auth/src/rbac.rs at concrete inputs.
use nova_runtime.Base.{◌≡◌, ◌↔◌, refl, true, false, [], ◌∷◌, Any, nat_eq, list_eq, Text, ok, arith}
use nova_runtime.Base.Assoc.{get, insert}
use nova_runtime.Auth.Rbac.{
  Role, PermissionRequest, RbacEngine, new, define_role, remove_role, assign_role, unassign_role,
  required, star, split_once, permission_matches, permissions_of, user_role_names, user_permissions,
  has_permission, evaluate,
}
use nova_runtime.Auth.Rbac.Matching.{IsPlain}
use nova_runtime.Auth.Rbac.Grants.{Grants, has_permission_iff}
use nova_runtime.Auth.Rbac.Removal.{has_permission-remove_role}

-- Words in one letter each.
abbrev read : Text
read = 114 ∷ []

abbrev write : Text
write = 119 ∷ []

abbrev document : Text
document = 100 ∷ []

abbrev editor_name : Text
editor_name = 101 ∷ []

abbrev viewer_name : Text
viewer_name = 118 ∷ []

abbrev editor : Role
editor = record {
  name = editor_name;
  description = [];
  permissions = required read document ∷ required write document ∷ [];
  created_at = 0;
}

abbrev viewer : Role
viewer = record {
  name = viewer_name;
  description = [];
  permissions = required read star ∷ [];
  created_at = 0;
}

abbrev engine : RbacEngine
engine = record {
  roles = (editor_name, editor) ∷ (viewer_name, viewer) ∷ [];
  user_roles = (7, editor_name ∷ []) ∷ [];
}

defined :
    define_role viewer (define_role editor new) ≡ record { roles = engine.roles; user_roles = [] }
unfolding define_role insert
defined = refl

assigned : assign_role 7 editor_name (define_role viewer (define_role editor new)) ≡ ok engine
unfolding assign_role define_role insert get
assigned = refl

abbrev write_request : PermissionRequest
write_request = record { user_id = 7; action = write; resource = document; context = [] }

allowed : evaluate write_request engine ≡ true
unfolding evaluate user_permissions permissions_of permission_matches split_once get
allowed = refl

denied : evaluate write_request (unassign_role 7 editor_name engine) ≡ false
unfolding evaluate unassign_role user_permissions permissions_of permission_matches split_once get
    insert
denied = refl

read-IsPlain : IsPlain read
read-IsPlain = ((λ e. absurd (omega arith)), tt)

has_permission_iff_example :
    (has_permission 7 (required read document) engine ≡ true)
    ↔ Any (Grants engine (required read document)) (user_role_names 7 engine)
has_permission_iff_example = has_permission_iff 7 (required read document) engine

has_permission-remove_role_example :
    (has_permission 7 (required read document) (remove_role editor_name engine)
      ≡ has_permission 7 (required read document) (unassign_role 7 editor_name engine))
    × (has_permission 7
          (required read document)
          (define_role editor (remove_role editor_name engine))
        ≡ has_permission 7 (required read document) (remove_role editor_name engine))
has_permission-remove_role_example =
    has_permission-remove_role 7 editor_name engine (required read document) editor refl
