-- ===== src/Seed.antt =====
-- backend/app/db/seed.py: the roles and permissions that every deployment has, as
-- backend/app/models/__init__.py lists them.
pub mod Permissions
pub mod Roles
pub mod Repeated
use enterprise_auth_server.Common.{
  none, some, List, [], ◌∷◌, ◌++◌, Text, ◌==◌, text_eq, find, update,
}
use enterprise_auth_server.Core.Strings.{text}
use enterprise_auth_server.Models.{Permission, Role, Database}
use enterprise_auth_server.State.Exec.{Exec, ◌>>◌, modify}
use enterprise_auth_server.State.UnitOfWork.{commit}

-- PERMISSIONS
abbrev pub permission_list : List Permission
permission_list =
    record { code = text "manage_users"; description = text "Create, update, and delete users" }
    ∷ record { code = text "manage_roles"; description = text "Create, update, and delete roles" }
    ∷ record { code = text "manage_permissions"; description = text "Assign permissions to roles" }
    ∷ record { code = text "view_dashboard"; description = text "View the admin dashboard" }
    ∷ record {
      code = text "manage_api_keys";
      description = text "Create, rotate, and revoke API keys";
    }
    ∷ []

-- ROLES
abbrev pub role_list : List (Text × List Text)
role_list =
    (
      text "super_admin",
      text "manage_users"
          ∷ text "manage_roles"
          ∷ text "manage_permissions"
          ∷ text "view_dashboard"
          ∷ text "manage_api_keys"
          ∷ [],
    )
    ∷ (
      text "admin",
      text "manage_users"
          ∷ text "manage_roles"
          ∷ text "view_dashboard"
          ∷ text "manage_api_keys"
          ∷ [],
    )
    ∷ (text "staff", text "view_dashboard" ∷ [])
    ∷ (text "user", [])
    ∷ []

-- The permission with a code, created where it is missing. The code is unique in the table, as is a
-- role's name, so `scalar_one_or_none` finds at most one row.
unfoldable pub with_permission : Permission → List Permission → List Permission
unfolding find
with_permission p ps = elim (find (λ q. q.code == p.code) ps) [ some q ↦ ps | none ↦ ps ++ p ∷ [] ]

unfoldable pub with_permissions : List Permission → List Permission → List Permission
unfolding with_permission
with_permissions [] ps = ps
with_permissions (p ∷ more) ps = with_permissions more (with_permission p ps)

-- `[perms[c] for c in codes]`
unfoldable pub named : List Text → List Permission → List Permission
unfolding find
named [] ps = []
named (c ∷ cs) ps = elim (find (λ p. p.code == c) ps) [
  | some p ↦ p ∷ named cs ps
  | none ↦ named cs ps
]

-- The role with a name, created where it is missing, gets the permissions.
unfoldable pub with_role : Text → List Permission → List Role → List Role
unfolding find update
with_role name ps rs = elim (find (λ r. r.name == name) rs) [
  | some r ↦ update (λ r. r.name == name) (λ r. record r { permissions = ps }) rs
  | none ↦ rs ++ record { name = name; permissions = ps } ∷ []
]

unfoldable pub with_roles : List (Text × List Text) → List Permission → List Role → List Role
unfolding with_role named
with_roles [] ps rs = rs
with_roles ((name, codes) ∷ more) ps rs = with_roles more ps (with_role name (named codes ps) rs)

unfoldable pub seeded : Database → Database
unfolding with_permissions with_roles
seeded db =
    let ps = with_permissions permission_list db.permissions in
    record db { permissions = ps; roles = with_roles role_list ps db.roles }

-- `seed_rbac`
unfoldable pub seed_rbac : Exec (Unit {0})
unfolding seeded commit
seed_rbac = do modify (λ w. record w { db = seeded w.db }); commit
