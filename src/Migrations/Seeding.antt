-- ===== src/Migrations/Seeding.antt =====
-- `_seed_rbac` of backend/migrations/versions/27a02d36d4fb_initial_schema.py
use enterprise_auth_server.Common.{
  ℕ, ◌+◌, Option, List, [], ◌∷◌, ◌++◌, Text, find, length, ◌==◌, text_eq,
}
use enterprise_auth_server.Common.Partial.{◌>>=◌, pure}
use enterprise_auth_server.Core.Strings.{text}
use enterprise_auth_server.Models.{Permission}
use enterprise_auth_server.Seed.{permission_list, role_list}
use enterprise_auth_server.Migrations.{Value, uuid, str, bulk_insert, Script}

-- `{code: uuid.uuid4() for code in PERMISSIONS}`, where `ids k` is the answer of the k-th call
unfoldable pub permission_ids : (ℕ → ℕ) → ℕ → List Permission → List (Text × ℕ)
permission_ids ids k [] = []
permission_ids ids k (p ∷ ps) = (p.code, ids k) ∷ permission_ids ids (k + 1) ps

-- `perm_ids[code]`, where a key that is missing raises
unfoldable pub id_of : Text → List (Text × ℕ) → Option ℕ
unfolding find
id_of code perm_ids = do entry ← find (λ (e : Text × ℕ). e.0 == code) perm_ids; pure entry.1

unfoldable pub permission_rows : List (Text × ℕ) → List Permission → Option (List (List Value))
unfolding id_of
permission_rows perm_ids [] = pure []
permission_rows perm_ids (p ∷ ps) = do
  id ← id_of p.code perm_ids
  rows ← permission_rows perm_ids ps
  pure ((uuid id ∷ str p.code ∷ str p.description ∷ []) ∷ rows)

-- The links of one role to its permissions.
unfoldable pub links_of : ℕ → List (Text × ℕ) → List Text → Option (List (List Value))
unfolding id_of
links_of role_id perm_ids [] = pure []
links_of role_id perm_ids (code ∷ codes) = do
  id ← id_of code perm_ids
  rows ← links_of role_id perm_ids codes
  pure ((uuid role_id ∷ uuid id ∷ []) ∷ rows)

-- The rows of the roles and of their links.
abbrev pub RoleRows : Type 0
RoleRows = List (List Value) × List (List Value)

-- The loop over ROLES.
unfoldable pub role_rows : (ℕ → ℕ) → ℕ → List (Text × ℕ) → List (Text × List Text) → Option RoleRows
unfolding links_of
role_rows ids k perm_ids [] = pure ([], [])
role_rows ids k perm_ids ((name, codes) ∷ more) = do
  links ← links_of (ids k) perm_ids codes
  rest ← role_rows ids (k + 1) perm_ids more
  pure ((uuid (ids k) ∷ str name ∷ str (name ++ text " role") ∷ []) ∷ rest.0, links ++ rest.1)

-- `if link_rows:`
abbrev insert_links : List (List Value) → Script
insert_links [] = []
insert_links (row ∷ rows) =
    bulk_insert "role_permissions" ("role_id" ∷ "permission_id" ∷ []) (row ∷ rows) ∷ []

-- `_seed_rbac`
unfoldable pub seed_statements : (ℕ → ℕ) → Option Script
unfolding permission_ids permission_rows role_rows
seed_statements ids = do
  let perm_ids = permission_ids ids 0 permission_list
  rows ← permission_rows perm_ids permission_list
  roles ← role_rows ids (length permission_list) perm_ids role_list
  pure (
      bulk_insert "permissions" ("id" ∷ "code" ∷ "description" ∷ []) rows
      ∷ bulk_insert "roles" ("id" ∷ "name" ∷ "description" ∷ []) roles.0
      ∷ insert_links roles.1)
