-- ===== src/Seed/Permissions.antt =====
-- The permissions that db/seed.py leaves in the table.
use enterprise_auth_server.Common.{
  Bool, true, inl, inr, List, [], ◌∷◌, Text, ◌==◌, ==_refl, text_eq, ◌≡◌, refl, arith, find, any,
  All, Option-cases, any-append_left, any-append_last, any_of_find, any-eq-false_of_find,
}
use enterprise_auth_server.Models.{Permission}
use enterprise_auth_server.Seed.{with_permission, with_permissions}

abbrev pub has_code : Text → Permission → Bool
has_code c p = p.code == c

with_permission-same :
    (p : Permission) (ps : List Permission)
    → any (has_code p.code) ps ≡ true
    → with_permission p ps ≡ ps
unfolding with_permission
with_permission-same p ps h = elim (Option-cases (find (has_code p.code) ps)) [
  | inl e ↦ absurd (ground (arith, h, any-eq-false_of_find (has_code p.code) ps e))
  | inr (q, e) ↦ rw (e, with_permission) refl
]

any-with_permission :
    (c : Text) (p : Permission) (ps : List Permission)
    → any (has_code c) ps ≡ true
    → any (has_code c) (with_permission p ps) ≡ true
unfolding with_permission
any-with_permission c p ps h = elim (Option-cases (find (has_code p.code) ps)) [
  | inl e ↦ rw (with_permission, e) (any-append_left (has_code c) ps (p ∷ []) h)
  | inr (q, e) ↦ rw (with_permission, e) h
]

-- The permission that is asked for is there afterwards.
any-with_permission_own :
    (p : Permission) (ps : List Permission) → any (has_code p.code) (with_permission p ps) ≡ true
unfolding with_permission
any-with_permission_own p ps = elim (Option-cases (find (has_code p.code) ps)) [
  | inl e ↦ rw (with_permission, e) (any-append_last (has_code p.code) ps p (==_refl p.code))
  | inr (q, e) ↦ rw (with_permission, e) (any_of_find (has_code p.code) ps q e)
]

any-with_permissions :
    (c : Text) (more ps : List Permission)
    → any (has_code c) ps ≡ true
    → any (has_code c) (with_permissions more ps) ≡ true
unfolding with_permissions
any-with_permissions c [] ps h = h
any-with_permissions c (p ∷ more) ps h =
    any-with_permissions c more (with_permission p ps) (any-with_permission c p ps h)

-- Every permission of the list is there.
abbrev pub HasCodes : List Permission → List Permission → Type 0
HasCodes more ps = All (λ (p : Permission). any (has_code p.code) ps ≡ true) more

pub with_permissions-HasCodes :
    (more ps : List Permission) → HasCodes more (with_permissions more ps)
unfolding with_permissions
with_permissions-HasCodes [] ps = tt
with_permissions-HasCodes (p ∷ more) ps = (
  any-with_permissions p.code more (with_permission p ps) (any-with_permission_own p ps),
  with_permissions-HasCodes more (with_permission p ps),
)

pub with_permissions-same :
    (more ps : List Permission) → HasCodes more ps → with_permissions more ps ≡ ps
unfolding with_permissions
with_permissions-same [] ps h = refl
with_permissions-same (p ∷ more) ps h =
    rw (with_permission-same p ps h.0) (with_permissions-same more ps h.1)
