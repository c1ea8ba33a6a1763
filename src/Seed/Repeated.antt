-- ===== src/Seed/Repeated.antt =====
-- `seed_rbac` of db/seed.py, once and again.
use enterprise_auth_server.Common.{
  true, false, inl, inr, List, [], ◌∷◌, Text, ◌==◌, text_eq, text_beq, ◌≡◌, refl, ap, ◌∙◌, arith,
  find, any, All, if◌then◌else◌, Bool-cases, Option-cases, All-map, find_holds,
  any-eq-false_of_find,
}
use enterprise_auth_server.Models.{Permission, Role, Database}
use enterprise_auth_server.State.World.{World}
use enterprise_auth_server.State.Exec.{ok}
use enterprise_auth_server.Seed.Permissions.{
  has_code, HasCodes, with_permissions-HasCodes, with_permissions-same,
}
use enterprise_auth_server.Seed.Roles.{
  Fits, unfitted, has_name, IsDone, with_role-IsDone, with_role_keeps, with_role-same,
}
use enterprise_auth_server.Seed.{
  permission_list, role_list, with_permissions, named, with_roles, seeded, seed_rbac,
}

-- The role has another name than each role of the list.
abbrev Apart : Text → List (Text × List Text) → Type 0
Apart n more = All (λ (e : Text × List Text). (e.0 == n) ≡ false) more

abbrev Distinct : List (Text × List Text) → Type 0
Distinct [] = Unit
Distinct ((n, codes) ∷ more) = Apart n more × Distinct more

abbrev AllDone : List Permission → List Role → List (Text × List Text) → Type 0
AllDone ps rs more = All (λ (e : Text × List Text). IsDone e.0 (named e.1 ps) rs) more

with_roles_keep :
    (n : Text) (qs ps : List Permission) (more : List (Text × List Text)) (rs : List Role)
    → Apart n more
    → IsDone n qs rs
    → IsDone n qs (with_roles more ps rs)
unfolding with_roles
with_roles_keep n qs ps [] rs a d = d
with_roles_keep n qs ps ((m, codes) ∷ more) rs a d =
    with_roles_keep n qs ps more _ a.1 (with_role_keeps m n (named codes ps) qs rs a.0 d)

with_roles-AllDone :
    (more : List (Text × List Text)) (ps : List Permission) (rs : List Role)
    → Distinct more
    → AllDone ps (with_roles more ps rs) more
unfolding with_roles
with_roles-AllDone [] ps rs d = tt
with_roles-AllDone ((n, codes) ∷ more) ps rs d = (
  with_roles_keep n _ ps more _ d.0 (with_role-IsDone n (named codes ps) rs),
  with_roles-AllDone more ps _ d.1,
)

with_roles-same :
    (more : List (Text × List Text)) (ps : List Permission) (rs : List Role)
    → AllDone ps rs more
    → with_roles more ps rs ≡ rs
unfolding with_roles
with_roles-same [] ps rs d = refl
with_roles-same ((n, codes) ∷ more) ps rs d =
    rw (with_role-same n (named codes ps) rs d.0) (with_roles-same more ps rs d.1)

unfoldable pub codes_of : List Permission → List Text
codes_of [] = []
codes_of (p ∷ ps) = p.code ∷ codes_of ps

abbrev Known : List Permission → List Text → Type 0
Known ps codes = All (λ (c : Text). any (has_code c) ps ≡ true) codes

codes_of-named :
    (codes : List Text) (ps : List Permission) → Known ps codes → codes_of (named codes ps) ≡ codes
unfolding codes_of named
codes_of-named [] ps k = refl
codes_of-named (c ∷ codes) ps k = elim (Option-cases (find (has_code c) ps)) [
  | inl e ↦ absurd (ground (arith, k.0, any-eq-false_of_find (has_code c) ps e))
  | inr (p, e) ↦
      let same : p.code ≡ c = (text_eq.same_iff p.code c).0 (find_holds (has_code c) ps p e) in
      rw (named, e)
        (ap (λ (d : Text). d ∷ codes_of (named codes ps)) same
          ∙ ap (λ (ds : List Text). c ∷ ds) (codes_of-named codes ps k.1))
]

-- There is a role of this name, and each role of it grants exactly these codes.
abbrev pub GrantsOnly : Text → List Text → Role → Type 0
GrantsOnly n codes r = if has_name n r then codes_of r.permissions ≡ codes else Unit

pub record Grants (rs : List Role) (entry : Text × List Text) : Type 0 where
  pub there : any (has_name entry.0) rs ≡ true
  pub only : All (GrantsOnly entry.0 entry.1) rs

Fits-GrantsOnly :
    (n : Text) (codes : List Text) (ps : List Permission) (r : Role)
    → Known ps codes
    → Fits n (named codes ps) r
    → GrantsOnly n codes r
Fits-GrantsOnly n codes ps r k f = elim (Bool-cases (has_name n r)) [
  | inl e ↦
      let same = unfitted n (named codes ps) r e f in
      rw e (ap codes_of same ∙ codes_of-named codes ps k)
  | inr e ↦ rw e tt
]

all_granted :
    (more : List (Text × List Text)) (ps : List Permission) (rs : List Role)
    → All (λ (e : Text × List Text). Known ps e.1) more
    → AllDone ps rs more
    → All (Grants rs) more
all_granted [] ps rs k d = tt
all_granted ((n, codes) ∷ more) ps rs k d = (
  record {
    there = d.0.there;
    only = All-map _ _ rs (λ r. Fits-GrantsOnly n codes ps r k.0) d.0.fits;
  },
  all_granted more ps rs k.1 d.1,
)

role_names_differ : Distinct role_list
unfolding text_beq
role_names_differ = (search)

-- The roles only name permissions of the list.
codes-Known :
    (ps : List Permission)
    → HasCodes permission_list ps
    → All (λ (e : Text × List Text). Known ps e.1) role_list
codes-Known ps h = (search)

-- Seeding a seeded database changes nothing.
seeded-seeded : (db : Database) → seeded (seeded db) ≡ seeded db
unfolding seeded
seeded-seeded db =
    let ps = with_permissions permission_list db.permissions in
    let rs = with_roles role_list ps db.roles in
    rw
      (
        with_permissions-same permission_list ps
            (with_permissions-HasCodes permission_list db.permissions),
        with_roles-same role_list ps rs
            (with_roles-AllDone role_list ps db.roles role_names_differ),
      )
      refl

seeded-Grants : (db : Database) → All (Grants (seeded db).roles) role_list
unfolding seeded
seeded-Grants db =
    let ps = with_permissions permission_list db.permissions in
    all_granted role_list ps (with_roles role_list ps db.roles)
      (codes-Known ps (with_permissions-HasCodes permission_list db.permissions))
      (with_roles-AllDone role_list ps db.roles role_names_differ)

-- seed_rbac always returns and commits, a second run changes nothing, and afterwards, whatever the
-- tables held, each role of ROLES is in the table, and every role of its name grants exactly the
-- codes listed for it.
pub seed_rbac_twice :
    (w : World)
    → ((seed_rbac w).0 ≡ ok tt)
      × (seed_rbac (seed_rbac w).1 ≡ seed_rbac w)
      × All (Grants (seed_rbac w).1.committed.roles) role_list
unfolding seed_rbac
seed_rbac_twice w = (refl, rw (seeded-seeded w.db) refl, seeded-Grants w.db)
