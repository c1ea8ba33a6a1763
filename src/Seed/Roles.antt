-- ===== src/Seed/Roles.antt =====
-- What db/seed.py leaves in the tables of roles and permissions, also when it runs again.
use enterprise_auth_server.Common.{
  Bool, true, false, inl, inr, List, [], ◌∷◌, Text, ◌==◌, ==_refl, text_eq, ◌≡◌, refl, sym, ap,
  subst, ◌∙◌, arith, find, update, any, All, if◌then◌else◌, Bool-cases, Option-cases,
  any-append_left, any-append_last, any_of_find, All-map, All_of_none, any-eq-false_of_find,
  All-append, All-update,
}
use enterprise_auth_server.Models.{Permission, Role}
use enterprise_auth_server.Seed.{with_role}

abbrev pub has_name : Text → Role → Bool
has_name n r = r.name == n

-- A role of this name has exactly these permissions.
abbrev pub Fits : Text → List Permission → Role → Type 0
Fits n ps r = if has_name n r then r.permissions ≡ ps else Unit

-- There is a role of this name, and each has exactly these permissions.
pub record IsDone (n : Text) (ps : List Permission) (rs : List Role) : Type 0 where
  pub there : any (has_name n) rs ≡ true
  pub fits : All (Fits n ps) rs

all_unit : (rs : List Role) → All (λ r. Unit {0}) rs
all_unit [] = tt
all_unit (r ∷ rs) = (tt, all_unit rs)

any-grant :
    (n m : Text) (ps : List Permission) (rs : List Role)
    → any (has_name m) (update (has_name n) (λ r. record r { permissions = ps }) rs)
      ≡ any (has_name m) rs
unfolding any update
any-grant n m ps [] = refl
any-grant n m ps (r ∷ rs) = ground (arith, any-grant n m ps rs)

granted-Fits :
    (n : Text) (ps : List Permission) (r : Role)
    → Fits n ps (if has_name n r then record r { permissions = ps } else r)
granted-Fits n ps r = elim (Bool-cases (has_name n r)) [
  | inl e ↦ rw e (rw e refl)
  | inr e ↦ rw e (rw e tt)
]

other_name : (n m : Text) (r : Role) → (n == m) ≡ false → has_name n r ≡ true → has_name m r ≡ false
other_name n m r h e = let same = (text_eq.same_iff r.name n).0 e in rw same h

-- What another role is granted does not matter.
other-Fits :
    (n m : Text) (ps qs : List Permission) (r : Role)
    → (n == m) ≡ false
    → Fits m qs r
    → Fits m qs (if has_name n r then record r { permissions = ps } else r)
other-Fits n m ps qs r h f = elim (Bool-cases (has_name n r)) [
  | inl e ↦ rw e (rw (other_name n m r h e) tt)
  | inr e ↦ rw e f
]

unnamed-Fits : (n : Text) (ps : List Permission) (r : Role) → has_name n r ≡ false → Fits n ps r
unnamed-Fits n ps r h = rw h tt

pub with_role-IsDone :
    (n : Text) (ps : List Permission) (rs : List Role) → IsDone n ps (with_role n ps rs)
unfolding with_role
with_role-IsDone n ps rs = elim (Option-cases (find (has_name n) rs)) [
  | inl e ↦
      let new : Role = record { name = n; permissions = ps } in
      rw (with_role, e)
        (record {
          there = any-append_last (has_name n) rs new (==_refl n);
          fits =
              All-append (Fits n ps) rs new
                (All-map _ _ rs (unnamed-Fits n ps)
                  (All_of_none (has_name n) rs (any-eq-false_of_find (has_name n) rs e)))
                (rw (==_refl n) refl);
        })
  | inr (r, e) ↦
      rw (with_role, e)
        (record {
          there = any-grant n n ps rs ∙ any_of_find (has_name n) rs r e;
          fits =
              All-update (λ r. Unit {0}) (Fits n ps) (has_name n) _ rs (λ r u. granted-Fits n ps r)
                (all_unit rs);
        })
]

pub with_role_keeps :
    (n m : Text) (ps qs : List Permission) (rs : List Role)
    → (n == m) ≡ false
    → IsDone m qs rs
    → IsDone m qs (with_role n ps rs)
unfolding with_role
with_role_keeps n m ps qs rs h d = elim (Option-cases (find (has_name n) rs)) [
  | inl e ↦
      let new : Role = record { name = n; permissions = ps } in
      rw (with_role, e)
        (record {
          there = any-append_left (has_name m) rs (new ∷ []) d.there;
          fits = All-append (Fits m qs) rs new d.fits (unnamed-Fits m qs new h);
        })
  | inr (r, e) ↦
      rw (with_role, e)
        (record {
          there = any-grant n m ps rs ∙ d.there;
          fits =
              All-update (Fits m qs) (Fits m qs) (has_name n) _ rs (λ r. other-Fits n m ps qs r h)
                d.fits;
        })
]

pub unfitted :
    (n : Text) (ps : List Permission) (r : Role)
    → has_name n r ≡ true
    → Fits n ps r
    → r.permissions ≡ ps
unfitted n ps r e f = subst (λ b. if b then r.permissions ≡ ps else Unit) e f

kept_role :
    (n : Text) (ps : List Permission) (r : Role)
    → Fits n ps r
    → (if has_name n r then record r { permissions = ps } else r) ≡ r
kept_role n ps r f = elim (Bool-cases (has_name n r)) [
  | inl e ↦
      let same : r.permissions ≡ ps = unfitted n ps r e f in
      rw e (ap (λ qs. record r { permissions = qs }) (sym same))
  | inr e ↦ rw e refl
]

update-same :
    (n : Text) (ps : List Permission) (rs : List Role)
    → All (Fits n ps) rs
    → update (has_name n) (λ r. record r { permissions = ps }) rs ≡ rs
unfolding update
update-same n ps [] f = refl
update-same n ps (r ∷ rs) f = rw (kept_role n ps r f.0, update-same n ps rs f.1) refl

-- A role that is as it should be stays as it is.
pub with_role-same :
    (n : Text) (ps : List Permission) (rs : List Role) → IsDone n ps rs → with_role n ps rs ≡ rs
unfolding with_role
with_role-same n ps rs d = elim (Option-cases (find (has_name n) rs)) [
  | inl e ↦ absurd (ground (arith, d.there, any-eq-false_of_find (has_name n) rs e))
  | inr (r, e) ↦ rw (with_role, e) (update-same n ps rs d.fits)
]
