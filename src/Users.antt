-- ===== src/Users.antt =====
-- backend/app/repositories/user.py and role.py over their tables, and the permission checks of
-- backend/app/models/user.py and backend/app/dependencies/auth.py.
pub mod Lookup
use enterprise_auth_server.Common.{
  ℕ, Bool, not, ◌&&◌, ◌||◌, Option, none, some, List, [], ◌∷◌, ◌++◌, Text, ltb, ◌==◌, nat_eq,
  text_eq, if◌then◌else◌, find, select, update, any, length, take, drop,
}
use enterprise_auth_server.Core.Errors.{integrity_error, multiple_results, permission_denied}
use enterprise_auth_server.Core.Strings.{lower}
use enterprise_auth_server.Models.{User, Role}
use enterprise_auth_server.State.Exec.{Exec, ok, err, ◌>>=◌, pure, raise, gets}

-- `session.get(User, id)`
unfoldable pub get : ℕ → Exec (Option User)
unfolding find
get id = gets (λ w. find (λ u. u.id == id) w.db.users)

-- The rows with `lower(email) = email.lower()`.
unfoldable pub with_email : Text → List User → List User
unfolding select lower
with_email email = select (λ u. lower u.email == lower email)

-- `result.scalar_one_or_none()`
scalar_one_or_none : List User → Exec (Option User)
scalar_one_or_none [] = pure none
scalar_one_or_none (u ∷ []) = pure (some u)
scalar_one_or_none (u ∷ v ∷ us) = raise multiple_results

-- `get_by_email`
unfoldable pub get_by_email : Text → Exec (Option User)
unfolding with_email scalar_one_or_none
get_by_email email = do rows ← gets (λ w. with_email email w.db.users); scalar_one_or_none rows

-- `email_exists`
unfoldable pub email_exists : Text → Exec Bool
unfolding with_email
email_exists email = gets (λ w. ltb 0 (length (with_email email w.db.users)))

-- `add`: the database refuses a second row with the same id or email.
unfoldable pub add : User → Exec (Unit {0})
unfolding any
add u w =
    if any (λ v. v.id == u.id) w.db.users
    then (err integrity_error, w)
    else if any (λ v. v.email == u.email) w.db.users
    then (err integrity_error, w)
    else (ok tt, record w { db = record w.db { users = w.db.users ++ u ∷ [] } })

abbrev limited : Option ℕ → List User → List User
limited none us = us
limited (some n) us = take n us

-- `list_all`: the rows stand in the order of their creation.
unfoldable pub list_all : Option ℕ → ℕ → Exec (List User)
list_all limit offset = gets (λ w. limited limit (drop offset w.db.users))

-- `count_all`
unfoldable pub count_all : Exec ℕ
count_all = gets (λ w. length w.db.users)

-- Assignments to columns of a row, and `flush`. The email is no column that this changes.
unfoldable pub save : ℕ → (User → User) → Exec (Unit {0})
unfolding update
save id f w =
    (ok tt, record w { db = record w.db { users = update (λ u. u.id == id) f w.db.users } })

-- `RoleRepository.get_by_name`: the column is unique.
unfoldable pub role_by_name : Text → Exec (Option Role)
unfolding find
role_by_name name = gets (λ w. find (λ r. r.name == name) w.db.roles)

-- `User.role_names`, as a membership test
unfoldable pub has_role : Text → User → Bool
unfolding any
has_role name u = any (λ r. r.name == name) u.roles

grants : Text → Role → Bool
unfolding any
grants code r = any (λ p. p.code == code) r.permissions

-- `code in self.permission_codes`
unfoldable pub in_permission_codes : Text → User → Bool
unfolding any grants
in_permission_codes code u = any (grants code) u.roles

-- `User.has_permission`
unfoldable pub has_permission : Text → User → Bool
unfolding in_permission_codes
has_permission code u = u.is_superuser || in_permission_codes code u

-- `require_permission`
unfoldable pub require_permission : Text → User → Exec User
unfolding has_permission
require_permission code u =
    if not (has_permission code u)
    then raise (permission_denied "Missing required permission")
    else pure u

-- `require_role`
unfoldable pub require_role : Text → User → Exec User
unfolding has_role
require_role name u =
    if not u.is_superuser && not (has_role name u)
    then raise (permission_denied "Requires role")
    else pure u
