-- ===== src/TwoFactor/Repository.antt =====
-- backend/app/repositories/two_factor.py over the tables two_factor_auth and backup_codes.
use enterprise_auth_server.Common.{
  ℕ, Bool, not, ◌&&◌, Option, List, [], ◌∷◌, ◌++◌, ◌==◌, nat_eq, if◌then◌else◌, find, select,
  update, any, length, is_some,
}
use enterprise_auth_server.Core.Errors.{integrity_error}
use enterprise_auth_server.Models.{TwoFactorAuth, BackupCode, Database}
use enterprise_auth_server.State.Exec.{Exec, ok, err, gets}

-- `TwoFactorRepository.get_by_user`: the column is unique.
unfoldable pub get_by_user : ℕ → Exec (Option TwoFactorAuth)
unfolding find
get_by_user user_id = gets (λ w. find (λ r. r.user_id == user_id) w.db.two_factor)

-- `add`: the database refuses a second row with the same id or user, and one of no user. A text that
-- is longer than its column is not refused here.
unfoldable pub add : TwoFactorAuth → Exec (Unit {0})
unfolding any
add r w =
    if any (λ s. s.id == r.id) w.db.two_factor
    then (err integrity_error, w)
    else if any (λ s. s.user_id == r.user_id) w.db.two_factor
    then (err integrity_error, w)
    else if any (λ u. u.id == r.user_id) w.db.users
    then (ok tt, record w { db = record w.db { two_factor = w.db.two_factor ++ r ∷ [] } })
    else (err integrity_error, w)

unfoldable pub save : ℕ → (TwoFactorAuth → TwoFactorAuth) → Exec (Unit {0})
unfolding update
save id f w = (
  ok tt,
  record w { db = record w.db { two_factor = update (λ r. r.id == id) f w.db.two_factor } },
)

-- `delete`
unfoldable pub delete : TwoFactorAuth → Exec (Unit {0})
unfolding select
delete r w = (
  ok tt,
  record w { db = record w.db { two_factor = select (λ s. not (s.id == r.id)) w.db.two_factor } },
)

abbrev pub unused_of : ℕ → BackupCode → Bool
unused_of user_id c = c.user_id == user_id && not (is_some c.used_at)

-- `BackupCodeRepository.list_unused` and `count_unused`
unfoldable pub list_unused : ℕ → Database → List BackupCode
unfolding select
list_unused user_id db = select (unused_of user_id) db.backup_codes

unfoldable pub count_unused : ℕ → Database → ℕ
unfolding list_unused
count_unused user_id db = length (list_unused user_id db)

unfoldable pub save_code : ℕ → (BackupCode → BackupCode) → Exec (Unit {0})
unfolding update
save_code id f w = (
  ok tt,
  record w { db = record w.db { backup_codes = update (λ c. c.id == id) f w.db.backup_codes } },
)

-- `session.add` of a code, as for `add`.
unfoldable pub add_code : BackupCode → Exec (Unit {0})
unfolding any
add_code c w =
    if any (λ d. d.id == c.id) w.db.backup_codes
    then (err integrity_error, w)
    else if any (λ u. u.id == c.user_id) w.db.users
    then (ok tt, record w { db = record w.db { backup_codes = w.db.backup_codes ++ c ∷ [] } })
    else (err integrity_error, w)

-- `delete_for_user`
unfoldable pub delete_for_user : ℕ → Exec (Unit {0})
unfolding select
delete_for_user user_id w = (
  ok tt,
  record w {
    db = record w.db { backup_codes = select (λ c. not (c.user_id == user_id)) w.db.backup_codes };
  },
)
