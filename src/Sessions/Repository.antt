-- ===== src/Sessions/Repository.antt =====
-- backend/app/repositories/session.py over the sessions table.
use enterprise_auth_server.Common.{
  ℕ, Bool, ◌&&◌, Option, none, some, List, [], ◌∷◌, ◌++◌, Text, ltb, ◌==◌, nat_eq, ◌≡◌, refl, ◌∙◌,
  arith, text_eq, if◌then◌else◌, find, select, update, any, length, take, drop,
}
use enterprise_auth_server.Core.Errors.{integrity_error}
use enterprise_auth_server.Models.{Session, Database}
use enterprise_auth_server.State.Exec.{Exec, ok, err, gets}

-- `get_by_uuid`: the column is unique.
unfoldable pub get_by_uuid : ℕ → Exec (Option Session)
unfolding find
get_by_uuid session_uuid = gets (λ w. find (λ s. s.session_uuid == session_uuid) w.db.sessions)

-- `add`: the database refuses a second row with the same id or session_uuid, and one of no user. A
-- text that is longer than its column is not refused here.
unfoldable pub add : Session → Exec (Unit {0})
unfolding any
add s w =
    if any (λ t. t.id == s.id) w.db.sessions
    then (err integrity_error, w)
    else if any (λ t. t.session_uuid == s.session_uuid) w.db.sessions
    then (err integrity_error, w)
    else if any (λ u. u.id == s.user_id) w.db.users
    then (ok tt, record w { db = record w.db { sessions = w.db.sessions ++ s ∷ [] } })
    else (err integrity_error, w)

-- Assignments to the columns of the row that a `Session` object stands for, and `flush`.
unfoldable pub save : ℕ → (Session → Session) → Exec (Unit {0})
unfolding update
save id f w =
    (ok tt, record w { db = record w.db { sessions = update (λ s. s.id == id) f w.db.sessions } })

-- `ORDER BY last_activity_at DESC`
unfoldable pub insert_by_activity : Session → List Session → List Session
insert_by_activity s [] = s ∷ []
insert_by_activity s (t ∷ ts) =
    let rest = insert_by_activity s ts in
    if ltb s.last_activity_at t.last_activity_at then t ∷ rest else s ∷ t ∷ ts

unfoldable pub by_activity : List Session → List Session
unfolding insert_by_activity
by_activity [] = []
by_activity (s ∷ ss) = insert_by_activity s (by_activity ss)

any-insert_by_activity :
    (p : Session → Bool) (s : Session) (ss : List Session)
    → any p (insert_by_activity s ss) ≡ any p (s ∷ ss)
unfolding any insert_by_activity
any-insert_by_activity p s [] = refl
any-insert_by_activity p s (t ∷ ts) = ground (arith, any-insert_by_activity p s ts)

-- Sorting keeps what passes a test.
pub any-by_activity : (p : Session → Bool) (ss : List Session) → any p (by_activity ss) ≡ any p ss
unfolding any by_activity
any-by_activity p [] = refl
any-by_activity p (s ∷ ss) =
    any-insert_by_activity p s (by_activity ss) ∙ ground (arith, any-by_activity p ss)

abbrev pub owned_active : ℕ → Session → Bool
owned_active user_id s = s.user_id == user_id && s.is_active

-- `list_for_user`
unfoldable pub list_for_user : ℕ → Bool → Database → List Session
unfolding select by_activity
list_for_user user_id active_only db =
    by_activity (
      select (λ s. if active_only then owned_active user_id s else s.user_id == user_id)
        db.sessions)

abbrev limited : Option ℕ → List Session → List Session
limited none ss = ss
limited (some n) ss = take n ss

-- `list_active_for_user`
unfoldable pub list_active_for_user : ℕ → Option ℕ → ℕ → Database → List Session
unfolding select by_activity
list_active_for_user user_id limit offset db =
    limited limit (drop offset (by_activity (select (owned_active user_id) db.sessions)))

-- `count_active_for_user`
unfoldable pub count_active_for_user : ℕ → Database → ℕ
unfolding select
count_active_for_user user_id db = length (select (owned_active user_id) db.sessions)

-- `has_any_for_user`
unfoldable pub has_any_for_user : ℕ → Database → Bool
unfolding select
has_any_for_user user_id db = ltb 0 (length (select (λ s. s.user_id == user_id) db.sessions))

abbrev pub same_device : ℕ → Text → Text → Text → Session → Bool
same_device user_id browser operating_system device_type s =
    s.user_id == user_id
    && s.browser == browser
    && s.operating_system == operating_system
    && s.device_type == device_type

-- `has_matching_device`
unfoldable pub has_matching_device : ℕ → Text → Text → Text → Database → Bool
unfolding select
has_matching_device user_id browser operating_system device_type db =
    ltb 0 (length (select (same_device user_id browser operating_system device_type) db.sessions))
