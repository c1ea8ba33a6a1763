-- ===== src/EmailAccounts/Repository.antt =====
-- backend/app/repositories/email_token.py over the table email_tokens.
use enterprise_auth_server.Common.{
  ℕ, Bool, true, false, not, ◌&&◌, Option, [], ◌∷◌, ◌++◌, Text, ◌==◌, nat_eq, text_eq,
  if◌then◌else◌, find, select, update, any,
}
use enterprise_auth_server.Core.Errors.{integrity_error}
use enterprise_auth_server.Models.{EmailToken, Purpose, verify_email, reset_password, change_email}
use enterprise_auth_server.State.Exec.{Exec, ok, err, gets}

abbrev pub same_purpose : Purpose → Purpose → Bool
same_purpose verify_email verify_email = true
same_purpose reset_password reset_password = true
same_purpose change_email change_email = true
same_purpose _ _ = false

-- `get_by_hash`: the column is unique.
unfoldable pub get_by_hash : Text → Exec (Option EmailToken)
unfolding find
get_by_hash token_hash = gets (λ w. find (λ t. t.token_hash == token_hash) w.db.email_tokens)

abbrev pub is_for : ℕ → Purpose → EmailToken → Bool
is_for user_id purpose t = t.user_id == user_id && same_purpose t.purpose purpose

-- `delete_for_purpose`
unfoldable pub delete_for_purpose : ℕ → Purpose → Exec (Unit {0})
unfolding select
delete_for_purpose user_id purpose w = (
  ok tt,
  record w {
    db = record w.db {
      email_tokens = select (λ t. not (is_for user_id purpose t)) w.db.email_tokens;
    };
  },
)

-- `add`: the database refuses a second row with the same id or hash, and one of no user. A text that
-- is longer than its column is not refused here.
unfoldable pub add : EmailToken → Exec (Unit {0})
unfolding any
add t w =
    if any (λ s. s.id == t.id) w.db.email_tokens
    then (err integrity_error, w)
    else if any (λ s. s.token_hash == t.token_hash) w.db.email_tokens
    then (err integrity_error, w)
    else if any (λ u. u.id == t.user_id) w.db.users
    then (ok tt, record w { db = record w.db { email_tokens = w.db.email_tokens ++ t ∷ [] } })
    else (err integrity_error, w)

unfoldable pub save : ℕ → (EmailToken → EmailToken) → Exec (Unit {0})
unfolding update
save id f w = (
  ok tt,
  record w { db = record w.db { email_tokens = update (λ t. t.id == id) f w.db.email_tokens } },
)
