-- ===== src/Oauth/Repository.antt =====
-- backend/app/repositories/oauth_account.py over the table oauth_accounts.
use enterprise_auth_server.Common.{
  ℕ, Bool, ◌&&◌, Option, List, [], ◌∷◌, ◌++◌, Text, ◌==◌, nat_eq, text_eq, if◌then◌else◌, find,
  select, any,
}
use enterprise_auth_server.Core.Errors.{integrity_error}
use enterprise_auth_server.Models.{OauthAccount}
use enterprise_auth_server.State.Exec.{Exec, ok, err, gets}

abbrev pub is_account : Text → Text → OauthAccount → Bool
is_account provider account_id a = a.provider == provider && a.provider_account_id == account_id

-- `get_by_provider_account`: the two columns are unique together.
unfoldable pub get_by_provider_account : Text → Text → Exec (Option OauthAccount)
unfolding find
get_by_provider_account provider account_id =
    gets (λ w. find (is_account provider account_id) w.db.oauth_accounts)

-- `session.add` and `flush`: the database refuses a second row with the same id or account, and one
-- of no user. A text that is longer than its column is not refused here.
unfoldable pub add : OauthAccount → Exec (Unit {0})
unfolding any
add a w =
    if any (λ b. b.id == a.id) w.db.oauth_accounts
    then (err integrity_error, w)
    else if any (is_account a.provider a.provider_account_id) w.db.oauth_accounts
    then (err integrity_error, w)
    else if any (λ u. u.id == a.user_id) w.db.users
    then (ok tt, record w { db = record w.db { oauth_accounts = w.db.oauth_accounts ++ a ∷ [] } })
    else (err integrity_error, w)

-- `list_for_user`
unfoldable pub list_for_user : ℕ → Exec (List OauthAccount)
unfolding select
list_for_user user_id = gets (λ w. select (λ a. a.user_id == user_id) w.db.oauth_accounts)
