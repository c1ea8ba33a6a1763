-- ===== src/Tests/EmailTests.antt =====
-- Instances of the theorems on services/email_account.py and on the delivery of e-mail.
use enterprise_auth_server.Core.Settings.{defaults}
use enterprise_auth_server.Notifications.{message_of}
use enterprise_auth_server.Notifications.Delivery.{
  EmailSettings, Submission, Post, smtp, returned, email_sent, email_delivery_failed, run_tasks,
}
use enterprise_auth_server.Notifications.Attempts.{after_tasks, lines, run_tasks_lem}
use enterprise_auth_server.Common.{
  ℕ, ◌+◌, ◌≡◌, refl, Bool, true, false, none, some, List, [], ◌∷◌, arith, ltb, text_beq,
  text_beq_iff, select,
}
use enterprise_auth_server.Core.Errors.{auth_error}
use enterprise_auth_server.Core.External.{HashVerifies}
use enterprise_auth_server.Core.Strings.{text}
use enterprise_auth_server.Models
use enterprise_auth_server.Models.{User, EmailToken}
use enterprise_auth_server.State.World.{World, wait, Mail, welcome, password_changed}
use enterprise_auth_server.State.Exec.{ok, err}
use enterprise_auth_server.EmailAccounts.{
  issue, consume, used, reset_password, confirm_email_change,
}
use enterprise_auth_server.EmailAccounts.Change.{
  HasUniqueIds, Changed, confirm_email_change-HasUniqueEmails,
}
use enterprise_auth_server.Accounts.Registration.{HasUniqueEmails}
use enterprise_auth_server.Users.{with_email}
use enterprise_auth_server.EmailAccounts.Repository.{is_for}
use enterprise_auth_server.EmailAccounts.SingleUse.{Consumed, consume_is_single_use}
use enterprise_auth_server.EmailAccounts.Issue.{consume-issue}
use enterprise_auth_server.EmailAccounts.Reset.{Reset, reset_password-Reset}
use enterprise_auth_server.Tests.Fixtures.{env, user, tables, start}

hashes_verify : HashVerifies env
hashes_verify p n = (text_beq_iff p p).1 refl

-- A token to reset the password, good for 20 more seconds.
abbrev token : EmailToken
token = record {
  id = 90;
  user_id = 7;
  token_hash = text "t";
  purpose = Models.reset_password;
  new_email = none;
  expires_at = 120000000;
  used_at = none;
}

abbrev mailed : World
mailed = record start { db = record tables { email_tokens = token ∷ [] } }

abbrev consumed : World
consumed = (consume env (text "t") Models.reset_password mailed).1

consume_is_single_use_example :
    Consumed env (text "t") Models.reset_password (used 100000000 token) mailed consumed
    × (consume env (text "t") Models.reset_password (wait 1000000 consumed)
        ≡ (err (auth_error "Invalid or already-used token."), wait 1000000 consumed))
unfolding consume text_beq
consume_is_single_use_example =
    consume_is_single_use env (text "t") Models.reset_password Models.reset_password
      (used 100000000 token) mailed consumed (wait 1000000 consumed) refl refl

abbrev issued : World
issued = (issue env user Models.reset_password 1800000000 none mailed).1

consume-issue_example :
    (t : EmailToken) × (select (is_for 7 Models.reset_password) issued.db.email_tokens ≡ t ∷ [])
    × ((consume env (50 ∷ []) Models.reset_password (wait 60000000 issued)).0
        ≡ ok (used (issued.now + 60000000) t))
    × (t.user_id ≡ 7)
    × (t.new_email ≡ none)
unfolding issue text_beq
consume-issue_example =
    consume-issue env user Models.reset_password none 1800000000 60000000 (50 ∷ []) mailed issued
      refl (omega arith)

abbrev renewed_user : User
renewed_user = record user { hashed_password = text "N3w!passw" }

abbrev reset : World
reset = (reset_password env (text "t") (text "N3w!passw") mailed).1

reset_password-Reset_example : Reset env (text "t") (text "N3w!passw") renewed_user mailed reset
unfolding reset_password text_beq
reset_password-Reset_example =
    reset_password-Reset env hashes_verify (text "t") (text "N3w!passw") renewed_user mailed reset
      refl

-- A token to move to a new address.
abbrev changing : World
changing = record start {
  db = record tables {
    email_tokens =
        record token { purpose = Models.change_email; new_email = some (text "ann@new.example") }
        ∷ [];
  };
}

abbrev changed_user : User
changed_user = record user { email = text "ann@new.example"; is_verified = true }

abbrev changed : World
changed = (confirm_email_change env (text "t") changing).1

one_email : HasUniqueEmails (user ∷ [])
unfolding with_email select
one_email = record { at_most_one = λ e. ground arith }

one_id : HasUniqueIds (user ∷ [])
unfolding select
one_id = record { at_most_one = λ i. ground arith }

confirm_email_change-HasUniqueEmails_example :
    HasUniqueEmails changed.db.users
    × HasUniqueIds changed.db.users
    × Changed env (text "t") changed_user changing changed
unfolding confirm_email_change text_beq
confirm_email_change-HasUniqueEmails_example =
    confirm_email_change-HasUniqueEmails env (text "t") changed_user changing changed refl one_email
      one_id

abbrev email_settings : EmailSettings
email_settings = record {
  email_backend = text "smtp";
  email_host = text "localhost";
  email_port = 1025;
  email_username = [];
  email_password = [];
  email_use_tls = false;
}

-- The mail server takes every submission but the first.
abbrev but_first : ℕ → Submission → Bool
but_first n given = ltb 0 n

abbrev two_mails : List Mail
two_mails = welcome (text "ann@x.io") (text "Ann") ∷ password_changed (text "bob@x.io") ∷ []

abbrev no_post : Post
no_post = record { outbox = []; taken = []; log = [] }

run_tasks_lem_example :
    run_tasks defaults email_settings but_first smtp 0 two_mails no_post
    ≡ returned (after_tasks defaults email_settings but_first smtp 0 two_mails no_post)
run_tasks_lem_example = run_tasks_lem defaults email_settings but_first smtp 0 two_mails no_post

-- The first delivery fails and the second one succeeds.
two_mails_run :
    (after_tasks defaults email_settings but_first smtp 0 two_mails no_post).log
    ≡ email_delivery_failed (text "ann@x.io") ∷ email_sent smtp (text "bob@x.io") ∷ []
unfolding lines message_of
two_mails_run = refl
