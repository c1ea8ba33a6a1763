-- ===== src/Notifications/Delivery.antt =====
-- backend/app/services/email/backends.py, and how NotificationService of
-- backend/app/services/notifications.py uses a backend.
use enterprise_auth_server.Common.{
  ℕ, ◌+◌, Bool, Option, some, List, [], ◌∷◌, ◌++◌, Text, non_empty, ◌==◌, text_eq, if◌then◌else◌,
}
use enterprise_auth_server.Core.Settings.{Settings}
use enterprise_auth_server.Core.Strings.{text}
use enterprise_auth_server.State.World.{Mail}
use enterprise_auth_server.Notifications.{EmailMessage, message_of}

-- The EMAIL_ settings that the backends read, and EMAIL_FROM and EMAIL_FROM_NAME in Settings.
pub record EmailSettings : Type 0 where
  pub email_backend : Text
  pub email_host : Text
  pub email_port : ℕ
  pub email_username : Text
  pub email_password : Text
  pub email_use_tls : Bool

-- What aiosmtplib.send is given: the headers and parts of the MIME message, and the connection.
pub record Submission : Type 0 where
  pub from : Text
  pub to : Text
  pub subject : Text
  pub plain : Text
  pub html : Text
  pub hostname : Text
  pub port : ℕ
  pub username : Option Text
  pub password : Option Text
  pub start_tls : Bool

pub data Backend : Type 0 where
  smtp console memory : Backend

-- The lines that the loggers get: a message was sent, or its delivery failed.
pub data Line : Type 0 where
  email_sent : Backend → Text → Line
  email_delivery_failed : Text → Line

-- What is outside the request: OUTBOX, what the mail server has taken, and the log.
pub record Post : Type 0 where
  pub outbox : List EmailMessage
  pub taken : List Submission
  pub log : List Line

abbrev pub logged : Line → Post → Post
logged line post = record post { log = post.log ++ line ∷ [] }

-- `get_email_backend`
unfoldable pub get_email_backend : EmailSettings → Backend
get_email_backend e =
    if e.email_backend == text "smtp"
    then smtp
    else if e.email_backend == text "memory"
    then memory
    else console

module _ (s : Settings) (e : EmailSettings) where
  -- `value or None`
  abbrev pub or_none : Text → Option Text
  or_none t = non_empty (some t)

  unfoldable pub submission : EmailMessage → Submission
  submission m = record {
    from = s.email_from_name ++ (text " <" ++ (s.email_from ++ text ">"));
    to = m.to;
    subject = m.subject;
    plain = m.plain;
    html = m.html;
    hostname = e.email_host;
    port = e.email_port;
    username = or_none e.email_username;
    password = or_none e.email_password;
    start_tls = e.email_use_tls;
  }

-- How a call ends, and what it leaves outside.
pub data Outcome : Type 0 where
  returned : Post → Outcome
  raised : Post → Outcome

-- `takes` says whether the n-th message is built and aiosmtplib.send returns, or one of them raises.
module _ (s : Settings) (e : EmailSettings) (takes : ℕ → Submission → Bool) where
  -- `SMTPEmailBackend.send`
  unfoldable pub send_smtp : ℕ → EmailMessage → Post → Outcome
  unfolding submission
  send_smtp n m post =
      let given = submission s e m in
      if takes n given
      then returned
          (logged (email_sent smtp m.to) (record post { taken = post.taken ++ given ∷ [] }))
      else raised post

  -- `send` of each backend
  unfoldable pub send : Backend → ℕ → EmailMessage → Post → Outcome
  unfolding send_smtp
  send smtp n m post = send_smtp n m post
  send console n m post = returned (logged (email_sent console m.to) post)
  send memory n m post = returned (record post { outbox = post.outbox ++ m ∷ [] })

  -- `except Exception`
  unfoldable pub log_failure : EmailMessage → Outcome → Outcome
  log_failure m (returned post) = returned post
  log_failure m (raised post) = returned (logged (email_delivery_failed m.to) post)

  -- `NotificationService._send`
  unfoldable pub notify : Backend → ℕ → EmailMessage → Post → Outcome
  unfolding send log_failure
  notify b n m post = log_failure m (send b n m post)

  -- The background tasks of a response, one after another; one that raises ends them.
  unfoldable pub run_tasks : Backend → ℕ → List Mail → Post → Outcome
  unfolding notify message_of
  run_tasks b n [] post = returned post
  run_tasks b n (mail ∷ mails) post = elim (notify b n (message_of s mail) post) [
    | returned after ↦ run_tasks b (n + 1) mails after
    | raised after ↦ raised after
  ]
