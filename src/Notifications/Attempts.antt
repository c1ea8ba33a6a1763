-- ===== src/Notifications/Attempts.antt =====
-- What becomes of the e-mails of a response, whichever backend delivers them and whatever the mail
-- server answers.
use mathlib.Core.List.{append_assoc, append-nil}
use enterprise_auth_server.Common.{
  ℕ, ◌+◌, Bool, List, [], ◌∷◌, ◌++◌, ◌≡◌, refl, ◌∙◌, arith, if◌then◌else◌,
}
use enterprise_auth_server.Core.Settings.{Settings}
use enterprise_auth_server.State.World.{Mail}
use enterprise_auth_server.Notifications.{EmailMessage, message_of}
use enterprise_auth_server.Notifications.Delivery.{
  EmailSettings, Submission, Backend, smtp, console, memory, Line, email_sent,
  email_delivery_failed, Post, returned, logged, submission, run_tasks,
}

module _ (s : Settings) (e : EmailSettings) (takes : ℕ → Submission → Bool) where
  -- The messages of the mails.
  unfoldable pub messages : List Mail → List EmailMessage
  messages [] = []
  messages (mail ∷ mails) = message_of s mail ∷ messages mails

  -- Those that the memory backend keeps.
  unfoldable pub kept : Backend → List Mail → List EmailMessage
  unfolding messages
  kept memory mails = messages mails
  kept console mails = []
  kept smtp mails = []

  -- The submissions that the mail server takes, numbered from n on.
  unfoldable pub accepted : ℕ → List Mail → List Submission
  accepted n [] = []
  accepted n (mail ∷ mails) =
      let rest = accepted (n + 1) mails in
      let given = submission s e (message_of s mail) in if takes n given then given ∷ rest else rest

  unfoldable pub submitted : Backend → ℕ → List Mail → List Submission
  unfolding accepted
  submitted smtp n mails = accepted n mails
  submitted console n mails = []
  submitted memory n mails = []

  -- One line for each mail, with its recipient.
  unfoldable pub smtp_lines : ℕ → List Mail → List Line
  smtp_lines n [] = []
  smtp_lines n (mail ∷ mails) =
      let to = (message_of s mail).to in
      (if takes n (submission s e (message_of s mail))
        then email_sent smtp to
        else email_delivery_failed to)
      ∷ smtp_lines (n + 1) mails

  unfoldable pub console_lines : List Mail → List Line
  console_lines [] = []
  console_lines (mail ∷ mails) = email_sent console (message_of s mail).to ∷ console_lines mails

  unfoldable pub lines : Backend → ℕ → List Mail → List Line
  unfolding smtp_lines console_lines
  lines smtp n mails = smtp_lines n mails
  lines console n mails = console_lines mails
  lines memory n mails = []

  abbrev pub after_tasks : Backend → ℕ → List Mail → Post → Post
  after_tasks b n mails post = record {
    outbox = post.outbox ++ kept b mails;
    taken = post.taken ++ submitted b n mails;
    log = post.log ++ lines b n mails;
  }

  -- The tasks of a response never raise, and each is tried, whatever the mail server did with those
  -- before it: with the memory backend every message is in the outbox, in order; with the SMTP backend
  -- the server has those that it takes, in order, and the log has one line for each mail, which says
  -- whether it was sent; with the console backend the log has them all.
  pub run_tasks_lem :
      (b : Backend) (n : ℕ) (mails : List Mail) (post : Post)
      → run_tasks s e takes b n mails post ≡ returned (after_tasks b n mails post)
  unfolding run_tasks kept submitted lines
  run_tasks_lem memory n [] post =
      rw (append-nil post.outbox, append-nil post.taken, append-nil post.log) refl
  run_tasks_lem console n [] post =
      rw (append-nil post.outbox, append-nil post.taken, append-nil post.log) refl
  run_tasks_lem smtp n [] post =
      rw (append-nil post.outbox, append-nil post.taken, append-nil post.log) refl
  run_tasks_lem memory n (mail ∷ mails) post =
      run_tasks_lem memory (n + 1) mails _ ∙ rw (append_assoc post.outbox) refl
  run_tasks_lem console n (mail ∷ mails) post =
      run_tasks_lem console (n + 1) mails _ ∙ rw (append_assoc post.log) refl
  run_tasks_lem smtp n (mail ∷ mails) post =
      let m : EmailMessage = message_of s mail in
      let given : Submission = submission s e m in
      let sent = email_sent smtp m.to in
      let failed = email_delivery_failed m.to in
      let rest = smtp_lines (n + 1) mails in
      let took : Post = logged sent (record post { taken = post.taken ++ given ∷ [] }) in
      ground (
        arith,
        run_tasks_lem smtp (n + 1) mails took,
        run_tasks_lem smtp (n + 1) mails (logged failed post),
        append_assoc post.taken (given ∷ []) (accepted (n + 1) mails),
        append_assoc post.log (sent ∷ []) rest,
        append_assoc post.log (failed ∷ []) rest,
      )
