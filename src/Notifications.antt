-- ===== src/Notifications.antt =====
-- backend/app/services/notifications.py and backend/app/services/email/templates.py: the messages
-- that the background tasks send.
pub mod Delivery
pub mod Attempts
use enterprise_auth_server.Common.{[], ◌∷◌, ◌++◌, Text}
use enterprise_auth_server.Core.Decimal.{decimal}
use enterprise_auth_server.Core.Settings.{Settings}
use enterprise_auth_server.Core.Strings.{text}
use enterprise_auth_server.State.World.{
  Mail, welcome, verification, password_reset, password_changed, email_change, new_device_alert,
}

-- `EmailMessage` of backend/app/services/email/backends.py
pub record EmailMessage : Type 0 where
  pub to : Text
  pub subject : Text
  pub html : Text
  pub plain : Text

abbrev style : Text
style =
    text
      "font-family:-apple-system,Segoe UI,Roboto,Helvetica,Arial,sans-serif;line-height:1.5;color:#1a1a2e"

-- `name or to`
abbrev pub display_name : Text → Text → Text
display_name [] to = to
display_name (c ∷ s) to = c ∷ s

module _ (s : Settings) where
  -- `_wrap`
  unfoldable pub wrap : Text → Text → Text
  wrap title body_html =
      text "<div style=\""
      ++ (style
          ++ (text ";max-width:520px;margin:0 auto\"><h2 style=\"color:#0f3460\">"
              ++ (title
                  ++ (text "</h2>"
                      ++ (body_html
                          ++ (text
                                "<hr style=\"border:none;border-top:1px solid #eee;margin:24px 0\"><p style=\"font-size:12px;color:#888\">"
                              ++ (s.email_from_name ++ text "</p></div>")))))))

  -- `_button`
  unfoldable pub button : Text → Text → Text
  button url label =
      text "<p><a href=\""
      ++ (url
          ++ (text
                "\" style=\"background:#0f3460;color:#fff;padding:10px 18px;border-radius:6px;text-decoration:none;display:inline-block\">"
              ++ (label
                  ++ (text "</a></p><p style=\"font-size:13px;color:#666\">Or copy this link: "
                      ++ (url ++ text "</p>")))))

  -- A page of the site with a token.
  abbrev pub link_to : Text → Text → Text
  link_to page token = s.app_base_url ++ (page ++ (text "?token=" ++ token))

  -- `welcome_email`
  unfoldable pub welcome_email : Text → Text → EmailMessage
  unfolding wrap
  welcome_email to name = record {
    to = to;
    subject = text "Welcome to " ++ s.email_from_name;
    html = wrap (text "Welcome!") (
        text "<p>Hi "
        ++ (display_name name to
            ++ text ", your account has been created. We're glad to have you on board.</p>"));
    plain = text "Hi " ++ (display_name name to ++ text ", your account has been created.");
  }

  -- `verification_email`
  unfoldable pub verification_email : Text → Text → EmailMessage
  unfolding wrap button
  verification_email to token = record {
    to = to;
    subject = text "Verify your email address";
    html = wrap (text "Verify your email") (
        text "<p>Confirm your email address to finish setting up your account.</p>"
        ++ button (link_to (text "/verify-email") token) (text "Verify email"));
    plain = text "Verify your email: " ++ link_to (text "/verify-email") token;
  }

  -- `password_reset_email`
  unfoldable pub password_reset_email : Text → Text → EmailMessage
  unfolding wrap button decimal
  password_reset_email to token = record {
    to = to;
    subject = text "Reset your password";
    html = wrap (text "Reset your password") (
        text "<p>We received a request to reset your password. This link expires in "
        ++ (decimal s.password_reset_expire_minutes
            ++ (text " minutes. If you didn't request this, you can ignore this email.</p>"
                ++ button (link_to (text "/reset-password") token) (text "Reset password"))));
    plain =
        text "Reset your password (expires in "
        ++ (decimal s.password_reset_expire_minutes
            ++ (text " min): " ++ link_to (text "/reset-password") token));
  }

  -- `password_changed_email`
  unfoldable pub password_changed_email : Text → EmailMessage
  unfolding wrap
  password_changed_email to = record {
    to = to;
    subject = text "Your password was changed";
    html = wrap (text "Your password was changed") (
        text
          "<p>Your password was just changed. If this wasn't you, reset your password immediately and contact support.</p>");
    plain = text "Your password was just changed. If this wasn't you, act now.";
  }

  -- `email_change_email`
  unfoldable pub email_change_email : Text → Text → EmailMessage
  unfolding wrap button
  email_change_email to token = record {
    to = to;
    subject = text "Confirm your new email address";
    html = wrap (text "Confirm your new email") (
        text "<p>Confirm this address to complete your email change.</p>"
        ++ button (link_to (text "/confirm-email-change") token) (text "Confirm new email"));
    plain = text "Confirm your new email: " ++ link_to (text "/confirm-email-change") token;
  }

  -- `new_device_email`
  unfoldable pub new_device_email : Text → Text → Text → Text → EmailMessage
  unfolding wrap
  new_device_email to device browser ip = record {
    to = to;
    subject = text "New sign-in to your account";
    html = wrap (text "New sign-in to your account") (
        text "<p>A new sign-in was detected:</p><ul><li>Device: "
        ++ (device
            ++ (text "</li><li>Browser: "
                ++ (browser
                    ++ (text "</li><li>IP address: "
                        ++ (ip
                            ++ text
                                "</li></ul><p>If this wasn't you, change your password and review your sessions.</p>"))))));
    plain =
        text "New sign-in: device="
        ++ (device ++ (text ", browser=" ++ (browser ++ (text ", ip=" ++ (ip ++ text ".")))));
  }

  -- The `send_...` methods of `NotificationService`: the message of each task.
  unfoldable pub message_of : Mail → EmailMessage
  unfolding welcome_email verification_email password_reset_email password_changed_email
      email_change_email new_device_email
  message_of (welcome to name) = welcome_email to name
  message_of (verification to token) = verification_email to token
  message_of (password_reset to token) = password_reset_email to token
  message_of (password_changed to) = password_changed_email to
  message_of (email_change to token) = email_change_email to token
  message_of (new_device_alert to device browser ip) = new_device_email to device browser ip
