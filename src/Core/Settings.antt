-- ===== src/Core/Settings.antt =====
-- backend/app/core/config.py: the settings that the modelled code reads, and their defaults.
use enterprise_auth_server.Common.{ℕ, ◌<◌, Text, [], arith}
use enterprise_auth_server.Core.Strings.{text}

pub record Settings : Type 0 where
  pub access_token_expire_minutes : ℕ
  pub refresh_token_expire_days : ℕ
  pub refresh_token_remember_me_days : ℕ
  pub pre_auth_token_expire_minutes : ℕ
  pub totp_valid_window : ℕ
  pub backup_code_count : ℕ
  pub two_fa_rate_limit_per_minute : ℕ
  pub email_verification_expire_hours : ℕ
  pub password_reset_expire_minutes : ℕ
  pub email_change_expire_hours : ℕ
  pub oauth_state_ttl_seconds : ℕ
  pub session_idle_timeout_minutes : ℕ
  pub session_absolute_expire_hours : ℕ
  pub session_activity_throttle_seconds : ℕ
  pub rate_limit_per_minute : ℕ
  pub auth_rate_limit_per_minute : ℕ
  pub max_failed_logins : ℕ
  pub lockout_seconds : ℕ
  pub api_v1_prefix : Text
  pub two_factor_issuer : Text
  pub email_from : Text
  pub email_from_name : Text
  pub app_base_url : Text
  pub google_client_id : Text
  pub google_client_secret : Text
  pub github_client_id : Text
  pub github_client_secret : Text
  pub oauth_redirect_base_url : Text

abbrev pub defaults : Settings
defaults = record {
  access_token_expire_minutes = 15;
  refresh_token_expire_days = 7;
  refresh_token_remember_me_days = 30;
  pre_auth_token_expire_minutes = 5;
  totp_valid_window = 1;
  backup_code_count = 10;
  two_fa_rate_limit_per_minute = 5;
  email_verification_expire_hours = 24;
  password_reset_expire_minutes = 30;
  email_change_expire_hours = 24;
  oauth_state_ttl_seconds = 600;
  session_idle_timeout_minutes = 30;
  session_absolute_expire_hours = 720;
  session_activity_throttle_seconds = 10;
  rate_limit_per_minute = 60;
  auth_rate_limit_per_minute = 10;
  max_failed_logins = 5;
  lockout_seconds = 900;
  api_v1_prefix = text "/api/v1";
  two_factor_issuer = text "Enterprise Auth Server";
  email_from = text "no-reply@enterprise-auth.local";
  email_from_name = text "Enterprise Auth Server";
  app_base_url = text "http://localhost:3000";
  google_client_id = [];
  google_client_secret = [];
  github_client_id = [];
  github_client_secret = [];
  oauth_redirect_base_url = text "http://localhost:8000";
}

-- Redis refuses a key that expires after no time at all, so these are positive in a working
-- deployment.
pub record IsUsable (s : Settings) : Type 0 where
  pub refresh_days_pos : 0 < s.refresh_token_remember_me_days
  pub oauth_ttl_pos : 0 < s.oauth_state_ttl_seconds
  pub idle_pos : 0 < s.session_idle_timeout_minutes
  pub absolute_pos : 0 < s.session_absolute_expire_hours
  pub throttle_pos : 0 < s.session_activity_throttle_seconds
  pub lockout_pos : 0 < s.lockout_seconds

pub defaults-IsUsable : IsUsable defaults
defaults-IsUsable = omega arith
