-- ===== src/State/World.antt =====
-- The state that a request handler sees.
use enterprise_auth_server.Common.{ℕ, ◌+◌, List, Text}
use enterprise_auth_server.Models.{Database}
use enterprise_auth_server.State.Redis.{Redis}

-- The emails that services/notifications.py builds, with their recipient first.
pub data Mail : Type 0 where
  welcome verification password_reset email_change : Text → Text → Mail
  password_changed : Text → Mail
  new_device_alert : Text → Text → Text → Text → Mail

pub record World : Type 0 where
  -- the clock, in microseconds
  pub now : ℕ
  pub redis : Redis
  -- the tables as the open transaction sees them, and as they were last committed
  pub db : Database
  pub committed : Database
  -- how many random values have been drawn
  pub drawn : ℕ
  -- the emails scheduled on the response
  pub background : List Mail

-- The world after a wait.
abbrev pub wait : ℕ → World → World
wait d w = record w { now = w.now + d }
