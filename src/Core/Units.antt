-- ===== src/Core/Units.antt =====
-- Time: the clock counts microseconds, the resolution of Python's `datetime`.
use enterprise_auth_server.Common.{ℕ, ◌*◌, ◌/◌}

abbrev pub second : ℕ
second = 1000000

-- timedelta(seconds=n), timedelta(minutes=n), timedelta(hours=n), timedelta(days=n)
abbrev pub seconds : ℕ → ℕ
seconds n = n * 1000000

abbrev pub minutes : ℕ → ℕ
minutes n = n * 60000000

abbrev pub hours : ℕ → ℕ
hours n = n * 3600000000

abbrev pub days : ℕ → ℕ
days n = n * 86400000000

-- int(t.timestamp()), and int(d.total_seconds())
abbrev pub timestamp : ℕ → ℕ
timestamp t = t / 1000000
