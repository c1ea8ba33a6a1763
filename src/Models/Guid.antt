-- ===== src/Models/Guid.antt =====
-- backend/app/db/types.py: how a UUID is stored, which depends on the database. A text is read as
-- Core/Uuid reads it.
use enterprise_auth_server.Common.{
  ℕ, ◌<◌, Bool, Option, some, Text, ◌==◌, text_eq, ◌≡◌, refl, if◌then◌else◌, length, Bool-cases,
  inl, inr,
}
use enterprise_auth_server.Common.Partial.{◌>>=◌, pure}
use enterprise_auth_server.Core.Strings.{text}
use enterprise_auth_server.Core.Uuid.{parse, to_text, uuid_limit}
use enterprise_auth_server.Core.Uuid.RoundTrip.{parse-to_text, length-to_text}

-- The type that a column has in the database.
pub data Impl : Type 0 where
  pg_uuid : Impl
  char : ℕ → Impl

-- A value of Python: None, a uuid.UUID, or another one by its `str`.
pub data Value : Type 0 where
  missing : Value
  uuid : ℕ → Value
  other : Text → Value

-- A value as it is stored: NULL, a UUID of PostgreSQL, or a text.
pub data Stored : Type 0 where
  null : Stored
  native : ℕ → Stored
  chars : Text → Stored

abbrev pub is_postgresql : Text → Bool
is_postgresql dialect = dialect == text "postgresql"

-- `GUID.load_dialect_impl`
unfoldable pub load_dialect_impl : Text → Impl
load_dialect_impl dialect = if is_postgresql dialect then pg_uuid else char 36

-- `value if dialect.name == "postgresql" else str(value)`
unfoldable pub stored_as : Text → ℕ → Stored
stored_as dialect u = if is_postgresql dialect then native u else chars (to_text u)

-- `GUID.process_bind_param`. `none` is a ValueError.
unfoldable pub process_bind_param : Value → Text → Option Stored
unfolding stored_as
process_bind_param missing dialect = pure null
process_bind_param (uuid u) dialect = pure (stored_as dialect u)
process_bind_param (other t) dialect = do u ← parse t; pure (stored_as dialect u)

-- `GUID.process_result_value`
unfoldable pub process_result_value : Stored → Option Value
process_result_value null = pure missing
process_result_value (native u) = pure (uuid u)
process_result_value (chars t) = do u ← parse t; pure (uuid u)

-- The column of the database has room for the value.
abbrev pub Fits : Stored → Impl → Type 0
Fits null i = Unit
Fits (native u) pg_uuid = Unit
Fits (chars t) (char n) = length t ≡ n
Fits (native u) (char n) = ⊥
Fits (chars t) pg_uuid = ⊥

-- In every dialect, a UUID is bound to a value that the column has room for, and comes back as the
-- same UUID.
pub process_result_value-process_bind_param :
    (u : ℕ) (dialect : Text)
    → u < uuid_limit
    → (s : Stored) × (process_bind_param (uuid u) dialect ≡ some s)
      × Fits s (load_dialect_impl dialect)
      × (process_result_value s ≡ some (uuid u))
unfolding process_bind_param process_result_value load_dialect_impl
process_result_value-process_bind_param u dialect h = elim (Bool-cases (is_postgresql dialect)) [
  | inl e ↦ (native u, rw (stored_as, e) refl, rw (load_dialect_impl, e) tt, refl)
  | inr e ↦ (
    chars (to_text u),
    rw (stored_as, e) refl,
    rw (load_dialect_impl, e) (length-to_text u),
    rw (parse-to_text u h) refl,
  )
]
