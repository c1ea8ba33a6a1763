-- ===== src/Core/Errors.antt =====
-- backend/app/core/exceptions.py: the exception hierarchy and the answers of its handlers, and the
-- exceptions of the libraries that reach the handler of last resort.
use enterprise_auth_server.Common.{ℕ, Bool, true, false, String}

pub data Error : Type 0 where
  -- the subclasses of AppError, with their messages where the source gives one
  auth_error permission_denied not_found conflict validation_error : String → Error
  rate_limited service_unavailable : Error
  -- subclasses of AuthError
  account_locked token_replay : Error
  -- exceptions that the program does not define
  redis_error integrity_error multiple_results decryption_error value_error key_error
        attribute_error http_error :
      Error

-- `except AuthError`: a handler of the class takes its subclasses too.
unfoldable pub is_auth_error : Error → Bool
is_auth_error (auth_error m) = true
is_auth_error account_locked = true
is_auth_error token_replay = true
is_auth_error _ = false

-- `str(exc)`
abbrev pub message : Error → String
message (auth_error m) = m
message (permission_denied m) = m
message (not_found m) = m
message (conflict m) = m
message (validation_error m) = m
message rate_limited = "Too many requests. Please try again later."
message service_unavailable = "A dependency is temporarily unavailable. Please retry."
message account_locked = "Account temporarily locked due to too many failed attempts."
message token_replay = "Refresh token reuse detected."
message _ = "An unexpected error occurred."

abbrev pub status_code : Error → ℕ
status_code (auth_error m) = 401
status_code (permission_denied m) = 403
status_code (not_found m) = 404
status_code (conflict m) = 409
status_code (validation_error m) = 422
status_code rate_limited = 429
status_code service_unavailable = 503
status_code account_locked = 401
status_code token_replay = 401
status_code _ = 500

abbrev pub error_code : Error → String
error_code (auth_error m) = "authentication_error"
error_code (permission_denied m) = "permission_denied"
error_code (not_found m) = "not_found"
error_code (conflict m) = "conflict"
error_code (validation_error m) = "validation_error"
error_code rate_limited = "rate_limited"
error_code service_unavailable = "service_unavailable"
error_code account_locked = "account_locked"
error_code token_replay = "token_replay_detected"
error_code _ = "internal_error"
