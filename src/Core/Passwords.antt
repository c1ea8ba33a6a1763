-- ===== src/Core/Passwords.antt =====
-- backend/app/core/passwords.py and the password functions of backend/app/core/security.py.
use Prim.Native.String.{◌++◌ as ◌joined◌}
use enterprise_auth_server.Common.{
  ℕ, Bool, true, false, not, ◌&&◌, String, List, [], ◌∷◌, Text, ltb, ◌==◌, text_eq, any, length,
}
use enterprise_auth_server.Core.Errors.{validation_error}
use enterprise_auth_server.Core.External.{Env}
use enterprise_auth_server.Core.Strings.{text, lower, is_upper, is_lower, is_digit}
use enterprise_auth_server.State.Exec.{Exec, ◌>>=◌, ◌>>◌, pure, raise, raise_if, draw}

-- A character that is no ASCII letter or digit: `[^A-Za-z0-9]`
abbrev pub is_symbol : ℕ → Bool
is_symbol c = not (is_upper c) && not (is_lower c) && not (is_digit c)

-- `_COMMON`
abbrev pub common_passwords : List Text
common_passwords =
    text "password"
    ∷ text "password1"
    ∷ text "12345678"
    ∷ text "qwerty123"
    ∷ text "letmein1"
    ∷ text "welcome1"
    ∷ text "admin123"
    ∷ text "iloveyou"
    ∷ text "changeme"
    ∷ []

-- `password.lower() in _COMMON`
unfoldable pub is_common : Text → Bool
unfolding any lower
is_common password = any (λ p. p == lower password) common_passwords

abbrev problem_if : Bool → String → List String → List String
problem_if true p ps = p ∷ ps
problem_if false p ps = ps

-- The list that `validate_password_strength` collects.
unfoldable pub problems : Text → List String
unfolding any
problems password = problem_if (ltb (length password) 8) "at least 8 characters" (
    problem_if (not (any is_lower password)) "a lowercase letter" (
      problem_if (not (any is_upper password)) "an uppercase letter" (
        problem_if (not (any is_digit password)) "a digit"
          (problem_if (not (any is_symbol password)) "a symbol" []))))

-- ', '.join(problems)
join : List String → String
join [] = ""
join (p ∷ []) = p
join (p ∷ q ∷ ps) = ◌joined◌ p (◌joined◌ ", " (join (q ∷ ps)))

reject_problems : List String → Exec (Unit {0})
unfolding join
reject_problems [] = pure tt
reject_problems (p ∷ ps) =
    raise (validation_error (◌joined◌ "Password must contain " (◌joined◌ (join (p ∷ ps)) ".")))

-- `validate_password_strength`
unfoldable pub validate_password_strength : Text → Exec (Unit {0})
unfolding problems reject_problems is_common
validate_password_strength password = do
  reject_problems (problems password)
  raise_if (is_common password)
      (validation_error "This password is too common. Choose a stronger one.")

-- `hash_password`, with a salt of its own
unfoldable pub hash_password : {Token : Type 0} → Env Token → Text → Exec Text
unfolding draw
hash_password env password = do n ← draw; pure (env.hash password n)
