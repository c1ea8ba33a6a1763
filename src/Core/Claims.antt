-- ===== src/Core/Claims.antt =====
-- The payload of the server's JWTs (backend/app/core/security.py). A claim may be missing, as
-- `payload.get` allows for.
use enterprise_auth_server.Common.{ℕ, Bool, true, false, Option, none, some, Text}

pub data TokenType : Type 0 where
  access refresh pre_auth : TokenType

pub record Claims : Type 0 where
  pub sub : Option Text
  pub type : Option TokenType
  pub jti : Option Text
  pub iat : Option ℕ
  pub exp : Option ℕ
  pub remember_me : Option Bool
  pub sid : Option Text

-- `payload.get("type") == expected_type`
abbrev pub same_type : TokenType → TokenType → Bool
same_type access access = true
same_type refresh refresh = true
same_type pre_auth pre_auth = true
same_type _ _ = false

unfoldable pub has_type : TokenType → Option TokenType → Bool
has_type expected none = false
has_type expected (some t) = same_type expected t
