-- ===== src/Core/External.antt =====
-- The components that the program calls and does not implement: Argon2 (passlib), JWT (PyJWT), TOTP
-- (pyotp), Fernet (cryptography), SHA-256, the user-agent parser, httpx, and the sources of randomness.
-- Each is an argument of the model; `Token` is the type of encoded JWTs.
use enterprise_auth_server.Common.{
  ℕ, Bool, true, Option, List, Text, ◌≡◌, none, some, leb, ltb, if◌then◌else◌,
}
use enterprise_auth_server.Core.Units.{seconds}
use enterprise_auth_server.Core.Claims.{Claims}
use enterprise_auth_server.Core.Json.{Json}
use enterprise_auth_server.Core.Settings.{Settings}

-- What `user_agents.parse` reports.
pub record UserAgent : Type 0 where
  pub is_bot : Bool
  pub is_tablet : Bool
  pub is_mobile : Bool
  pub is_pc : Bool
  pub os_family : Option Text
  pub os_version : Text
  pub device_family : Option Text
  pub browser_family : Option Text
  pub browser_version : Text

-- What an HTTP request to another server gets: `resp.json()` is `none` where the body is no JSON.
pub record HttpResponse : Type 0 where
  pub status : ℕ
  pub json : Option Json

pub record Env (Token : Type 0) : Type 0 where
  pub settings : Settings
  -- the n-th UUID and the n-th secret that a process draws
  pub new_uuid : ℕ → ℕ
  pub new_secret : ℕ → Text
  -- pwd_context.hash with the n-th salt, pwd_context.verify, pwd_context.needs_update
  pub hash : Text → ℕ → Text
  pub verify : Text → Text → Bool
  pub needs_update : Text → Bool
  -- jwt.encode, and jwt.decode at a time of the clock: `none` for any PyJWTError
  pub jwt_encode : Claims → Token
  pub jwt_decode : ℕ → Token → Option Claims
  -- pyotp.TOTP(secret).verify(otp, valid_window) at a time of the clock
  pub totp_verify : Text → Text → ℕ → ℕ → Bool
  -- Fernet, with the n-th initialisation vector: `none` for InvalidToken
  pub fernet_encrypt : Text → ℕ → Text
  pub fernet_decrypt : Text → Option Text
  pub sha256_hex : Text → Text
  pub parse_user_agent : Text → UserAgent
  -- base64.urlsafe_b64encode of the SHA-256 digest of a text, and urllib.parse.urlencode
  pub sha256_base64url : Text → Text
  pub urlencode : List (Text × Text) → Text
  -- the n-th httpx request of a process: a POST of a form to a URL, a GET of a URL, each with its
  -- headers; `none` where httpx raises
  pub http_post : ℕ → Text → List (Text × Text) → List (Text × Text) → Option HttpResponse
  pub http_get : ℕ → Text → List (Text × Text) → Option HttpResponse
  -- pyotp.TOTP(secret).provisioning_uri(name, issuer_name)
  pub totp_uri : Text → Text → Text → Text
  -- the PNG image of qrcode.make, and base64.b64encode
  pub qr_png : Text → Text
  pub base64 : Text → Text

-- What PyJWT documents of a token that it encoded, with `iat` and `exp` among its claims: it decodes
-- to them from `iat` until `exp`. Before, it raises ImmatureSignatureError, from `exp` on
-- ExpiredSignatureError.
abbrev pub JwtRoundTrip : {Token : Type 0} → Env Token → Type 0
JwtRoundTrip env =
    (now iat exp : ℕ) (c : Claims)
    → c.iat ≡ some iat
    → c.exp ≡ some exp
    → env.jwt_decode now (env.jwt_encode c)
      ≡ (if ltb now (seconds iat) then none else if leb (seconds exp) now then none else some c)

-- What passlib documents: a password verifies against its own hash.
abbrev pub HashVerifies : {Token : Type 0} → Env Token → Type 0
HashVerifies env =
    (password : Text) (salt : ℕ) → env.verify password (env.hash password salt) ≡ true
