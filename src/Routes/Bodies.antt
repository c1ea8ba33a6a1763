-- ===== src/Routes/Bodies.antt =====
-- The request bodies of backend/app/schemas/auth.py, email.py and two_factor.py: the fields, and which
-- values of them FastAPI lets through to a route; all others it answers with 422. The fields are
-- given with their JSON types.
pub mod Accepted
use enterprise_auth_server.Common.{
  ℕ, Bool, true, false, ◌&&◌, Option, none, some, List, [], ◌∷◌, Text, leb, length, if◌then◌else◌,
}
use enterprise_auth_server.Common.Partial.{◌>>=◌, pure}

pub record RegisterRequest : Type 0 where
  pub email : Text
  pub password : Text
  pub full_name : Text

pub record LoginRequest : Type 0 where
  pub email : Text
  pub password : Text
  pub remember_me : Bool

pub record OtpLoginRequest : Type 0 where
  pub pre_auth_token : Text
  pub otp : Text
  pub remember_me : Bool

pub record RecoveryLoginRequest : Type 0 where
  pub pre_auth_token : Text
  pub recovery_code : Text
  pub remember_me : Bool

pub record TokenRequest : Type 0 where
  pub token : Text

pub record ForgotPasswordRequest : Type 0 where
  pub email : Text

pub record ResetPasswordRequest : Type 0 where
  pub token : Text
  pub new_password : Text

pub record ChangeEmailRequest : Type 0 where
  pub new_email : Text
  pub password : Text

pub record PasswordConfirm : Type 0 where
  pub password : Text

-- DisableRequest and RecoveryCodesRequest
pub record OtpConfirm : Type 0 where
  pub password : Text
  pub otp : Text

pub record OtpVerifyRequest : Type 0 where
  pub otp : Text

-- A field that may be left out.
abbrev pub or_else {ℓ} : {A : Type ℓ} → A → Option A → A
or_else d none = d
or_else d (some a) = a

-- Field(min_length=lo, max_length=hi)
unfoldable pub sized : ℕ → ℕ → Text → Option Text
sized lo hi t = if leb lo (length t) && leb (length t) hi then some t else none

unfoldable pub all_digits : (ℕ → Bool) → Text → Bool
all_digits digit [] = true
all_digits digit (c ∷ s) = if digit c then all_digits digit s else false

-- Field(min_length=6, max_length=6, pattern=r"^\d{6}$"), where `digit` says which characters `\d`
-- matches
unfoldable pub six_digits : (ℕ → Bool) → Text → Option Text
unfolding sized all_digits
six_digits digit t = do otp ← sized 6 6 t; if all_digits digit otp then pure otp else none

-- `valid_email` is pydantic's EmailStr: the address in its normal form, or none.
module _ (valid_email : Text → Option Text) where
  unfoldable pub register_request : Text → Text → Option Text → Option RegisterRequest
  unfolding sized
  register_request email password full_name = do
    address ← valid_email email
    secret ← sized 8 128 password
    name ← sized 0 255 (or_else [] full_name)
    pure (record { email = address; password = secret; full_name = name })

  unfoldable pub login_request : Text → Text → Option Bool → Option LoginRequest
  unfolding sized
  login_request email password remember_me = do
    address ← valid_email email
    secret ← sized 1 128 password
    pure (record { email = address; password = secret; remember_me = or_else false remember_me })

  unfoldable pub forgot_password_request : Text → Option ForgotPasswordRequest
  forgot_password_request email = do address ← valid_email email; pure (record { email = address })

  unfoldable pub change_email_request : Text → Text → Option ChangeEmailRequest
  unfolding sized
  change_email_request new_email password = do
    address ← valid_email new_email
    secret ← sized 1 128 password
    pure (record { new_email = address; password = secret })

unfoldable pub otp_login_request : (ℕ → Bool) → Text → Text → Option Bool → Option OtpLoginRequest
unfolding six_digits
otp_login_request digit pre_auth_token otp remember_me = do
  code ← six_digits digit otp
  pure (record {
    pre_auth_token = pre_auth_token;
    otp = code;
    remember_me = or_else false remember_me;
  })

unfoldable pub recovery_login_request : Text → Text → Option Bool → Option RecoveryLoginRequest
unfolding sized
recovery_login_request pre_auth_token recovery_code remember_me = do
  code ← sized 8 32 recovery_code
  pure (record {
    pre_auth_token = pre_auth_token;
    recovery_code = code;
    remember_me = or_else false remember_me;
  })

unfoldable pub token_request : Text → Option TokenRequest
unfolding sized
token_request token = do t ← sized 16 128 token; pure (record { token = t })

unfoldable pub reset_password_request : Text → Text → Option ResetPasswordRequest
unfolding sized
reset_password_request token new_password = do
  t ← sized 16 128 token
  secret ← sized 8 128 new_password
  pure (record { token = t; new_password = secret })

unfoldable pub password_confirm : Text → Option PasswordConfirm
unfolding sized
password_confirm password = do secret ← sized 1 128 password; pure (record { password = secret })

unfoldable pub otp_confirm : Text → Text → Option OtpConfirm
unfolding sized
otp_confirm password otp = do
  secret ← sized 1 128 password
  code ← sized 6 10 otp
  pure (record { password = secret; otp = code })

unfoldable pub otp_verify_request : (ℕ → Bool) → Text → Option OtpVerifyRequest
unfolding six_digits
otp_verify_request digit otp = do code ← six_digits digit otp; pure (record { otp = code })
