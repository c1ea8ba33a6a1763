-- ===== src/Tokens.antt =====
-- backend/app/services/token.py, with the JWT part of backend/app/core/security.py: issuing,
-- verifying, rotating and blacklisting tokens.
pub mod Issued
pub mod Replay
use enterprise_auth_server.Common.{
  ℕ, zero, suc, ◌+◌, ◌-◌, ◌/◌, Bool, true, false, Option, none, some, Text, ltb, non_empty,
  if◌then◌else◌,
}
use enterprise_auth_server.Core.Errors.{auth_error, token_replay, key_error}
use enterprise_auth_server.Core.Units.{second, seconds, minutes, days, timestamp}
use enterprise_auth_server.Core.Claims.{Claims, TokenType, access, refresh, pre_auth, has_type}
use enterprise_auth_server.Core.External.{Env}
use enterprise_auth_server.Core.Uuid
use enterprise_auth_server.State.Redis.{revoked_jti, number}
use enterprise_auth_server.State.World.{World}
use enterprise_auth_server.State.Exec.{
  Exec, ◌>>=◌, ◌>>◌, pure, raise, gets, or_raise, raise_if, when, draw,
}
use enterprise_auth_server.State.Commands.{exists, set}

pub record TokenPair (Token : Type 0) : Type 0 where
  pub access : Token
  pub refresh : Token
  pub refresh_ttl : ℕ

-- What `rotate` returns.
pub record Rotation (Token : Type 0) : Type 0 where
  pub user_id : Text
  pub session_id : Option Text
  pub pair : TokenPair Token
  pub refresh_jti : Text

module _ {Token : Type 0} (env : Env Token) where
  -- The claims that `create_token` encodes, from the jti and the time of issue.
  unfoldable pub claims_of : Text → TokenType → ℕ → Option Bool → Option Text → Text → ℕ → Claims
  claims_of subject token_type expires_delta remember_me sid jti now = record {
    sub = some subject;
    type = some token_type;
    jti = some jti;
    iat = some (timestamp now);
    exp = some (timestamp (now + expires_delta));
    remember_me = remember_me;
    sid = sid;
  }

  -- `create_token`; the extra claims are `remember_me` and `sid`, where given.
  unfoldable pub create_token :
      Text → TokenType → ℕ → Option Bool → Option Text → Exec (Token × Text)
  unfolding draw claims_of
  create_token subject token_type expires_delta remember_me sid = do
    n ← draw
    now ← gets (λ w. w.now)
    let jti = Uuid.to_text (env.new_uuid n)
    pure (env.jwt_encode (claims_of subject token_type expires_delta remember_me sid jti now), jti)

  abbrev of_type : TokenType → Option Claims → Option Claims
  of_type expected none = none
  of_type expected (some c) = if has_type expected c.type then some c else none

  -- `decode_token` with an expected type: `none` for a PyJWTError.
  unfoldable pub decode_token : Token → TokenType → World → Option Claims
  unfolding has_type
  decode_token token expected w = of_type expected (env.jwt_decode w.now token)

  -- `TokenService._refresh_ttl`
  unfoldable pub refresh_ttl : Bool → ℕ
  refresh_ttl remember_me = days (
      if remember_me
      then env.settings.refresh_token_remember_me_days
      else env.settings.refresh_token_expire_days)

  -- `TokenService.issue_pair`
  unfoldable pub issue_pair : Text → Bool → Option Text → Exec (TokenPair Token × Text)
  unfolding create_token refresh_ttl
  issue_pair user_id remember_me session_id = do
    let sid = non_empty session_id
    let access_delta = minutes env.settings.access_token_expire_minutes
    (access_token, _) ← create_token user_id TokenType.access access_delta none sid
    let ttl = refresh_ttl remember_me
    (refresh_token, jti) ← create_token user_id TokenType.refresh ttl (some remember_me) sid
    pure (record { access = access_token; refresh = refresh_token; refresh_ttl = ttl }, jti)

  -- `TokenService.issue_pre_auth`
  unfoldable pub issue_pre_auth : Text → Exec Token
  unfolding create_token
  issue_pre_auth user_id = do
    let delta = minutes env.settings.pre_auth_token_expire_minutes
    (token, _) ← create_token user_id pre_auth delta none none
    pure token

  -- `TokenService.verify_pre_auth`
  unfoldable pub verify_pre_auth : Token → Exec Text
  unfolding decode_token
  verify_pre_auth token = do
    decoded ← gets (decode_token token pre_auth)
    payload ← or_raise (auth_error "Invalid or expired pre-authentication token.") decoded
    or_raise key_error payload.sub

  -- `TokenService.verify_access`
  unfoldable pub verify_access : Token → Exec Claims
  unfolding decode_token
  verify_access token = do
    decoded ← gets (decode_token token TokenType.access)
    or_raise (auth_error "Invalid or expired access token.") decoded

-- `int(exp - now)`, 0 where that is negative
abbrev pub remaining : ℕ → ℕ → ℕ
remaining exp now = (seconds exp - now) / 1000000

revoke_until : Option Text → Option ℕ → Exec (Unit {0})
revoke_until (some jti) (some (suc e)) = do
  now ← gets (λ w. w.now)
  let ttl = remaining (suc e) now
  when (ltb 0 ttl) (set (revoked_jti jti) (number 1) ttl)
revoke_until jti exp = pure tt

-- `TokenService.revoke`: a payload without a jti or an expiry is left alone.
unfoldable pub revoke : Claims → Exec (Unit {0})
unfolding revoke_until set
revoke payload = revoke_until (non_empty payload.jti) payload.exp

-- `TokenService._is_revoked`
unfoldable pub is_revoked : Text → Exec Bool
unfolding exists
is_revoked jti = exists (revoked_jti jti)

-- bool(payload.get("remember_me", False))
abbrev pub remembers : Option Bool → Bool
remembers none = false
remembers (some b) = b

module _ {Token : Type 0} (env : Env Token) where
  ttl_or_default : Option ℕ → ℕ
  unfolding refresh_ttl
  ttl_or_default (some (suc t)) = suc t
  ttl_or_default t = refresh_ttl env true / 1000000

  revoke_named : Option Text → Option ℕ → Exec (Unit {0})
  unfolding ttl_or_default
  revoke_named none ttl_seconds = pure tt
  revoke_named (some jti) ttl_seconds =
      set (revoked_jti jti) (number 1) (ttl_or_default ttl_seconds)

  -- `TokenService.revoke_jti`
  unfoldable pub revoke_jti : Text → Option ℕ → Exec (Unit {0})
  unfolding revoke_named set
  revoke_jti jti ttl_seconds = revoke_named (non_empty (some jti)) ttl_seconds

  -- `TokenService.verify_refresh`
  unfoldable pub verify_refresh : Token → Exec Claims
  unfolding decode_token is_revoked
  verify_refresh token = do
    decoded ← gets (decode_token env token TokenType.refresh)
    payload ← or_raise (auth_error "Invalid or expired refresh token.") decoded
    jti ← or_raise key_error payload.jti
    revoked ← is_revoked jti
    raise_if revoked token_replay
    pure payload

  -- `TokenService.rotate`
  unfoldable pub rotate : Token → Exec (Rotation Token)
  unfolding verify_refresh revoke issue_pair
  rotate refresh_token = do
    payload ← verify_refresh refresh_token
    revoke payload
    user_id ← or_raise key_error payload.sub
    let session_id = payload.sid
    (pair, jti) ← issue_pair env user_id (remembers payload.remember_me) session_id
    pure (record { user_id = user_id; session_id = session_id; pair = pair; refresh_jti = jti })
