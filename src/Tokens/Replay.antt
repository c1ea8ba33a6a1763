-- ===== src/Tokens/Replay.antt =====
-- A refresh token after its rotation.
use enterprise_auth_server.Common.{
  ℕ, ◌<◌, ◌≡◌, ◌≢◌, true, none, some, [], Text, ltb, arith, if◌then◌else◌, text_beq_iff,
}
use enterprise_auth_server.Core.Errors.{token_replay}
use enterprise_auth_server.Core.Units.{seconds}
use enterprise_auth_server.Core.Claims.{Claims, refresh}
use enterprise_auth_server.Core.External.{Env}
use enterprise_auth_server.State.World.{World, wait}
use enterprise_auth_server.State.Redis.{revoked_jti, peek}
use enterprise_auth_server.State.Exec.{ok, err}
use enterprise_auth_server.Tokens.{
  Rotation, decode_token, remaining, revoke, verify_refresh, rotate,
}

module _ {Token : Type 0} (env : Env Token) where
  -- The state in which `rotate` leaves Redis.
  record Rotated (payload : Claims) (w v : World) : Type 0 where
    same_redis : v.redis ≡ (revoke payload w).1.redis
    same_now : v.now ≡ w.now
    was_up : w.redis.up ≡ true
    jti : Text
    has_jti : payload.jti ≡ some jti
    not_revoked : peek w.now w.redis (revoked_jti jti) ≡ none

  rotate-Rotated :
      (token : Token) (payload : Claims) (jti : Text) (r : Rotation Token) (w v : World)
      → decode_token env token refresh w ≡ some payload
      → payload.jti ≡ some jti
      → rotate env token w ≡ (ok r, v)
      → Rotated payload w v
  unfolding rotate
  rotate-Rotated token payload jti r w v d j h = record {
    same_redis = ground arith;
    same_now = ground arith;
    was_up = ground arith;
    jti = jti;
    has_jti = j;
    not_revoked = ground arith;
  }

  -- A refresh token that was rotated is refused as a replay for the whole seconds that its payload
  -- had left, and until then only; from then on, while PyJWT still decodes it, it is accepted again.
  pub verify_refresh-rotate :
      (token : Token) (payload : Claims) (jti : Text) (exp t : ℕ) (r : Rotation Token) (w v : World)
      → decode_token env token refresh w ≡ some payload
      → payload.jti ≡ some jti
      → jti ≢ []
      → payload.exp ≡ some exp
      → 0 < exp
      → rotate env token w ≡ (ok r, v)
      → decode_token env token refresh (wait t v) ≡ some payload
      → (verify_refresh env token (wait t v)).0
        ≡ (if ltb t (seconds (remaining exp w.now)) then err token_replay else ok payload)
  unfolding verify_refresh revoke
  verify_refresh-rotate token payload jti exp t r w v d j n e p h d' =
      let k = rotate-Rotated token payload jti r w v d j h in
      ground
        (arith, k.same_redis, k.same_now, k.was_up, k.not_revoked, k.has_jti, text_beq_iff jti jti)
