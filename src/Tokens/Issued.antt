-- ===== src/Tokens/Issued.antt =====
-- The tokens that `issue_pair` and `rotate` hand out.
use enterprise_auth_server.Common.{
  ◌+◌, ◌≡◌, refl, Bool, Option, none, some, Text, leb, ltb, arith, if◌then◌else◌, non_empty,
}
use enterprise_auth_server.Core.Errors.{auth_error}
use enterprise_auth_server.Core.Units.{seconds, minutes, timestamp}
use enterprise_auth_server.Core.Claims.{Claims, TokenType, refresh}
use enterprise_auth_server.Core.External.{Env, JwtRoundTrip}
use enterprise_auth_server.Core.Uuid
use enterprise_auth_server.State.World.{World}
use enterprise_auth_server.State.Exec.{ok, err}
use enterprise_auth_server.Tokens.{
  TokenPair, Rotation, claims_of, decode_token, refresh_ttl, issue_pair, verify_access,
  verify_pre_auth, verify_refresh, rotate, remembers,
}

module _ {Token : Type 0} (env : Env Token) (jwt : JwtRoundTrip env) where
  abbrev pub access_claims : Text → Option Text → World → Claims
  access_claims user_id session_id w =
      claims_of env user_id TokenType.access (minutes env.settings.access_token_expire_minutes) none
        (non_empty session_id) (Uuid.to_text (env.new_uuid w.drawn)) w.now

  abbrev pub refresh_claims : Text → Bool → Option Text → World → Claims
  refresh_claims user_id remember_me session_id w =
      claims_of env user_id TokenType.refresh (refresh_ttl env remember_me) (some remember_me)
        (non_empty session_id) (Uuid.to_text (env.new_uuid (w.drawn + 1))) w.now

  -- The pair that is issued.
  record Issued (user_id : Text) (remember_me : Bool) (session_id : Option Text) (w : World)
      (pair : TokenPair Token) : Type 0 where
    is_access : pair.access ≡ env.jwt_encode (access_claims user_id session_id w)
    is_refresh : pair.refresh ≡ env.jwt_encode (refresh_claims user_id remember_me session_id w)

  issue_pair-Issued :
      (user_id : Text) (remember_me : Bool) (session_id : Option Text) (pair : TokenPair Token)
      (jti : Text) (w v : World)
      → issue_pair env user_id remember_me session_id w ≡ (ok (pair, jti), v)
      → Issued user_id remember_me session_id w pair
  unfolding issue_pair
  issue_pair-Issued user_id remember_me session_id pair jti w v h = record {
    is_access = ground arith;
    is_refresh = ground arith;
  }

  -- Given what PyJWT documents of the tokens it encoded, no token of an issued pair passes for one of
  -- another kind, at any time and in any state.
  pub kinds_are_separate :
      (user_id : Text) (remember_me : Bool) (session_id : Option Text) (pair : TokenPair Token)
      (jti : Text) (w v x : World)
      → issue_pair env user_id remember_me session_id w ≡ (ok (pair, jti), v)
      → ((verify_refresh env pair.access x).0
          ≡ err (auth_error "Invalid or expired refresh token."))
        × ((verify_access env pair.refresh x).0
            ≡ err (auth_error "Invalid or expired access token."))
        × ((verify_pre_auth env pair.access x).0
            ≡ err (auth_error "Invalid or expired pre-authentication token."))
        × ((verify_pre_auth env pair.refresh x).0
            ≡ err (auth_error "Invalid or expired pre-authentication token."))
  unfolding verify_refresh verify_access verify_pre_auth claims_of
  kinds_are_separate user_id remember_me session_id pair jti w v x h =
      let i = issue_pair-Issued user_id remember_me session_id pair jti w v h in
      let ja = jwt x.now _ _ (access_claims user_id session_id w) refl refl in
      let jr = jwt x.now _ _ (refresh_claims user_id remember_me session_id w) refl refl in
      (
        ground (arith, i.is_access, ja),
        ground (arith, i.is_refresh, jr),
        ground (arith, i.is_access, ja),
        ground (arith, i.is_refresh, jr),
      )

  -- Given what PyJWT documents of the tokens it encoded, an access token is accepted from the whole
  -- second of its issue until the whole second of its expiry, with the user and the session that it
  -- was issued for, and refused at any time before and from then on.
  pub verify_access-issue_pair :
      (user_id : Text) (remember_me : Bool) (session_id : Option Text) (pair : TokenPair Token)
      (jti : Text) (w v x : World)
      → issue_pair env user_id remember_me session_id w ≡ (ok (pair, jti), v)
      → (verify_access env pair.access x).0 ≡ (
          if ltb x.now (seconds (timestamp w.now))
          then err (auth_error "Invalid or expired access token.")
          else if leb
              (seconds (timestamp (w.now + minutes env.settings.access_token_expire_minutes)))
              x.now
          then err (auth_error "Invalid or expired access token.")
          else ok (access_claims user_id session_id w))
  unfolding verify_access claims_of
  verify_access-issue_pair user_id remember_me session_id pair jti w v x h =
      let i = issue_pair-Issued user_id remember_me session_id pair jti w v h in
      ground (arith, i.is_access, jwt x.now _ _ (access_claims user_id session_id w) refl refl)

  rotate-Issued :
      (token : Token) (payload : Claims) (r : Rotation Token) (w v : World)
      → decode_token env token refresh w ≡ some payload
      → rotate env token w ≡ (ok r, v)
      → (payload.sub ≡ some r.user_id)
        × (r.session_id ≡ payload.sid)
        × Issued r.user_id (remembers payload.remember_me) payload.sid w r.pair
  unfolding rotate
  rotate-Issued token payload r w v d h =
      (ground arith, ground arith, record { is_access = ground arith; is_refresh = ground arith })

  -- A rotation keeps the user, the session and the choice to be remembered: the new refresh token
  -- decodes to them from the whole second of its issue until its own expiry.
  pub rotate_keeps_identity :
      (token : Token) (payload : Claims) (r : Rotation Token) (w v x : World)
      → decode_token env token refresh w ≡ some payload
      → rotate env token w ≡ (ok r, v)
      → (payload.sub ≡ some r.user_id)
        × (r.session_id ≡ payload.sid)
        × (decode_token env r.pair.refresh refresh x ≡ (
            if ltb x.now (seconds (timestamp w.now))
            then none
            else if leb
                (seconds (timestamp (w.now + refresh_ttl env (remembers payload.remember_me))))
                x.now
            then none
            else some (refresh_claims r.user_id (remembers payload.remember_me) payload.sid w)))
  unfolding decode_token claims_of
  rotate_keeps_identity token payload r w v x d h =
      let i = rotate-Issued token payload r w v d h in
      let j =
        jwt x.now _ _ (refresh_claims r.user_id (remembers payload.remember_me) payload.sid w) refl
          refl in
      (i.0, i.1, ground (arith, i.2.is_refresh, j))
