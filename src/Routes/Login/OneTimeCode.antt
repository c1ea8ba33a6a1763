-- ===== src/Routes/Login/OneTimeCode.antt =====
-- What a login with a one-time code proves.
use enterprise_auth_server.Common.{
  ◌≡◌, subst, true, ℕ, Bool, some, find, List, Text, arith, ◌==◌, nat_eq, Option-cases, inl, inr,
}
use enterprise_auth_server.Core.Claims.{Claims, pre_auth, has_type}
use enterprise_auth_server.Core.External.{Env}
use enterprise_auth_server.Core.Uuid
use enterprise_auth_server.Models.{User, TwoFactorAuth, Database}
use enterprise_auth_server.State.World.{World}
use enterprise_auth_server.State.Exec.{ok, >>=-eq-ok}
use enterprise_auth_server.State.Reads.{after_Reads, Reads, whole}
use enterprise_auth_server.Tokens.{verify_pre_auth}
use enterprise_auth_server.Users
use enterprise_auth_server.RateLimit.{hit}
use enterprise_auth_server.TwoFactor.{verify_totp}
use enterprise_auth_server.TwoFactor.OneTimeCodes.{verify_totp-Accepted}
use enterprise_auth_server.TwoFactor.Disabling.{enabled_found, decrypted}
use enterprise_auth_server.Routes.Http.{Request, Cookie}
use enterprise_auth_server.Routes.Login.{
  authenticated, auth_rate_limit, load_user_for_otp, login_otp,
}
use enterprise_auth_server.Routes.Login.SecondFactor.{finalize_login-user}

module _ {Token : Type 0} (env : Env Token) where
  -- A pre-authentication token that names an active user, and a code for the second factor of one.
  pub record IsNamed (token : Token) (user : User) (now : ℕ) (db : Database) : Type 0 where
    pub payload : Claims
    pub decoded : env.jwt_decode now token ≡ some payload
    pub is_pre_auth : has_type pre_auth payload.type ≡ true
    pub subject : Text
    pub named : payload.sub ≡ some subject
    pub id : ℕ
    pub is_id : Uuid.parse subject ≡ some id
    pub found : find (λ u. u.id == id) db.users ≡ some user
    pub active : user.is_active ≡ true

  pub record HasCode (otp : Text) (user : User) (now : ℕ) (db : Database) : Type 0 where
    pub factor : TwoFactorAuth
    pub found : find (λ r. r.user_id == user.id) db.two_factor ≡ some factor
    pub enabled : factor.enabled ≡ true
    pub secret : Text
    pub readable : env.fernet_decrypt factor.encrypted_secret ≡ some secret
    pub valid : env.totp_verify secret otp env.settings.totp_valid_window now ≡ true

  verify_pre_auth-Reads : (token : Token) → Reads (verify_pre_auth env token)
  unfolding verify_pre_auth
  verify_pre_auth-Reads token = record { same = λ w. ground arith }

  load_user-Reads : (subject : Text) → Reads (load_user_for_otp env subject)
  unfolding load_user_for_otp Users.get
  load_user-Reads subject = record { same = λ w. ground arith }

  decoded_token :
      (token : Token) (subject : Text) (w : World)
      → (verify_pre_auth env token w).0 ≡ ok subject
      → (p : Claims) × (env.jwt_decode w.now token ≡ some p)
        × (has_type pre_auth p.type ≡ true)
        × (p.sub ≡ some subject)
  unfolding verify_pre_auth
  decoded_token token subject w h = elim (Option-cases (env.jwt_decode w.now token)) [
    | inl e ↦ absurd (ground (arith, e, h))
    | inr (p, e) ↦ (p, e, ground (arith, e, h), ground (arith, e, h))
  ]

  loaded_user :
      (subject : Text) (user : User) (w : World)
      → (load_user_for_otp env subject w).0 ≡ ok user
      → (id : ℕ) × (Uuid.parse subject ≡ some id)
        × (find (λ u. u.id == id) w.db.users ≡ some user)
        × (user.is_active ≡ true)
  unfolding load_user_for_otp Users.get
  loaded_user subject user w h = elim (Option-cases (Uuid.parse subject)) [
    | inl e ↦ absurd (ground (arith, e, h))
    | inr (id, e) ↦ (id, e, ground (arith, e, h), ground (arith, e, h))
  ]

  bearer_of :
      (token : Token) (subject : Text) (user : User) (w : World)
      → (verify_pre_auth env token w).0 ≡ ok subject
      → (load_user_for_otp env subject w).0 ≡ ok user
      → IsNamed token user w.now w.db
  bearer_of token subject user w h k =
      let (payload, decoded, is_pre_auth, named) = decoded_token token subject w h in
      let (id, is_id, found, active) = loaded_user subject user w k in
      record {
        payload = payload;
        decoded = decoded;
        is_pre_auth = is_pre_auth;
        subject = subject;
        named = named;
        id = id;
        is_id = is_id;
        found = found;
        active = active;
      }

  valid_code :
      (user : User) (otp : Text) (w : World)
      → (verify_totp env user otp w).0 ≡ ok tt
      → HasCode otp user w.now w.db
  valid_code user otp w h =
      let v = (verify_totp env user otp w).1 in
      let a = verify_totp-Accepted env user otp w v (whole (verify_totp env user otp) w tt h) in
      let (found, enabled) = enabled_found env user w a.secret a.enabled in
      record {
        factor = a.secret;
        found = found;
        enabled = enabled;
        secret = a.plain;
        readable = decrypted env a.secret.encrypted_secret a.plain w a.readable;
        valid = a.verified;
      }

  -- The limit looks at Redis alone.
  same_tables : (key : Text) (limit window : ℕ) (w : World) → (hit key limit window w).1.db ≡ w.db
  unfolding hit
  same_tables key limit window w = ground arith

  same_time : (key : Text) (limit window : ℕ) (w : World) → (hit key limit window w).1.now ≡ w.now
  unfolding hit
  same_time key limit window w = ground arith

  -- A login with a one-time code that signs a user in presented a pre-authentication token that
  -- decodes at that moment and names that user, an active one in the table, and a code that is valid
  -- at that moment for the secret of the user's enabled second factor.
  pub login_otp_needs_code :
      (request : Request Token) (token : Token) (otp : Text) (remember_me : Bool) (user : User)
      (csrf : Text) (cookies : List (Cookie Token)) (w v : World)
      → login_otp env request token otp remember_me w ≡ (ok (authenticated user csrf cookies), v)
      → IsNamed token user w.now w.db × HasCode otp user w.now w.db
  unfolding login_otp auth_rate_limit
  login_otp_needs_code request token otp remember_me user csrf cookies w v h =
      let response = authenticated user csrf cookies in
      let limit = auth_rate_limit env request in
      let x = (limit w).1 in
      let (_, _, h1) = >>=-eq-ok limit _ w response v h in
      let (subject, accepted, h2) = after_Reads _ x response v (verify_pre_auth-Reads token) h1 in
      let (bearer, loaded, h3) = after_Reads _ x response v (load_user-Reads subject) h2 in
      let (_, checked, h4) = >>=-eq-ok (verify_totp env bearer otp) _ x response v h3 in
      let same = finalize_login-user env request bearer user remember_me csrf cookies _ v h4 in
      let now : x.now ≡ w.now = same_time _ _ _ w in
      let db : x.db ≡ w.db = same_tables _ _ _ w in
      (
        subst (λ u. IsNamed token u w.now w.db) same
            (subst (IsNamed token bearer w.now) db (
              subst (λ n. IsNamed token bearer n x.db) now
                (bearer_of token subject bearer x accepted loaded))),
        subst (λ u. HasCode otp u w.now w.db) same
            (subst (HasCode otp bearer w.now) db
              (subst (λ n. HasCode otp bearer n x.db) now (valid_code bearer otp x checked))),
      )
