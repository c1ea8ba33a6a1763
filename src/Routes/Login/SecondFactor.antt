-- ===== src/Routes/Login/SecondFactor.antt =====
-- A password alone signs nobody in who has two-factor authentication.
use enterprise_auth_server.Common.{
  ◌≡◌, ◌≢◌, refl, ap, subst, ◌∙◌, true, false, Bool, some, List, Text, arith, if◌then◌else◌, nat_eq,
}
use enterprise_auth_server.Core.External.{Env}
use enterprise_auth_server.Core.Uuid
use enterprise_auth_server.Models.{User, TwoFactorAuth, Database}
use enterprise_auth_server.State.World.{World}
use enterprise_auth_server.State.Exec.{ok, ◌>>=◌, pure, >>=-eq-ok}
use enterprise_auth_server.State.Reads.{after_Reads, Reads}
use enterprise_auth_server.State.Keeps.{Both}
use enterprise_auth_server.RateLimit.Tables.{hit-Keeps}
use enterprise_auth_server.Tokens.{issue_pre_auth}
use enterprise_auth_server.Accounts.{authenticate}
use enterprise_auth_server.Accounts.Tables.{authenticate-Keeps}
use enterprise_auth_server.TwoFactor.{is_enabled}
use enterprise_auth_server.Routes.Http.{Request, Cookie, client_ip}
use enterprise_auth_server.Routes.Login.{
  authenticated, challenge, auth_rate_limit, finalize_login, login,
}

-- The table of second factors of the open transaction and of the committed state.
abbrev SameFactors : List TwoFactorAuth → Database → Type 0
SameFactors t db = db.two_factor ≡ t

module _ {Token : Type 0} (env : Env Token) where
  is_enabled-Reads : (user : User) → Reads (is_enabled env user)
  unfolding is_enabled
  is_enabled-Reads user = record { same = λ w. refl }

  is_enabled-cong :
      (user : User) (w v : World)
      → v.db.two_factor ≡ w.db.two_factor
      → (is_enabled env user w).0 ≡ (is_enabled env user v).0
  unfolding is_enabled
  is_enabled-cong user w v h = ground (arith, h)

  after_check :
      (request : Request Token) (email password : Text) (w : World)
      → w.committed ≡ w.db
      → let x = (auth_rate_limit env request w).1 in
        (authenticate env email password (some (client_ip request)) x).1.db.two_factor
        ≡ w.db.two_factor
  unfolding auth_rate_limit
  after_check request email password w h =
      let start : Both (SameFactors w.db.two_factor) w = record {
        open_db = refl;
        committed_db = ap (λ db. db.two_factor) h;
      } in
      let limited = (hit-Keeps _ _ _).at w start in
      ((authenticate-Keeps env (λ db us e. e) email password (some (client_ip request))).at _
        limited).open_db

  not_challenge :
      (token : Token) (u : User) (c : Text) (k : List (Cookie Token))
      → ok (challenge token) ≢ ok (authenticated u c k)
  not_challenge token u c k = λ h. absurd (cc)

  pub finalize_login-user :
      (request : Request Token) (user u : User) (remember_me : Bool) (csrf : Text)
      (cookies : List (Cookie Token)) (w v : World)
      → finalize_login env request user remember_me w ≡ (ok (authenticated u csrf cookies), v)
      → user ≡ u
  unfolding finalize_login
  finalize_login-user request user u remember_me csrf cookies w v h = ground arith

  no_challenge :
      (request : Request Token) (user u : User) (remember_me on : Bool) (csrf : Text)
      (cookies : List (Cookie Token)) (w v : World)
      → (if on
            then (issue_pre_auth env (Uuid.to_text user.id) >>= λ token. pure (challenge token))
            else finalize_login env request user remember_me)
          w
        ≡ (ok (authenticated u csrf cookies), v)
      → (on ≡ false) × (user ≡ u)
  no_challenge request user u remember_me true csrf cookies w v h =
      let (token, _, k) = >>=-eq-ok (issue_pre_auth env (Uuid.to_text user.id)) _ w _ v h in
      absurd (not_challenge token u csrf cookies (ap (λ p. p.0) k))
  no_challenge request user u remember_me false csrf cookies w v h =
      (refl, finalize_login-user request user u remember_me csrf cookies w v h)

  -- A login that signs a user in without a challenge is one of a user who has not enabled two-factor
  -- authentication: from a state without pending writes, `is_enabled` says so of the user signed in.
  pub login_without_challenge :
      (request : Request Token) (email password : Text) (remember_me : Bool) (user : User)
      (csrf : Text) (cookies : List (Cookie Token)) (w v : World)
      → login env request email password remember_me w ≡ (ok (authenticated user csrf cookies), v)
      → w.committed ≡ w.db
      → (is_enabled env user w).0 ≡ ok false
  unfolding login
  login_without_challenge request email password remember_me user csrf cookies w v h c =
      let response = authenticated user csrf cookies in
      let (_, _, h1) = >>=-eq-ok (auth_rate_limit env request) _ w response v h in
      let x = (auth_rate_limit env request w).1 in
      let check = authenticate env email password (some (client_ip request)) in
      let (found, _, h2) = >>=-eq-ok check _ x response v h1 in
      let y = (check x).1 in
      let (on, known, h3) = after_Reads _ y response v (is_enabled-Reads found) h2 in
      let (off, same) = no_challenge request found user remember_me on csrf cookies y v h3 in
      let before = is_enabled-cong found w y (after_check request email password w c) in
      subst (λ u. (is_enabled env u w).0 ≡ ok false) same (before ∙ known ∙ ap ok off)
