-- ===== src/Routes/Csrf.antt =====
-- Which routes stand behind `verify_csrf`.
use enterprise_auth_server.Common.{
  refl, non_empty, Option, some, none, text_beq_iff, ℕ, ◌≡◌, ◌≢◌, ap, Text, arith,
}
use enterprise_auth_server.Core.Strings.{text}
use enterprise_auth_server.Core.Client.{header}
use enterprise_auth_server.Core.External.{Env}
use enterprise_auth_server.State.World.{World}
use enterprise_auth_server.State.Exec.{ok, Exec, ◌>>=◌, pure, >>=-eq-ok}
use enterprise_auth_server.State.Reads.{whole}
use enterprise_auth_server.Routes.Http.{Request, compare_csrf, verify_csrf}
use enterprise_auth_server.Routes.Access.{get_current_user}
use enterprise_auth_server.Routes.EmailRoutes
use enterprise_auth_server.Routes.Refresh
use enterprise_auth_server.Routes.SessionRoutes
use enterprise_auth_server.Routes.TwoFactorRoutes
use enterprise_auth_server.Routes.TwoFactorRoutes.{guarded_user, twofa_rate_limit}

-- The handler does not succeed in any state.
pub record IsBarred {ℓ} {A : Type ℓ} (m : Exec A) : Type ℓ where
  pub fails : (w : World) (a : A) → (m w).0 ≢ ok a

module _ {ℓ κ} {A : Type ℓ} {B : Type κ} where
  bind-IsBarred : {m : Exec A} (f : A → Exec B) → IsBarred m → IsBarred (m >>= f)
  bind-IsBarred {m} f b = record {
    fails = λ w x e.
        let (a, h, _) = >>=-eq-ok m f w x ((m >>= f) w).1 (whole (m >>= f) w x e) in b.fails w a h;
  }

  after-IsBarred : (m : Exec A) {f : A → Exec B} → ((a : A) → IsBarred (f a)) → IsBarred (m >>= f)
  after-IsBarred m {f} b = record {
    fails = λ w x e.
        let (a, _, h) = >>=-eq-ok m f w x ((m >>= f) w).1 (whole (m >>= f) w x e) in
        (b a).fails (m w).1 x (ap (λ p. p.0) h);
  }

module _ {Token : Type 0} (request : Request Token) where
  -- The cookie csrf_token is there, and the header X-CSRF-Token repeats it.
  pub record IsRepeated : Type 0 where
    pub token : Text
    pub cookie : non_empty request.csrf_cookie ≡ some token
    pub repeated : non_empty (header (text "x-csrf-token") request.headers) ≡ some token

  compared :
      (cookie sent : Option Text) (w : World)
      → (compare_csrf cookie sent w).0 ≡ ok tt
      → (t : Text) × (cookie ≡ some t) × (sent ≡ some t)
  unfolding compare_csrf
  compared none sent w e = absurd (ground arith)
  compared (some c) none w e = absurd (ground arith)
  compared (some c) (some s) w e = (c, refl, ground (arith, text_beq_iff c s))

  verified : (w : World) → (verify_csrf request w).0 ≡ ok tt → IsRepeated
  unfolding verify_csrf
  verified w e =
      let (t, cookie, sent) = compared _ _ w e in
      record { token = t; cookie = cookie; repeated = sent }

  forged-IsBarred : ¬ IsRepeated → IsBarred (verify_csrf request)
  forged-IsBarred forged = record { fails = λ w a e. forged (verified w e) }

module _ {Token : Type 0} (env : Env Token) (request : Request Token) where
  guarded_user-IsBarred : IsBarred (verify_csrf request) → IsBarred (guarded_user env request)
  unfolding guarded_user
  guarded_user-IsBarred b = after-IsBarred (get_current_user env request) λ user.
      after-IsBarred (twofa_rate_limit env request user) λ _. bind-IsBarred (λ _. pure user) b

  -- Where the request's cookie csrf_token is absent or empty, or the header X-CSRF-Token is absent or
  -- has another value than the cookie, none of the routes that change the state of a signed-in user
  -- succeeds, in any state: asking for another verification mail, changing the address, logging out,
  -- ending sessions, and every change to two-factor authentication.
  pub csrf_is_required :
      (new_email password otp : Text) (session_id : ℕ)
      → ¬ IsRepeated request
      → IsBarred (EmailRoutes.resend_verification env request)
        × IsBarred (EmailRoutes.change_email env request new_email password)
        × IsBarred (Refresh.logout env request)
        × IsBarred (SessionRoutes.logout_current env request)
        × IsBarred (SessionRoutes.logout_all env request)
        × IsBarred (SessionRoutes.revoke_session env request session_id)
        × IsBarred (TwoFactorRoutes.setup env request password)
        × IsBarred (TwoFactorRoutes.verify env request otp)
        × IsBarred (TwoFactorRoutes.recovery_codes env request password otp)
        × IsBarred (TwoFactorRoutes.regenerate_recovery_codes env request password otp)
        × IsBarred (TwoFactorRoutes.disable env request password otp)
  unfolding EmailRoutes.resend_verification EmailRoutes.change_email Refresh.logout
      SessionRoutes.logout_current SessionRoutes.logout_all SessionRoutes.revoke_session
      TwoFactorRoutes.setup TwoFactorRoutes.verify TwoFactorRoutes.recovery_codes
      TwoFactorRoutes.regenerate_recovery_codes TwoFactorRoutes.disable
  csrf_is_required new_email password otp session_id h =
      let b = forged-IsBarred request h in
      let g = guarded_user-IsBarred b in
      (
        bind-IsBarred _ b,
        bind-IsBarred _ b,
        bind-IsBarred _ b,
        bind-IsBarred _ b,
        bind-IsBarred _ b,
        bind-IsBarred _ b,
        bind-IsBarred _ g,
        bind-IsBarred _ g,
        bind-IsBarred _ g,
        bind-IsBarred _ g,
        bind-IsBarred _ g,
      )
