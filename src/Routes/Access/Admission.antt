-- ===== src/Routes/Access/Admission.antt =====
-- What lets a request through `get_auth_context`.
use enterprise_auth_server.Common.{ℕ, ◌≡◌, refl, true, some, Text, find, non_empty, nat_eq, ◌==◌}
use enterprise_auth_server.Core.Claims.{Claims}
use enterprise_auth_server.Core.External.{Env}
use enterprise_auth_server.Core.Uuid
use enterprise_auth_server.Models.{User, Session}
use enterprise_auth_server.State.World.{World}
use enterprise_auth_server.State.Exec.{ok}
use enterprise_auth_server.State.Reads.{whole}
use enterprise_auth_server.Tokens.{verify_access}
use enterprise_auth_server.Sessions.{validate_and_touch}
use enterprise_auth_server.Users
use enterprise_auth_server.Routes.Http.{Request}
use enterprise_auth_server.Routes.Access.{get_auth_context, subject, bound_session}
use enterprise_auth_server.Routes.Access.Gate.{verify_access-Reads}

module _ {Token : Type 0} (env : Env Token) where
  -- What a request needs, as far as the session.
  pub record Shows (request : Request Token) (user : User) (sid : Text) (w : World) : Type 0 where
    pub token : Token
    pub payload : Claims
    pub presented : request.access_cookie ≡ some token
    pub accepted : (verify_access env token w).0 ≡ ok payload
    pub subject_id : subject payload.sub ≡ some user.id
    pub found : find (λ u. u.id == user.id) w.db.users ≡ some user
    pub active : user.is_active ≡ true
    pub named : non_empty payload.sid ≡ some sid

  verified :
      (token : Token) (payload : Claims) (w : World)
      → (verify_access env token w).0 ≡ ok payload
      → verify_access env token w ≡ (ok payload, w)
  verified token payload w h = λ i. (h i, (verify_access-Reads env token).same w i)

  bound_session-ok :
      (sid : Text) (u user_id : ℕ) (s : Session) (w : World)
      → Uuid.parse sid ≡ some u
      → (validate_and_touch env u user_id w).0 ≡ ok s
      → (bound_session env (some sid) user_id w).0 ≡ ok (some s)
  unfolding bound_session
  bound_session-ok sid u user_id s w parsed valid =
      rw parsed (rw (whole (validate_and_touch env u user_id) w s valid) refl)

  pub get_auth_context-ok :
      (request : Request Token) (user : User) (sid : Text) (u : ℕ) (s : Session) (w : World)
      → Shows request user sid w
      → Uuid.parse sid ≡ some u
      → (validate_and_touch env u user.id w).0 ≡ ok s
      → (get_auth_context env request w).0 ≡ ok (record { user = user; session = some s })
  unfolding get_auth_context Users.get
  get_auth_context-ok request user sid u s w shows parsed valid =
      let bound =
        whole (bound_session env (some sid) user.id) w (some s)
          (bound_session-ok sid u user.id s w parsed valid) in
      rw shows.presented (
        rw (verified shows.token shows.payload w shows.accepted)
          (rw shows.subject_id (rw shows.found (rw shows.active (rw shows.named (rw bound refl))))))
