-- ===== src/Routes/Access/Gate.antt =====
-- Who passes `get_auth_context`.
use enterprise_auth_server.Common.{
  not-eq-false, ℕ, ◌≡◌, ap, subst, ◌∙◌, true, not, Option, none, some, Text, find, non_empty, arith,
  nat_eq, ◌==◌,
}
use enterprise_auth_server.Core.Claims.{Claims, TokenType}
use enterprise_auth_server.Core.External.{Env}
use enterprise_auth_server.Core.Uuid
use enterprise_auth_server.Models.{User, Session}
use enterprise_auth_server.State.World.{World}
use enterprise_auth_server.State.Exec.{ok, >>=-eq-ok}
use enterprise_auth_server.State.Reads.{Reads, whole, after_Reads, after_or_raise, after_raise_if}
use enterprise_auth_server.Tokens.{decode_token, verify_access}
use enterprise_auth_server.Sessions.{validate_and_touch}
use enterprise_auth_server.Sessions.Validation.{IsLive, validate_sound}
use enterprise_auth_server.Users
use enterprise_auth_server.Routes.Http.{Request}
use enterprise_auth_server.Routes.Access.{AuthContext, get_auth_context, subject, bound_session}

-- The live session that a token names, if it names one.
abbrev pub BoundTo : {Token : Type 0} → Env Token → Option Text → ℕ → World → Type 0
BoundTo env none user_id w = Unit {0}
BoundTo env (some sid) user_id w =
    (u : ℕ) × (s : Session) × (Uuid.parse sid ≡ some u) × IsLive env u user_id s w

module _ {Token : Type 0} (env : Env Token) where
  -- What a request shows that passes: an access token that decodes, whose subject is an active user,
  -- and whose session, if it names one, is live and the user's own.
  pub record Admitted (request : Request Token) (user : User) (w : World) : Type 0 where
    pub token : Token
    pub payload : Claims
    pub id : ℕ
    pub presented : request.access_cookie ≡ some token
    pub decoded : decode_token env token TokenType.access w ≡ some payload
    pub subject_id : subject payload.sub ≡ some id
    pub found : find (λ u. u.id == id) w.db.users ≡ some user
    pub active : user.is_active ≡ true
    pub bound : BoundTo env (non_empty payload.sid) user.id w

  pub verify_access-Reads : (token : Token) → Reads (verify_access env token)
  unfolding verify_access
  verify_access-Reads token = record { same = λ w. ground arith }

  verify_access-decodes :
      (token : Token) (payload : Claims) (w : World)
      → (verify_access env token w).0 ≡ ok payload
      → decode_token env token TokenType.access w ≡ some payload
  unfolding verify_access
  verify_access-decodes token payload w h = ground arith

  bound_session-BoundTo :
      (sid : Option Text) (user_id : ℕ) (s : Option Session) (w v : World)
      → bound_session env sid user_id w ≡ (ok s, v)
      → BoundTo env sid user_id w
  unfolding bound_session
  bound_session-BoundTo none user_id s w v h = tt
  bound_session-BoundTo (some sid) user_id s w v h =
      let (u, parsed, k) = after_or_raise _ (Uuid.parse sid) _ w s v h in
      let (t, valid, _) = >>=-eq-ok (validate_and_touch env u user_id) _ w s v k in
      let (row, live) =
        validate_sound env u user_id t w (validate_and_touch env u user_id w).1
          (whole (validate_and_touch env u user_id) w t valid) in
      (u, row, parsed, live)

  ok_injective : {a b : AuthContext} → ok a ≡ ok b → a ≡ b
  ok_injective h = cc

  same_user :
      (user : User) (s : Option Session) (ctx : AuthContext)
      → ok (record { user = user; session = s }) ≡ ok ctx
      → user ≡ ctx.user
  same_user user s ctx h = ap (λ c. c.user) (ok_injective h)

  -- A request that `get_auth_context` lets through has an access token that decodes, its subject is
  -- a user in the table who is active, and if the token names a session, that session is in the
  -- table, is the user's own, is active and not flagged as revoked, before its expiry and within
  -- the idle timeout.
  pub get_auth_context-Admitted :
      (request : Request Token) (ctx : AuthContext) (w v : World)
      → get_auth_context env request w ≡ (ok ctx, v)
      → Admitted request ctx.user w
  unfolding get_auth_context verify_access Users.get
  get_auth_context-Admitted request ctx w v h =
      let (token, presented, h1) = after_or_raise _ request.access_cookie _ w ctx v h in
      let (payload, e2, h2) = after_Reads _ w ctx v (verify_access-Reads token) h1 in
      let (id, subject_id, h3) = after_or_raise _ (subject payload.sub) _ w ctx v h2 in
      let row = find (λ u. u.id == id) w.db.users in
      let (user, found, h4) = after_or_raise _ row _ w ctx v h3 in
      let (active, h5) = after_raise_if (not user.is_active) _ _ w ctx v h4 in
      let (s, bound, h6) =
        >>=-eq-ok (bound_session env (non_empty payload.sid) user.id) _ w ctx v h5 in
      let same = same_user user s ctx (ap (λ p. p.0) h6) in
      record {
        token = token;
        payload = payload;
        id = id;
        presented = presented;
        decoded = verify_access-decodes token payload w e2;
        subject_id = subject_id;
        found = found ∙ ap some same;
        active = subst (λ x. x.is_active ≡ true) same (not-eq-false user.is_active active);
        bound =
            subst (λ x. BoundTo env (non_empty payload.sid) x.id w) same
              (bound_session-BoundTo (non_empty payload.sid) user.id s w _
                (whole (bound_session env (non_empty payload.sid) user.id) w s bound));
      }
