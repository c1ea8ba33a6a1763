-- ===== src/Routes/Login/SignIn.antt =====
-- From `_finalize_login` to `get_auth_context`.
use enterprise_auth_server.Common.{
  ltb, ℕ, ◌+◌, ◌<◌, ◌≡◌, ◌≢◌, refl, ap, ◌∙◌, true, false, Bool, none, some, List, [], ◌∷◌, Text,
  arith, find, find_holds, non_empty, if◌then◌else◌, leb, nat_eq, ◌==◌, nat_beq_iff, is_some,
}
use enterprise_auth_server.Core.External.{Env, JwtRoundTrip}
use enterprise_auth_server.Core.Settings.{IsUsable}
use enterprise_auth_server.Core.Units.{seconds, minutes, timestamp}
use enterprise_auth_server.Core.Uuid
use enterprise_auth_server.Core.Uuid.{uuid_limit}
use enterprise_auth_server.Core.Uuid.RoundTrip.{parse-to_text, to_text-ne-nil}
use enterprise_auth_server.Models.{User, Session}
use enterprise_auth_server.State.Redis.{session_revoked, session_touch, peek}
use enterprise_auth_server.State.World.{World}
use enterprise_auth_server.State.Exec.{ok}
use enterprise_auth_server.Tokens.{claims_of}
use enterprise_auth_server.Tokens.Issued.{access_claims, verify_access-issue_pair}
use enterprise_auth_server.Sessions.{expiry, touched}
use enterprise_auth_server.Sessions.Creation.{created_session-IsLive}
use enterprise_auth_server.Sessions.Validation.{IsLive, validate_complete}
use enterprise_auth_server.Routes.Http.{Request, Cookie}
use enterprise_auth_server.Routes.Access.{get_auth_context, subject}
use enterprise_auth_server.Routes.Access.Admission.{Shows, get_auth_context-ok}
use enterprise_auth_server.Routes.Login.{authenticated, finalize_login}
use enterprise_auth_server.Routes.Login.Finalization.{
  sent_token, finalize_login-Finalized, issue_pair-Unchanged, create_session-users,
}

some_text : (t : Text) → t ≢ [] → non_empty (some t) ≡ some t
some_text [] h = absurd (h refl)
some_text (c ∷ s) h = refl

-- The session that a token names is read back from it.
named_session : (u : ℕ) → non_empty (non_empty (some (Uuid.to_text u))) ≡ some (Uuid.to_text u)
named_session u =
    rw (some_text (Uuid.to_text u) (to_text-ne-nil u))
      (some_text (Uuid.to_text u) (to_text-ne-nil u))

module _ {Token : Type 0} (env : Env Token) where
  -- At the moment of its issue a token is valid, and one of at least a minute outlives it.
  not_before : (now : ℕ) → ltb now (seconds (timestamp now)) ≡ false
  not_before now = ground arith

  not_yet : (now m : ℕ) → 0 < m → leb (seconds (timestamp (now + minutes m))) now ≡ false
  not_yet now m h = ground arith

  unchanged-IsLive :
      (u user_id : ℕ) (s : Session) (y v : World)
      → v.db ≡ y.db
      → v.redis ≡ y.redis
      → v.now ≡ y.now
      → IsLive env u user_id s y
      → IsLive env u user_id s v
  unchanged-IsLive u user_id s y v db redis now l = record {
    found = rw db l.found;
    not_flagged = rw now (rw redis l.not_flagged);
    owner = l.owner;
    active = l.active;
    not_expired = rw now l.not_expired;
    not_idle = rw now l.not_idle;
  }

  same_uuid :
      (throttled : Bool) (u user_id : ℕ) (s : Session) (y : World) (now : ℕ)
      → IsLive env u user_id s y
      → (if throttled then s else touched now s).session_uuid ≡ u
  same_uuid throttled u user_id s y now l =
      let holds = find_holds (λ t. t.session_uuid == u) y.db.sessions s l.found in
      ground (arith, (nat_beq_iff s.session_uuid u).0 holds)

  -- A sign-in after which the browser sends back its access token is followed by requests that are
  -- let in: at the moment of its response, in the state it leaves, `get_auth_context` names the user
  -- that signed in, and the session that was created. This holds with Redis up, usable settings, an
  -- access token of at least a minute and a session of positive lifetime, for an active user in the
  -- table, where the UUIDs of the user and the session are of 128 bits and the latter is not flagged
  -- as revoked, and given what PyJWT documents of the tokens it encoded.
  pub get_auth_context-finalize_login :
      JwtRoundTrip env
      → IsUsable env.settings
      → 0 < env.settings.access_token_expire_minutes
      → (request next : Request Token) (user u : User) (remember_me : Bool) (csrf : Text)
        (cookies : List (Cookie Token)) (w v : World)
      → finalize_login env request user remember_me w ≡ (ok (authenticated u csrf cookies), v)
      → next.access_cookie ≡ sent_token cookies
      → w.redis.up ≡ true
      → find (λ r. r.id == user.id) w.db.users ≡ some user
      → user.is_active ≡ true
      → user.id < uuid_limit
      → env.new_uuid w.drawn < uuid_limit
      → peek w.now w.redis (session_revoked (env.new_uuid w.drawn)) ≡ none
      → w.now < expiry env remember_me w.now
      → (s : Session) × (s.session_uuid ≡ env.new_uuid w.drawn)
        × ((get_auth_context env next v).0 ≡ ok (record { user = user; session = some s }))
  unfolding claims_of subject
  get_auth_context-finalize_login jwt_laws usable lasting request next user u remember_me csrf
        cookies w v h sent up row active small small_uuid clear positive =
      let id = env.new_uuid w.drawn in
      let w1 : World = record w { drawn = w.drawn + 1 } in
      let f = finalize_login-Finalized env request user u remember_me csrf cookies w v h in
      let i = issue_pair-Unchanged env _ _ _ f.pair f.jti _ f.after_draw f.issued in
      let (users, now, reachable) =
        create_session-users env user id f.jti remember_me _ _ _ f.session f.is_new f.after_draw
          f.after_create f.created in
      let x = f.after_draw in
      let y = f.after_create in
      let later : v.now ≡ w.now = f.same_now ∙ now ∙ i.same_now in
      let (live, _) =
        created_session-IsLive env user id f.jti remember_me _ _ _ f.session f.is_new x y f.created
          (rw i.same_now (rw i.same_redis clear)) (rw i.same_now positive) in
      let valid =
        validate_complete env id user.id f.session v
          (ap (λ r. r.up) f.same_redis ∙ reachable ∙ ap (λ r. r.up) i.same_redis ∙ up) usable
          (unchanged-IsLive id user.id f.session y v f.same_db f.same_redis f.same_now live) in
      let shows : Shows env next user (Uuid.to_text id) v = record {
        token = f.pair.access;
        payload = access_claims env jwt_laws (Uuid.to_text user.id) (some (Uuid.to_text id)) w1;
        presented = sent ∙ f.sent;
        accepted =
            verify_access-issue_pair env jwt_laws _ remember_me _ f.pair f.jti w1 x v f.issued
            ∙ rw later (
                rw
                  (not_before w.now, not_yet w.now env.settings.access_token_expire_minutes lasting)
                  refl);
        subject_id = parse-to_text user.id small;
        found = rw (ap (λ d. d.users) f.same_db ∙ users ∙ ap (λ d. d.users) i.same_db) row;
        active = active;
        named = named_session id;
      } in
      (
        if is_some (peek v.now v.redis (session_touch f.session.session_uuid))
            then f.session
            else touched v.now f.session,
        same_uuid (is_some (peek v.now v.redis (session_touch f.session.session_uuid))) id user.id
            f.session y v.now live,
        get_auth_context-ok env next user (Uuid.to_text id) id _ v shows
            (parse-to_text id small_uuid) valid.result,
      )
