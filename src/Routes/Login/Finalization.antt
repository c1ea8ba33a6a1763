-- ===== src/Routes/Login/Finalization.antt =====
-- The steps of a login that succeeded: `_finalize_login` of backend/app/api/v1/_login.py.
use enterprise_auth_server.Common.{
  ℕ, ◌+◌, ◌≡◌, refl, ap, ◌∙◌, Bool, Option, none, some, List, [], ◌∷◌, Text, arith, nat_eq,
}
use enterprise_auth_server.Core.Client.{Headers, header}
use enterprise_auth_server.Core.External.{Env}
use enterprise_auth_server.Core.Strings.{text}
use enterprise_auth_server.Core.Uuid
use enterprise_auth_server.Core.Uuid.{uuid_limit}
use enterprise_auth_server.Models.{User, Session}
use enterprise_auth_server.State.World.{World}
use enterprise_auth_server.State.Exec.{ok, >>=-eq-ok}
use enterprise_auth_server.State.Reads.{whole}
use enterprise_auth_server.Tokens.{TokenPair, issue_pair}
use enterprise_auth_server.Sessions.{create_session}
use enterprise_auth_server.Routes.Http.{
  Request, Cookie, access_token, refresh_token, csrf_token, plain, deleted, set_auth_cookies,
  client_ip, jwt,
}
use enterprise_auth_server.Routes.Login.{authenticated, finalize_login, agent_of}

-- The token that a browser sends back from then on.
abbrev pub sent_token : {Token : Type 0} → List (Cookie Token) → Option Token
sent_token [] = none
sent_token (c ∷ cs) = elim c.name [
  | access_token ↦ elim c.value [ jwt t ↦ some t | plain s ↦ none | deleted ↦ none ]
  | refresh_token ↦ sent_token cs
  | csrf_token ↦ sent_token cs
]

module _ {Token : Type 0} (env : Env Token) where
  -- The parts of a login that succeeded.
  pub record Finalized (request : Request Token) (user : User) (remember_me : Bool)
      (cookies : List (Cookie Token)) (w v : World) : Type 0 where
    pub pair : TokenPair Token
    pub jti : Text
    pub after_draw : World
    pub issued :
        issue_pair env
          (Uuid.to_text user.id)
          remember_me
          (some (Uuid.to_text (env.new_uuid w.drawn)))
          (record w { drawn = w.drawn + 1 })
        ≡ (ok (pair, jti), after_draw)
    pub session : Session
    pub is_new : Bool
    pub after_create : World
    pub created :
        create_session env user
          (env.new_uuid w.drawn)
          jti
          remember_me
          (client_ip request)
          (agent_of (header (text "user-agent") request.headers))
          request.headers
          after_draw
        ≡ (ok (session, is_new), after_create)
    pub same_db : v.db ≡ after_create.db
    pub same_redis : v.redis ≡ after_create.redis
    pub same_now : v.now ≡ after_create.now
    pub sent : sent_token cookies ≡ some pair.access

  sent_set :
      (pair : TokenPair Token) (csrf : Text)
      → sent_token (set_auth_cookies env pair csrf) ≡ some pair.access
  unfolding set_auth_cookies
  sent_set pair csrf = refl

  pub finalize_login-Finalized :
      (request : Request Token) (user u : User) (remember_me : Bool) (csrf : Text)
      (cookies : List (Cookie Token)) (w v : World)
      → finalize_login env request user remember_me w ≡ (ok (authenticated u csrf cookies), v)
      → Finalized request user remember_me cookies w v
  unfolding finalize_login
  finalize_login-Finalized request user u remember_me csrf cookies w v h =
      let response = authenticated u csrf cookies in
      let w1 : World = record w { drawn = w.drawn + 1 } in
      let m =
        issue_pair env (Uuid.to_text user.id) remember_me
          (some (Uuid.to_text (env.new_uuid w.drawn))) in
      let (p, e1, h1) = >>=-eq-ok m _ w1 response v h in
      let x = (m w1).1 in
      let n =
        create_session env user (env.new_uuid w.drawn) p.1 remember_me (client_ip request)
          (agent_of (header (text "user-agent") request.headers)) request.headers in
      let (s, e2, h2) = >>=-eq-ok n _ x response v h1 in
      let set : cookies ≡ set_auth_cookies env p.0 (env.new_secret (n x).1.drawn) =
        ground (arith, h2) in
      record {
        pair = p.0;
        jti = p.1;
        after_draw = x;
        issued = whole m w1 p e1;
        session = s.0;
        is_new = s.1;
        after_create = (n x).1;
        created = whole n x s e2;
        same_db = ground (arith, h2);
        same_redis = ground (arith, h2);
        same_now = ground (arith, h2);
        sent = ap sent_token set ∙ sent_set p.0 _;
      }

  -- What `issue_pair` leaves as it is.
  pub record Unchanged (w v : World) : Type 0 where
    pub same_db : v.db ≡ w.db
    pub same_redis : v.redis ≡ w.redis
    pub same_now : v.now ≡ w.now

  pub issue_pair-Unchanged :
      (user_id : Text) (remember_me : Bool) (sid : Option Text) (pair : TokenPair Token)
      (jti : Text) (w v : World)
      → issue_pair env user_id remember_me sid w ≡ (ok (pair, jti), v)
      → Unchanged w v
  unfolding issue_pair
  issue_pair-Unchanged user_id remember_me sid pair jti w v h = record {
    same_db = ground arith;
    same_redis = ground arith;
    same_now = ground arith;
  }

  pub create_session-users :
      (user : User) (u : ℕ) (jti : Text) (remember_me : Bool) (ip agent : Text) (headers : Headers)
      (s : Session) (is_new : Bool) (w v : World)
      → create_session env user u jti remember_me ip agent headers w ≡ (ok (s, is_new), v)
      → (v.db.users ≡ w.db.users) × (v.now ≡ w.now) × (v.redis.up ≡ w.redis.up)
  unfolding create_session
  create_session-users user u jti remember_me ip agent headers s is_new w v h =
      (ground arith, ground arith, ground arith)
