-- ===== src/Sessions/Rebinding.antt =====
-- What a token refresh does to its session.
use enterprise_auth_server.Common.{ℕ, ◌≡◌, none, Text, nat_eq}
use enterprise_auth_server.Core.External.{Env}
use enterprise_auth_server.Models.{Session}
use enterprise_auth_server.State.Redis.{session_revoked, peek}
use enterprise_auth_server.State.World.{World}
use enterprise_auth_server.Sessions.{rebound}
use enterprise_auth_server.Sessions.Repository.{save}

module _ {Token : Type 0} (env : Env Token) where
  record Rebound (u : ℕ) (jti : Text) (s : Session) (w v : World) : Type 0 where
    saved : v.db ≡ (save s.id (rebound jti w.now) w).1.db
    same_now : v.now ≡ w.now
    not_flagged :
        peek w.now w.redis (session_revoked u) ≡ none
        → peek v.now v.redis (session_revoked u) ≡ none
