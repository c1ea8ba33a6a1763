-- ===== src/Sessions/History.antt =====
-- Requests on sessions, one after another, with time passing and Redis failing or losing keys
-- between them.
use enterprise_auth_server.Common.{
  ℕ, ◌≡◌, ◌≢◌, refl, sym, subst, Bool, true, false, Option, none, some, List, [], ◌∷◌, Text, find,
  find-update, arith, Option-cases, Bool-cases, inl, inr, if◌then◌else◌, ◌==◌, nat_eq, nat_beq_iff,
}
use enterprise_auth_server.Core.External.{Env}
use enterprise_auth_server.Core.Client.{Headers}
use enterprise_auth_server.Models.{Database, Session, User}
use enterprise_auth_server.State.Redis.{Redis}
use enterprise_auth_server.State.World.{World, wait}
use enterprise_auth_server.State.Exec.{ok}
use enterprise_auth_server.State.UnitOfWork.{run_request, run_request-Succeeded}
use enterprise_auth_server.State.Keeps.{Both, Keeps-run_request}
use enterprise_auth_server.Sessions.Repository.{save}
use enterprise_auth_server.Sessions.{
  ended, create_session, validate_and_touch, revoke, revoke_by_uuid, revoke_by_sid, revoke_all,
  rebind_refresh,
}
use enterprise_auth_server.Sessions.Ended.{HasEnded, HasEnded-IsStable}
use enterprise_auth_server.Sessions.Stable.{
  IsStable, create_session-Keeps, validate_and_touch-Keeps, revoke_by_uuid-Keeps,
  revoke_by_sid-Keeps, revoke_all-Keeps, rebind_refresh-Keeps,
}

pub data Event : Type 0 where
  creates : User → ℕ → Text → Bool → Text → Text → Headers → Event
  validates : ℕ → ℕ → Event
  revokes : User → ℕ → Text → Event
  revokes_sid : Text → Text → Event
  revokes_all : User → Text → Option ℕ → Event
  rebinds : ℕ → ℕ → Text → Event
  waits : ℕ → Event
  redis_becomes : Redis → Event

module _ {Token : Type 0} (env : Env Token) where
  unfoldable pub perform : Event → World → World
  perform (creates user i jti remember_me ip agent headers) w =
      (run_request (create_session env user i jti remember_me ip agent headers) w).1
  perform (validates i user_id) w = (run_request (validate_and_touch env i user_id) w).1
  perform (revokes user i reason) w = (run_request (revoke_by_uuid env user i reason) w).1
  perform (revokes_sid sid reason) w = (run_request (revoke_by_sid env sid reason) w).1
  perform (revokes_all user reason kept) w = (run_request (revoke_all env user reason kept) w).1
  perform (rebinds user_id i jti) w = (run_request (rebind_refresh env user_id i jti) w).1
  perform (waits d) w = wait d w
  perform (redis_becomes r) w = record w { redis = r }

  unfoldable pub history : List Event → World → World
  history [] w = w
  history (e ∷ es) w = history es (perform e w)

  perform-Keeps :
      {P : Database → Type 0} (stable : IsStable P) (e : Event) (w : World)
      → Both P w
      → Both P (perform e w)
  unfolding perform
  perform-Keeps stable (creates user i jti remember_me ip agent headers) w h =
      (Keeps-run_request
          (create_session-Keeps env stable user i jti remember_me ip agent headers)).at
        w h
  perform-Keeps stable (validates i user_id) w h =
      (Keeps-run_request (validate_and_touch-Keeps env stable i user_id)).at w h
  perform-Keeps stable (revokes user i reason) w h =
      (Keeps-run_request (revoke_by_uuid-Keeps env stable user i reason)).at w h
  perform-Keeps stable (revokes_sid sid reason) w h =
      (Keeps-run_request (revoke_by_sid-Keeps env stable sid reason)).at w h
  perform-Keeps stable (revokes_all user reason kept) w h =
      (Keeps-run_request (revoke_all-Keeps env stable user reason kept)).at w h
  perform-Keeps stable (rebinds user_id i jti) w h =
      (Keeps-run_request (rebind_refresh-Keeps env stable user_id i jti)).at w h
  perform-Keeps stable (waits d) w h = record { open_db = h.open_db; committed_db = h.committed_db }
  perform-Keeps stable (redis_becomes r) w h = record {
    open_db = h.open_db;
    committed_db = h.committed_db;
  }

  pub history-Keeps :
      {P : Database → Type 0} (stable : IsStable P) (es : List Event) (w : World)
      → Both P w
      → Both P (history es w)
  unfolding history
  history-Keeps stable [] w h = h
  history-Keeps stable (e ∷ es) w h =
      history-Keeps stable es (perform e w) (perform-Keeps stable e w h)

  pub history-HasEnded :
      {u : ℕ} (es : List Event) (w : World) → Both (HasEnded u) w → Both (HasEnded u) (history es w)
  history-HasEnded {u} es w h = history-Keeps (HasEnded-IsStable u) es w h

  pub validate-HasEnded :
      {u : ℕ} (user_id : ℕ) (w : World) (t : Session)
      → HasEnded u w.db
      → (validate_and_touch env u user_id w).0 ≢ ok t
  unfolding validate_and_touch
  validate-HasEnded user_id w t h e = ground (arith, h.found, h.inactive)

  -- The row that was found is ended by an assignment to its id.
  pub save-ends :
      (u : ℕ) (reason : Text) (now : ℕ) (s : Session) (w : World)
      → find (λ t. t.session_uuid == u) w.db.sessions ≡ some s
      → HasEnded u (save s.id (ended reason now) w).1.db
  unfolding save
  save-ends u reason now s w h = record {
    row = ended reason now s;
    found =
        let moved =
          find-update (λ t. t.session_uuid == u) (λ t. t.id == s.id) (ended reason now)
            w.db.sessions (λ t. refl) in
        rw (moved, h) (ground (arith, nat_beq_iff s.id s.id));
    inactive = refl;
  }

  pub revoke-db :
      (s : Session) (reason : Text) (w : World)
      → (revoke env s reason w).1.db ≡ (save s.id (ended reason w.now) w).1.db
  unfolding revoke
  revoke-db s reason w = ground arith

  pub revoke-ends :
      (u : ℕ) (reason : Text) (s : Session) (w : World)
      → find (λ t. t.session_uuid == u) w.db.sessions ≡ some s
      → HasEnded u (revoke env s reason w).1.db
  revoke-ends u reason s w h = rw revoke-db (save-ends u reason w.now s w h)

  revoked_db :
      (user : User) (u : ℕ) (reason : Text) (s t : Session) (w v : World)
      → revoke_by_uuid env user u reason w ≡ (ok t, v)
      → find (λ t. t.session_uuid == u) w.db.sessions ≡ some s
      → v.db ≡ (if s.is_active then (revoke env s reason w).1.db else w.db)
  unfolding revoke_by_uuid
  revoked_db user u reason s t w v h f = ground arith

  revoked_found :
      (user : User) (u : ℕ) (reason : Text) (t : Session) (w v : World)
      → revoke_by_uuid env user u reason w ≡ (ok t, v)
      → find (λ t. t.session_uuid == u) w.db.sessions ≢ none
  unfolding revoke_by_uuid
  revoked_found user u reason t w v h f = ground arith

  revoke_by_uuid-ends :
      (user : User) (u : ℕ) (reason : Text) (t : Session) (w v : World)
      → revoke_by_uuid env user u reason w ≡ (ok t, v)
      → HasEnded u v.db
  revoke_by_uuid-ends user u reason t w v h =
      elim (Option-cases (find (λ t. t.session_uuid == u) w.db.sessions)) [
        | inl e ↦ absurd (revoked_found user u reason t w v h e)
        | inr (s, e) ↦ elim (Bool-cases s.is_active) [
          | inl a ↦ subst (HasEnded u) (sym (active_db a e)) (revoke-ends u reason s w e)
          | inr a ↦
              subst (HasEnded u) (sym (inactive_db a e))
                (record { row = s; found = e; inactive = a })
        ]
      ]
    where
      active_db :
          {s : Session}
          → s.is_active ≡ true
          → find (λ t. t.session_uuid == u) w.db.sessions ≡ some s
          → v.db ≡ (revoke env s reason w).1.db
      active_db {s} a e = ground (arith, revoked_db user u reason s t w v h e)

      inactive_db :
          {s : Session}
          → s.is_active ≡ false
          → find (λ t. t.session_uuid == u) w.db.sessions ≡ some s
          → v.db ≡ w.db
      inactive_db {s} a e = ground (arith, revoked_db user u reason s t w v h e)

  request-ends :
      {u : ℕ} (w v : World) (user : User) (reason : Text) (t : Session)
      → run_request (revoke_by_uuid env user u reason) w ≡ (ok t, v)
      → Both (HasEnded u) v
  request-ends {u} w v user reason t h =
      let k = run_request-Succeeded (revoke_by_uuid env user u reason) w t v h in
      let d = revoke_by_uuid-ends user u reason t w k.after k.returned in
      rw k.committed_all (record { open_db = d; committed_db = d })

  -- Once a request to revoke a session has succeeded, no later request validates that session, for
  -- any user, whatever session requests come between, however much time passes, and whatever becomes
  -- of Redis.
  pub revoked_for_good :
      (user : User) (u : ℕ) (reason : Text) (w v : World) (s t : Session) (es : List Event)
      (user_id : ℕ)
      → run_request (revoke_by_uuid env user u reason) w ≡ (ok s, v)
      → (validate_and_touch env u user_id (history es v)).0 ≢ ok t
  revoked_for_good user u reason w v s t es user_id h =
      validate-HasEnded user_id (history es v) t
        (history-HasEnded es v (request-ends w v user reason s h)).open_db
