-- ===== src/Oauth/Handshake.antt =====
-- The state of an OAuth sign-in, from `start_authorization` to `_pop_state`.
use enterprise_auth_server.Common.{
  ℕ, ◌+◌, ◌<◌, ◌≤◌, ◌≡◌, ◌∙◌, if◌then◌else◌, refl, true, Option, none, some, Text, arith,
  text_beq_iff, ◌==◌, text_eq,
}
use enterprise_auth_server.Core.Errors.{Error, auth_error}
use enterprise_auth_server.Core.Units.{seconds}
use enterprise_auth_server.Core.External.{Env}
use enterprise_auth_server.State.Redis.{StatePayload, payload, oauth_state, peek}
use enterprise_auth_server.State.World.{World}
use enterprise_auth_server.State.Exec.{ok, err}
use enterprise_auth_server.Oauth.Base.{uses_pkce}
use enterprise_auth_server.Oauth.Registry.{get_provider}
use enterprise_auth_server.Oauth.{start_authorization, pop_state}

abbrev no_state : Error
no_state = auth_error "Invalid or expired OAuth state."

abbrev mismatch : Error
mismatch = auth_error "OAuth state does not match provider."

module _ {Token : Type 0} (env : Env Token) where
  gone :
      (state other : Text) (x : World)
      → x.redis.up ≡ true
      → peek x.now x.redis (oauth_state state) ≡ none
      → pop_state env state other x ≡ (err no_state, x)
  unfolding pop_state
  gone state other x up none_left = ground (arith, up, none_left)

  consumed :
      (state first : Text) (w : World)
      → w.redis.up ≡ true
      → (now : ℕ) → w.now ≤ now
      → peek now (pop_state env state first w).1.redis (oauth_state state) ≡ none
  unfolding pop_state
  consumed state first w up now later = ground (arith, up, text_beq_iff state state)

  -- A state that a callback has presented while Redis was up is refused to every later one that finds
  -- Redis up, whatever became of the first, as long as nothing writes its key again.
  pub pop_state_is_single_use :
      (state first other : Text) (w x : World)
      → w.redis.up ≡ true
      → x.redis.up ≡ true
      → w.now ≤ x.now
      → x.redis.store (oauth_state state)
        ≡ (pop_state env state first w).1.redis.store (oauth_state state)
      → pop_state env state other x ≡ (err no_state, x)
  pop_state_is_single_use state first other w x up up_again later same =
      gone state other x up_again (rw same (consumed state first w up x.now later))

  -- What `start_authorization` leaves in Redis: the state that it drew, for its time to live.
  record Started (provider mode : Text) (link_user_id : Option Text) (w v : World) : Type 0 where
    pub up : w.redis.up ≡ true
    pub lives : 0 < env.settings.oauth_state_ttl_seconds
    pub code_verifier : Option Text
    pub entry :
        v.redis.store (oauth_state (env.new_secret w.drawn))
        ≡ some (record {
          value = payload (record {
            provider = provider;
            code_verifier = code_verifier;
            mode = mode;
            link_user_id = link_user_id;
          });
          expires = some (w.now + seconds env.settings.oauth_state_ttl_seconds);
        })

  start_authorization-Started :
      (provider mode : Text) (link_user_id : Option Text) (url : Text) (w v : World)
      → start_authorization env provider mode link_user_id w ≡ (ok url, v)
      → Started provider mode link_user_id w v
  unfolding start_authorization
  start_authorization-Started provider mode link_user_id url w v h =
      let two = w.drawn + 1 in
      record {
        up = ground arith;
        lives = ground arith;
        code_verifier = elim (get_provider env.settings provider) [
          | none ↦ none
          | some p ↦ if uses_pkce p.kind then some (env.new_secret two) else none
        ];
        entry = ground (arith, text_beq_iff (env.new_secret w.drawn) (env.new_secret w.drawn));
      }

  popped :
      (state : Text) (p : StatePayload) (other : Text) (end : ℕ) (x : World)
      → x.redis.up ≡ true
      → x.redis.store (oauth_state state) ≡ some (record { value = payload p; expires = some end })
      → x.now < end
      → (pop_state env state other x).0 ≡ (if p.provider == other then ok p else err mismatch)
  unfolding pop_state
  popped state p other end x up entry before = ground (arith, up, entry)

  -- The state that a sign-in was started with brings back the choices that it was started with, to a
  -- callback of the same provider and to no other, until its time to live has passed.
  pub pop_state-start_authorization :
      (provider mode : Text) (link_user_id : Option Text) (url other : Text) (w v x : World)
      → start_authorization env provider mode link_user_id w ≡ (ok url, v)
      → x.redis.up ≡ true
      → x.redis.store (oauth_state (env.new_secret w.drawn))
        ≡ v.redis.store (oauth_state (env.new_secret w.drawn))
      → x.now < w.now + seconds env.settings.oauth_state_ttl_seconds
      → (p : StatePayload) × ((pop_state env (env.new_secret w.drawn) other x).0
          ≡ (if provider == other then ok p else err mismatch))
        × (p.provider ≡ provider)
        × (p.mode ≡ mode)
        × (p.link_user_id ≡ link_user_id)
  pop_state-start_authorization provider mode link_user_id url other w v x h up same before =
      let s = start_authorization-Started provider mode link_user_id url w v h in
      let p : StatePayload = record {
        provider = provider;
        code_verifier = s.code_verifier;
        mode = mode;
        link_user_id = link_user_id;
      } in
      let back =
        popped (env.new_secret w.drawn) p other
          (w.now + seconds env.settings.oauth_state_ttl_seconds) x up (same ∙ s.entry) before in
      (p, back, refl, refl, refl)
