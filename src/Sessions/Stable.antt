-- ===== src/Sessions/Stable.antt =====
-- What every operation of services/session.py keeps: a predicate on the tables that survives the
-- changes that they make to a row, and the rows that they add.
use enterprise_auth_server.Common.{
  ℕ, ◌+◌, ◌≡◌, refl, Bool, true, false, Option, none, some, List, [], ◌∷◌, Text, nat_eq,
}
use enterprise_auth_server.Core.External.{Env}
use enterprise_auth_server.Core.Client.{Headers}
use enterprise_auth_server.Core.Uuid
use enterprise_auth_server.Models.{Session, User, Database}
use enterprise_auth_server.State.Keeps.{Keeps, keeps_rules, Keeps-if, Keeps-then}
use enterprise_auth_server.Tokens.{revoke_jti}
use enterprise_auth_server.Sessions.Repository.{get_by_uuid, add, save}
use enterprise_auth_server.Sessions.{
  ended, touched, rebound, require_valid, require_owned, require_rebindable, is_excepted,
  set_active, clear_cache, create_session, touch, expire_session, check_lifetime,
  validate_and_touch, revoke, revoke_by_uuid, revoke_found, revoke_parsed, revoke_by_sid,
  revoke_each, revoke_all, rebind_refresh,
}

-- An assignment that moves no row to another id, UUID or user and makes none active.
pub record IsEnding (f : Session → Session) : Type 0 where
  pub same_id : (s : Session) → (f s).id ≡ s.id
  pub same_uuid : (s : Session) → (f s).session_uuid ≡ s.session_uuid
  pub same_user : (s : Session) → (f s).user_id ≡ s.user_id
  pub stays_inactive : (s : Session) → s.is_active ≡ false → (f s).is_active ≡ false

ended-IsEnding : (reason : Text) (now : ℕ) → IsEnding (ended reason now)
ended-IsEnding reason now = record {
  same_id = λ s. refl;
  same_uuid = λ s. refl;
  same_user = λ s. refl;
  stays_inactive = λ s h. refl;
}

touched-IsEnding : (now : ℕ) → IsEnding (touched now)
touched-IsEnding now = record {
  same_id = λ s. refl;
  same_uuid = λ s. refl;
  same_user = λ s. refl;
  stays_inactive = λ s h. h;
}

rebound-IsEnding : (jti : Text) (now : ℕ) → IsEnding (rebound jti now)
rebound-IsEnding jti now = record {
  same_id = λ s. refl;
  same_uuid = λ s. refl;
  same_user = λ s. refl;
  stays_inactive = λ s h. h;
}

-- The predicate survives such assignments, and the addition of an active row.
pub record IsStable (P : Database → Type 0) : Type 0 where
  pub save_keeps : (id : ℕ) (f : Session → Session) → IsEnding f → Keeps P (save id f)
  pub add_keeps : (s : Session) → s.is_active ≡ true → Keeps P (add s)

module _ {P : Database → Type 0} (stable : IsStable P) where
  save-Keeps : (id : ℕ) (f : Session → Session) → IsEnding f → Keeps P (save id f)
  save-Keeps = stable.save_keeps

  add-Keeps : (s : Session) → s.is_active ≡ true → Keeps P (add s)
  add-Keeps = stable.add_keeps

module _ {P : Database → Type 0} where
  require_valid-Keeps : (user_id : ℕ) (o : Option Session) → Keeps P (require_valid user_id o)
  require_valid-Keeps user_id none = search keeps_rules
  require_valid-Keeps user_id (some s) = search keeps_rules

  require_owned-Keeps : (user_id : ℕ) (o : Option Session) → Keeps P (require_owned user_id o)
  require_owned-Keeps user_id none = search keeps_rules
  require_owned-Keeps user_id (some s) = search keeps_rules

  require_rebindable-Keeps :
      (user_id : ℕ) (o : Option Session) → Keeps P (require_rebindable user_id o)
  require_rebindable-Keeps user_id none = search keeps_rules
  require_rebindable-Keeps user_id (some s) = search keeps_rules

  get_by_uuid-Keeps : (session_uuid : ℕ) → Keeps P (get_by_uuid session_uuid)
  unfolding get_by_uuid
  get_by_uuid-Keeps session_uuid = search keeps_rules

module _ {Token : Type 0} (env : Env Token) {P : Database → Type 0} where
  set_active-Keeps : (session_uuid : ℕ) → Keeps P (set_active env session_uuid)
  unfolding set_active
  set_active-Keeps session_uuid = search keeps_rules

  clear_cache-Keeps : (session_uuid : ℕ) → Keeps P (clear_cache env session_uuid)
  unfolding clear_cache
  clear_cache-Keeps session_uuid = search keeps_rules

  revoke_jti-Keeps : (jti : Text) (ttl : Option ℕ) → Keeps P (revoke_jti env jti ttl)
  unfolding revoke_jti
  revoke_jti-Keeps [] ttl = search keeps_rules
  revoke_jti-Keeps (c ∷ s) ttl = search keeps_rules

ruleset stable_rules = (
  keeps_rules, save-Keeps, add-Keeps, ended-IsEnding, touched-IsEnding, rebound-IsEnding,
  require_valid-Keeps, require_owned-Keeps, require_rebindable-Keeps, get_by_uuid-Keeps,
  set_active-Keeps, clear_cache-Keeps, revoke_jti-Keeps,
)

module _ {Token : Type 0} (env : Env Token) {P : Database → Type 0} (stable : IsStable P) where
  touch-Keeps : (s : Session) (now : ℕ) → Keeps P (touch env s now)
  unfolding touch
  touch-Keeps s now = search stable_rules depth 9

  expire_session-Keeps : (s : Session) (reason : Text) → Keeps P (expire_session env s reason)
  unfolding expire_session
  expire_session-Keeps s reason = search stable_rules depth 9

  revoke-Keeps : (s : Session) (reason : Text) → Keeps P (revoke env s reason)
  unfolding revoke
  revoke-Keeps s reason = search stable_rules depth 9

  pub create_session-Keeps :
      (user : User) (session_uuid : ℕ) (jti : Text) (remember_me : Bool) (ip user_agent : Text)
      (headers : Headers)
      → Keeps P (create_session env user session_uuid jti remember_me ip user_agent headers)
  unfolding create_session
  create_session-Keeps user session_uuid jti remember_me ip user_agent headers =
      search stable_rules depth 9

  pub rebind_refresh-Keeps :
      (user_id session_uuid : ℕ) (jti : Text)
      → Keeps P (rebind_refresh env user_id session_uuid jti)
  unfolding rebind_refresh
  rebind_refresh-Keeps user_id session_uuid jti = search stable_rules depth 9

  check_lifetime-Keeps : (s : Session) (now : ℕ) → Keeps P (check_lifetime env s now)
  unfolding check_lifetime
  check_lifetime-Keeps s now = search (keeps_rules, touch-Keeps, expire_session-Keeps) depth 9

  pub validate_and_touch-Keeps :
      (session_uuid user_id : ℕ) → Keeps P (validate_and_touch env session_uuid user_id)
  unfolding validate_and_touch
  validate_and_touch-Keeps session_uuid user_id =
      search (stable_rules, check_lifetime-Keeps) depth 9

  pub revoke_by_uuid-Keeps :
      (user : User) (session_uuid : ℕ) (reason : Text)
      → Keeps P (revoke_by_uuid env user session_uuid reason)
  unfolding revoke_by_uuid
  revoke_by_uuid-Keeps user session_uuid reason = search (stable_rules, revoke-Keeps) depth 9

  revoke_found-Keeps : (reason : Text) (o : Option Session) → Keeps P (revoke_found env reason o)
  unfolding revoke_found
  revoke_found-Keeps reason none = search keeps_rules
  revoke_found-Keeps reason (some s) = search (keeps_rules, revoke-Keeps) depth 9

  revoke_parsed-Keeps : (reason : Text) (o : Option ℕ) → Keeps P (revoke_parsed env reason o)
  unfolding revoke_parsed
  revoke_parsed-Keeps reason none = search keeps_rules
  revoke_parsed-Keeps reason (some i) = search (stable_rules, revoke_found-Keeps) depth 9

  pub revoke_by_sid-Keeps : (sid reason : Text) → Keeps P (revoke_by_sid env sid reason)
  unfolding revoke_by_sid
  revoke_by_sid-Keeps sid reason = revoke_parsed-Keeps reason (Uuid.parse sid)

  revoke_each-Keeps :
      (ss : List Session) (reason : Text) (except_uuid : Option ℕ) (count : ℕ)
      → Keeps P (revoke_each env ss reason except_uuid count)
  unfolding revoke_each
  revoke_each-Keeps [] reason except_uuid count = search keeps_rules
  revoke_each-Keeps (s ∷ ss) reason except_uuid count =
      Keeps-if (is_excepted except_uuid s) (revoke_each-Keeps ss reason except_uuid count)
        (Keeps-then (revoke-Keeps s reason) (revoke_each-Keeps ss reason except_uuid (count + 1)))

  pub revoke_all-Keeps :
      (user : User) (reason : Text) (except_uuid : Option ℕ)
      → Keeps P (revoke_all env user reason except_uuid)
  unfolding revoke_all
  revoke_all-Keeps user reason except_uuid = search (keeps_rules, revoke_each-Keeps) depth 9
