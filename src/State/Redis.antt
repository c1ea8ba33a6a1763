-- ===== src/State/Redis.antt =====
-- The Redis key space as the services use it. A key is one of the source's key templates with its
-- parts; an entry has its value and the time at which it expires.
use enterprise_auth_server.Common.{
  ℕ, Bool, false, ◌&&◌, Option, none, some, Text, ltb, if◌then◌else◌, nat_eq, text_eq, nat_beq,
  text_beq,
}

pub data Key : Type 0 where
  -- "ratelimit:{key}", "lockout:{scoped}", "failcount:{scoped}" of services/rate_limit.py,
  -- "revoked_jti:{jti}" of services/token.py, "oauth_state:{state}" of services/oauth/service.py
  ratelimit lockout failcount revoked_jti oauth_state : Text → Key
  -- "session_revoked:{sid}", "session_touch:{sid}", "session_active:{sid}" of services/session.py
  session_revoked session_touch session_active : ℕ → Key
  -- "2fa_otp_used:{user.id}:{otp}" of services/two_factor.py
  otp_used : ℕ → Text → Key

abbrev pub key_beq : Key → Key → Bool
key_beq (ratelimit s) (ratelimit t) = text_beq s t
key_beq (lockout s) (lockout t) = text_beq s t
key_beq (failcount s) (failcount t) = text_beq s t
key_beq (revoked_jti s) (revoked_jti t) = text_beq s t
key_beq (oauth_state s) (oauth_state t) = text_beq s t
key_beq (session_revoked i) (session_revoked j) = nat_beq i j
key_beq (session_touch i) (session_touch j) = nat_beq i j
key_beq (session_active i) (session_active j) = nat_beq i j
key_beq (otp_used i s) (otp_used j t) = nat_beq i j && text_beq s t
key_beq _ _ = false

-- The JSON object that an OAuth state key holds.
pub record StatePayload : Type 0 where
  pub provider : Text
  pub code_verifier : Option Text
  pub mode : Text
  pub link_user_id : Option Text

-- A number, such as the text "1", or an OAuth state.
pub data Value : Type 0 where
  number : ℕ → Value
  payload : StatePayload → Value

pub record Entry : Type 0 where
  pub value : Value
  pub expires : Option ℕ

pub record Redis : Type 0 where
  -- whether the server answers
  pub up : Bool
  pub store : Key → Option Entry

-- The value that an entry shows at a time.
abbrev pub live : ℕ → Option Entry → Option Value
live now none = none
live now (some e) = elim e.expires [
  | none ↦ some e.value
  | some t ↦ if ltb now t then some e.value else none
]

-- The value of a key at a time: `none` when it was never set, was deleted, or has expired.
abbrev pub peek : ℕ → Redis → Key → Option Value
peek now r k = live now (r.store k)

abbrev pub write : Redis → Key → Option Entry → Redis
write r k e = record r { store = λ j. if key_beq k j then e else r.store j }
