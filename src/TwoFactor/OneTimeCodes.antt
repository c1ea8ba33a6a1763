-- ===== src/TwoFactor/OneTimeCodes.antt =====
-- A one-time code is good for one use.
use enterprise_auth_server.Common.{
  not-eq-false, ℕ, ◌+◌, ◌*◌, ◌<◌, ◌≡◌, ◌≢◌, refl, not, ap, ◌∙◌, true, false, Bool, Option, none,
  some, Text, arith, nat_beq_iff, text_beq_iff,
}
use enterprise_auth_server.Core.Errors.{Error}
use enterprise_auth_server.Core.Units.{seconds}
use enterprise_auth_server.Core.External.{Env}
use enterprise_auth_server.Models.{User, TwoFactorAuth}
use enterprise_auth_server.State.Commands.{exists, set}
use enterprise_auth_server.State.Redis.{Key, otp_used, lockout, number}
use enterprise_auth_server.State.World.{World}
use enterprise_auth_server.State.Exec.{Exec, ok, >>=-eq-ok, raises, ◌>>◌, raise}
use enterprise_auth_server.State.Reads.{Reads, whole, after_Reads, exists-Reads}
use enterprise_auth_server.RateLimit.{scoped, record_failure, ensure_not_locked, clear_failures}
use enterprise_auth_server.TwoFactor.{lock_id, verify_totp, enabled_record, decrypt, reject_code}

pub ensure_not_locked-Reads : (id : Text) (ip : Option Text) → Reads (ensure_not_locked id ip)
unfolding ensure_not_locked
ensure_not_locked-Reads id ip = record { same = λ w. ground arith }

module _ {Token : Type 0} (env : Env Token) where
  -- How long a code stays marked.
  abbrev pub otp_span : ℕ
  otp_span = seconds (30 * (2 * env.settings.totp_valid_window + 1))

  pub enabled_record-Reads : (user : User) → Reads (enabled_record env user)
  unfolding enabled_record
  enabled_record-Reads user = record { same = λ w. ground arith }

  decrypt-Reads : (c : Text) → Reads (decrypt env c)
  unfolding decrypt
  decrypt-Reads c = record { same = λ w. ground arith }

  -- The last two steps of an accepted code.
  unfoldable pub mark : User → Text → Exec (Unit {0})
  unfolding set clear_failures
  mark user otp = do
    set (otp_used user.id otp) (number 1) (30 * (2 * env.settings.totp_valid_window + 1))
    clear_failures (lock_id user) none

  not_rejected :
      (id : Text) (bad : Bool) (e : Error) (m : Exec (Unit {0})) (w v : World)
      → (reject_code env id bad (raise e) >> m) w ≡ (ok tt, v)
      → (bad ≡ false) × (m w ≡ (ok tt, v))
  unfolding reject_code
  not_rejected id false e m w v h = (refl, h)
  not_rejected id true e m w v h =
      let f = record_failure env.settings id none in
      let (a, p, q) = >>=-eq-ok (f >> raise e) (λ _. m) w tt v h in absurd (raises (f w) e a p)

  -- What is known once a code was accepted.
  pub record Accepted (user : User) (otp : Text) (w v : World) : Type 0 where
    pub unlocked : (ensure_not_locked (lock_id user) none w).0 ≡ ok tt
    pub secret : TwoFactorAuth
    pub enabled : (enabled_record env user w).0 ≡ ok secret
    pub plain : Text
    pub readable : (decrypt env secret.encrypted_secret w).0 ≡ ok plain
    pub unused : (exists (otp_used user.id otp) w).0 ≡ ok false
    pub verified : env.totp_verify plain otp env.settings.totp_valid_window w.now ≡ true
    pub marked : mark user otp w ≡ (ok tt, v)

  pub verify_totp-Accepted :
      (user : User) (otp : Text) (w v : World)
      → verify_totp env user otp w ≡ (ok tt, v)
      → Accepted user otp w v
  unfolding verify_totp mark
  verify_totp-Accepted user otp w v h =
      let (_, unlocked, h1) =
        after_Reads _ w tt v (ensure_not_locked-Reads (lock_id user) none) h in
      let (r, enabled, h2) = after_Reads _ w tt v (enabled_record-Reads user) h1 in
      let (s, readable, h3) = after_Reads _ w tt v (decrypt-Reads r.encrypted_secret) h2 in
      let (used, known, h4) = after_Reads _ w tt v (exists-Reads (otp_used user.id otp)) h3 in
      let (new, h5) = not_rejected (lock_id user) used _ _ w v h4 in
      let wrong = not (env.totp_verify s otp env.settings.totp_valid_window w.now) in
      let (valid, h6) = not_rejected (lock_id user) wrong _ _ w v h5 in
      record {
        unlocked = unlocked;
        secret = r;
        enabled = enabled;
        plain = s;
        readable = readable;
        unused = known ∙ ap ok new;
        verified = not-eq-false (env.totp_verify s otp env.settings.totp_valid_window w.now) valid;
        marked = h6;
      }

  -- Redis and the tables after an accepted code.
  pub record Marked (user : User) (otp : Text) (w v : World) : Type 0 where
    pub up : v.redis.up ≡ true
    pub same_db : v.db ≡ w.db
    pub entry :
        v.redis.store (otp_used user.id otp)
        ≡ some (record { value = number 1; expires = some (w.now + otp_span) })
    pub unlocked : v.redis.store (lockout (scoped (lock_id user) none)) ≡ none
    pub span : 0 < otp_span

  pub mark-Marked :
      (user : User) (otp : Text) (w v : World)
      → mark user otp w ≡ (ok tt, v)
      → w.redis.up ≡ true
      → Marked user otp w v
  unfolding mark
  mark-Marked user otp w v h up = record {
    up = ground arith;
    same_db = ground arith;
    entry = ground (arith, nat_beq_iff user.id user.id, text_beq_iff otp otp);
    unlocked =
        ground (arith, text_beq_iff (scoped (lock_id user) none) (scoped (lock_id user) none));
    span = ground arith;
  }

  pub reachable :
      (id : Text) (ip : Option Text) (w : World)
      → (ensure_not_locked id ip w).0 ≡ ok tt
      → w.redis.up ≡ true
  unfolding ensure_not_locked
  reachable id ip w h = ground arith

  still_marked :
      (k : Key) (x : World) (e : ℕ)
      → x.redis.store k ≡ some (record { value = number 1; expires = some e })
      → x.now < e
      → (exists k x).0 ≢ ok false
  unfolding exists
  still_marked k x e h l = λ f. ground (arith, h)

  -- Once a code has been accepted for a user, that code is not accepted again for the user in the
  -- 30 * (2 * TOTP_VALID_WINDOW + 1) seconds that follow, in any state in which Redis still has the
  -- mark that the first use set.
  pub otp_is_single_use :
      (user : User) (otp : Text) (w v x : World)
      → verify_totp env user otp w ≡ (ok tt, v)
      → x.redis.store (otp_used user.id otp) ≡ v.redis.store (otp_used user.id otp)
      → x.now < w.now + otp_span
      → (verify_totp env user otp x).0 ≢ ok tt
  otp_is_single_use user otp w v x h same l again =
      let a = verify_totp-Accepted user otp w v h in
      let up = reachable (lock_id user) none w a.unlocked in
      let m = mark-Marked user otp w v a.marked up in
      let b =
        verify_totp-Accepted user otp x (verify_totp env user otp x).1
          (whole (verify_totp env user otp) x tt again) in
      still_marked (otp_used user.id otp) x (w.now + otp_span) (same ∙ m.entry) l b.unused
