-- ===== src/TwoFactor/Disabling.antt =====
-- `TwoFactorService.disable` of backend/app/services/two_factor.py.
use enterprise_auth_server.Common.{
  ℕ, ◌≡◌, refl, ap, ◌∙◌, true, false, not, none, some, List, [], ◌∷◌, Text, arith, nat_eq,
  nat_beq_iff, ◌==◌, find, select, any, not-eq-false,
}
use enterprise_auth_server.Core.External.{Env}
use enterprise_auth_server.Models.{User, TwoFactorAuth, Database}
use enterprise_auth_server.State.World.{World}
use enterprise_auth_server.State.Exec.{ok, ◌>>=◌, ◌>>◌, >>=-eq-ok}
use enterprise_auth_server.State.Reads.{after_raise_if, whole}
use enterprise_auth_server.TwoFactor.{
  lock_id, decrypt, delete_found, enabled_record, verify_totp, disable, is_enabled,
}
use enterprise_auth_server.TwoFactor.Repository.{get_by_user, delete, delete_for_user}
use enterprise_auth_server.TwoFactor.OneTimeCodes.{verify_totp-Accepted, mark-Marked, reachable}

-- No user has two rows.
abbrev pub OnePerUser : List TwoFactorAuth → Type 0
OnePerUser [] = Unit
OnePerUser (r ∷ rs) = (any (λ s. s.user_id == r.user_id) rs ≡ false) × OnePerUser rs

-- Rows of other users stay other users' rows.
none_left :
    (user_id id : ℕ) (rs : List TwoFactorAuth)
    → any (λ s. s.user_id == user_id) rs ≡ false
    → find (λ s. s.user_id == user_id) (select (λ s. not (s.id == id)) rs) ≡ none
unfolding find select any
none_left user_id id [] h = refl
none_left user_id id (r ∷ rs) h = ground (arith, none_left user_id id rs)

-- Without its row a user has none.
find-select :
    (user_id : ℕ) (r : TwoFactorAuth) (rs : List TwoFactorAuth)
    → OnePerUser rs
    → find (λ s. s.user_id == user_id) rs ≡ some r
    → find (λ s. s.user_id == user_id) (select (λ s. not (s.id == r.id)) rs) ≡ none
unfolding find select
find-select user_id r [] u h = refl
find-select user_id r (s ∷ rs) u h = ground (
  arith,
  nat_beq_iff s.user_id user_id,
  none_left s.user_id s.id rs,
  find-select user_id r rs u.1,
  u.0,
)

module _ {Token : Type 0} (env : Env Token) where
  pub enabled_found :
      (user : User) (w : World) (r : TwoFactorAuth)
      → (enabled_record env user w).0 ≡ ok r
      → (find (λ s. s.user_id == user.id) w.db.two_factor ≡ some r) × (r.enabled ≡ true)
  unfolding enabled_record
  enabled_found user w r h = (ground arith, ground arith)

  pub decrypted :
      (c plain : Text) (w : World)
      → (decrypt env c w).0 ≡ ok plain
      → env.fernet_decrypt c ≡ some plain
  unfolding decrypt
  decrypted c plain w h = ground arith

  -- The tables without a row and without the recovery codes of a user.
  abbrev pub without : User → TwoFactorAuth → Database → Database
  without user r db = record db {
    two_factor = select (λ s. not (s.id == r.id)) db.two_factor;
    backup_codes = select (λ c. not (c.user_id == user.id)) db.backup_codes;
  }

  -- The steps after the code was accepted.
  removing :
      (user : User) (r : TwoFactorAuth) (x v : World)
      → find (λ s. s.user_id == user.id) x.db.two_factor ≡ some r
      → (get_by_user user.id >>= (λ found. delete_found env found >> delete_for_user user.id)) x
        ≡ (ok tt, v)
      → v.db ≡ without user r x.db
  unfolding get_by_user delete delete_for_user
  removing user r x v f h = ground (arith, f)

  switched_off :
      (user : User) (v : World)
      → find (λ s. s.user_id == user.id) v.db.two_factor ≡ none
      → (is_enabled env user v).0 ≡ ok false
  unfolding is_enabled
  switched_off user v h = ground (arith, h)

  -- What is known, and what has become of the tables, once two-factor authentication was disabled.
  pub record Disabled (user : User) (password otp : Text) (w v : World) : Type 0 where
    pub confirmed : env.verify password user.hashed_password ≡ true
    pub factor : TwoFactorAuth
    pub found : find (λ r. r.user_id == user.id) w.db.two_factor ≡ some factor
    pub enabled : factor.enabled ≡ true
    pub secret : Text
    pub readable : env.fernet_decrypt factor.encrypted_secret ≡ some secret
    pub valid : env.totp_verify secret otp env.settings.totp_valid_window w.now ≡ true
    pub removed : v.db ≡ record w.db {
      two_factor = select (λ r. not (r.id == factor.id)) w.db.two_factor;
      backup_codes = select (λ c. not (c.user_id == user.id)) w.db.backup_codes;
    }
    pub off : (is_enabled env user v).0 ≡ ok false

  -- Where no user has two records, disabling succeeds only with the user's own password and a code
  -- that is valid at that moment for the secret of the enabled record; it deletes that record and all
  -- recovery codes of the user and changes nothing else in the tables, and two-factor authentication
  -- is off for the user afterwards.
  pub disable-Disabled :
      (user : User) (password otp : Text) (w v : World)
      → OnePerUser w.db.two_factor
      → disable env user password otp w ≡ (ok tt, v)
      → Disabled user password otp w v
  unfolding disable
  disable-Disabled user password otp w v u h =
      let (confirmed, h1) =
        after_raise_if (not (env.verify password user.hashed_password)) _ _ w tt v h in
      let (t, accepted, h2) = >>=-eq-ok (verify_totp env user otp) _ w tt v h1 in
      let x = (verify_totp env user otp w).1 in
      let a =
        verify_totp-Accepted env user otp w x (whole (verify_totp env user otp) w tt accepted) in
      let up = reachable env (lock_id user) none w a.unlocked in
      let same = (mark-Marked env user otp w x a.marked up).same_db in
      let (found, enabled) = enabled_found user w a.secret a.enabled in
      let here =
        ap (λ (db : Database). find (λ s. s.user_id == user.id) db.two_factor) same ∙ found in
      let removed = removing user a.secret x v here h2 ∙ ap (without user a.secret) same in
      record {
        confirmed = not-eq-false (env.verify password user.hashed_password) confirmed;
        factor = a.secret;
        found = found;
        enabled = enabled;
        secret = a.plain;
        readable = decrypted a.secret.encrypted_secret a.plain w a.readable;
        valid = a.verified;
        removed = removed;
        off = switched_off user v (
            ap (λ (db : Database). find (λ s. s.user_id == user.id) db.two_factor) removed
            ∙ find-select user.id a.secret w.db.two_factor u found);
      }
