-- ===== src/TwoFactor/RecoveryCodes.antt =====
-- A recovery code is used up by its one use.
use enterprise_auth_server.Common.{
  ℕ, ◌≡◌, refl, ap, ◌∙◌, true, not, Option, none, some, List, [], ◌∷◌, Text, arith, nat_eq, ◌==◌,
  select, update,
}
use enterprise_auth_server.Core.Errors.{auth_error}
use enterprise_auth_server.Core.External.{Env}
use enterprise_auth_server.Core.Strings.{upper, strip}
use enterprise_auth_server.Models.{User, BackupCode}
use enterprise_auth_server.State.World.{World}
use enterprise_auth_server.State.Exec.{ok, raises}
use enterprise_auth_server.State.Reads.{after_Reads}
use enterprise_auth_server.RateLimit.{record_failure}
use enterprise_auth_server.TwoFactor.{lock_id, matching_code, consume, consume_recovery_code}
use enterprise_auth_server.TwoFactor.Repository.{list_unused, unused_of}
use enterprise_auth_server.TwoFactor.OneTimeCodes.{ensure_not_locked-Reads}

-- Marking the rows with an id as used takes them out of the unused ones.
select-update :
    (user_id id now : ℕ) (cs : List BackupCode)
    → select
        (unused_of user_id)
        (update (λ c. c.id == id) (λ c. record c { used_at = some now }) cs)
      ≡ select (λ c. not (c.id == id)) (select (unused_of user_id) cs)
unfolding select update
select-update user_id id now [] = refl
select-update user_id id now (c ∷ cs) = ground (arith, select-update user_id id now cs)

module _ {Token : Type 0} (env : Env Token) where
  matching_code-verifies :
      (t : Text) (cs : List BackupCode) (c : BackupCode)
      → matching_code env t cs ≡ some c
      → env.verify t c.hashed_code ≡ true
  unfolding matching_code
  matching_code-verifies t [] c h = ground arith
  matching_code-verifies t (d ∷ cs) c h = ground (arith, matching_code-verifies t cs c)

  consume-eq-ok :
      (user : User) (found : Option BackupCode) (w v : World)
      → consume env user found w ≡ (ok tt, v)
      → (c : BackupCode) × (found ≡ some c)
        × (v.db.backup_codes
            ≡ update (λ d. d.id == c.id) (λ d. record d { used_at = some w.now }) w.db.backup_codes)
  unfolding consume
  consume-eq-ok user none w v h = absurd (
      raises (record_failure env.settings (lock_id user) none w)
        (auth_error "Invalid recovery code.") tt (ap (λ p. p.0) h))
  consume-eq-ok user (some c) w v h = (c, refl, ground arith)

  -- A recovery code that is accepted verifies against the hash of an unused code of the user, and
  -- afterwards the unused codes of the user are those of before without that one.
  pub consume_recovery_code-list_unused :
      (user : User) (code : Text) (w v : World)
      → consume_recovery_code env user code w ≡ (ok tt, v)
      → (c : BackupCode) × (env.verify (upper (strip code)) c.hashed_code ≡ true)
        × (matching_code env (upper (strip code)) (list_unused user.id w.db) ≡ some c)
        × (list_unused user.id v.db ≡ select (λ d. not (d.id == c.id)) (list_unused user.id w.db))
  unfolding consume_recovery_code list_unused
  consume_recovery_code-list_unused user code w v h =
      let t = upper (strip code) in
      let (_, _, k) = after_Reads _ w tt v (ensure_not_locked-Reads (lock_id user) none) h in
      let found = matching_code env t (list_unused user.id w.db) in
      let (c, e, d) = consume-eq-ok user found w v k in
      (
        c,
        matching_code-verifies t (list_unused user.id w.db) c e,
        e,
        ap (select (unused_of user.id)) d ∙ select-update user.id c.id w.now w.db.backup_codes,
      )
