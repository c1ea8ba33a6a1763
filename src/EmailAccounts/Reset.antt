-- ===== src/EmailAccounts/Reset.antt =====
-- What a password reset changes.
use mathlib.Core.Option
use enterprise_auth_server.Users
use enterprise_auth_server.State.Background.{add_task}
use enterprise_auth_server.Common.{
  ==_refl, ℕ, ◌≡◌, refl, ap, sym, ◌∙◌, true, some, List, Text, arith, find, update, find-update,
  find_holds, nat_beq_iff, ◌==◌, nat_eq, if◌then◌else◌,
}
use enterprise_auth_server.Core.External.{Env, HashVerifies}
use enterprise_auth_server.Core.Passwords.{validate_password_strength, hash_password}
use enterprise_auth_server.Models.{User, EmailToken, Purpose}
use enterprise_auth_server.Models
use enterprise_auth_server.State.World.{World, password_changed}
use enterprise_auth_server.State.Exec.{ok, >>=-eq-ok, ◌>>◌, ◌>>=◌, pure}
use enterprise_auth_server.State.Reads.{Reads, after_Reads, after_or_raise}
use enterprise_auth_server.EmailAccounts.{consume, reset_password}

module _ {Token : Type 0} (env : Env Token) where
  validate-Reads : (password : Text) → Reads (validate_password_strength password)
  unfolding validate_password_strength
  validate-Reads password = record { same = λ w. ground arith }

  -- What a reset leaves: the row of the token's user has a hash of the new password, and the
  -- sessions are as before.
  pub record Reset (raw password : Text) (user : User) (w v : World) : Type 0 where
    pub token : EmailToken
    pub consumed : (consume env raw Models.reset_password w).0 ≡ ok token
    pub strong : (validate_password_strength password w).0 ≡ ok tt
    pub owner : user.id ≡ token.user_id
    pub found : find (λ u. u.id == token.user_id) v.db.users ≡ some user
    pub verifies : env.verify password user.hashed_password ≡ true
    pub same_sessions : v.db.sessions ≡ w.db.sessions

  pub consume_keeps :
      (raw : Text) (p : Purpose) (w : World)
      → let v = (consume env raw p w).1 in
        (v.db.users ≡ w.db.users) × (v.db.sessions ≡ w.db.sessions)
  unfolding consume
  consume_keeps raw p w = (ground arith, ground arith)

  -- The row with the hash that is computed next.
  abbrev renewed : Text → World → User → User
  renewed password y u = record u { hashed_password = env.hash password y.drawn }

  find-renewed :
      (password : Text) (id : ℕ) (row : User) (y : World) (us : List User)
      → find (λ u. u.id == id) us ≡ some row
      → find (λ u. u.id == id) (update (λ u. u.id == row.id) (renewed password y) us)
        ≡ some (renewed password y row)
  find-renewed password id row y us f =
      find-update (λ u. u.id == id) (λ u. u.id == row.id) (renewed password y) us (λ u. refl)
      ∙ ap (Option.map (λ u. if u.id == row.id then renewed password y u else u)) f
      ∙ rw (==_refl row.id) refl

  finished :
      (password : Text) (row user : User) (y v : World)
      → (hash_password env password >>= λ hashed.
            Users.save row.id (λ u. record u { hashed_password = hashed })
            >> (add_task (password_changed row.email)
                >> pure (record row { hashed_password = hashed })))
          y
        ≡ (ok user, v)
      → (user ≡ renewed password y row)
        × (v.db.users ≡ update (λ u. u.id == row.id) (renewed password y) y.db.users)
        × (v.db.sessions ≡ y.db.sessions)
  unfolding hash_password Users.save add_task
  finished password row user y v h = (ground arith, ground arith, ground arith)

  -- A password reset needs an unused token for it and a strong password. It leaves the row of the
  -- token's user with a hash that the new password verifies against, given that a hash verifies its
  -- own password, and it changes no session: those that were active stay so.
  pub reset_password-Reset :
      HashVerifies env
      → (raw password : Text) (user : User) (w v : World)
      → reset_password env raw password w ≡ (ok user, v)
      → Reset raw password user w v
  unfolding reset_password Users.get
  reset_password-Reset hv raw password user w v h =
      let (_, strong, h1) = after_Reads _ w user v (validate-Reads password) h in
      let (token, consumed, h2) = >>=-eq-ok (consume env raw Models.reset_password) _ w user v h1 in
      let y = (consume env raw Models.reset_password w).1 in
      let at_id = λ (u : User). u.id == token.user_id in
      let (row, known, h3) = after_or_raise _ (find at_id y.db.users) _ y user v h2 in
      let (same, users, sessions) = finished password row user y v h3 in
      record {
        token = token;
        consumed = consumed;
        strong = strong;
        owner =
            ap (λ u. u.id) same
            ∙ (nat_beq_iff row.id token.user_id).0 (find_holds at_id y.db.users row known);
        found =
            ap (find at_id) users
            ∙ find-renewed password token.user_id row y y.db.users known
            ∙ ap some (sym same);
        verifies = rw same (hv password y.drawn);
        same_sessions = sessions ∙ (consume_keeps raw Models.reset_password w).1;
      }
