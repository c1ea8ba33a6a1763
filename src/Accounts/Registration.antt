-- ===== src/Accounts/Registration.antt =====
-- What `register` adds, and that nobody gets an email that is taken.
use mathlib.Core.List.{append-nil}
use enterprise_auth_server.Common.{
  ℕ, ◌≤◌, ◌≡◌, refl, ap, sym, ◌∙◌, true, false, Option, List, [], ◌∷◌, ◌++◌, Text, arith,
  Bool-cases, inl, inr, length, select, if◌then◌else◌, ◌==◌, text_eq, text_beq_iff, ==_refl,
}
use enterprise_auth_server.Core.External.{Env, HashVerifies}
use enterprise_auth_server.Core.Strings.{lower, lower-lower}
use enterprise_auth_server.Models.{User}
use enterprise_auth_server.State.World.{World}
use enterprise_auth_server.State.Exec.{ok}
use enterprise_auth_server.Users.{with_email}
use enterprise_auth_server.Accounts.{register, authenticate, accept, rehash}
use enterprise_auth_server.Accounts.Authentication.{ensure_not_locked-Reads}
use enterprise_auth_server.RateLimit.{clear_failures, ensure_not_locked}

-- No two users have emails that differ in case at most.
pub record HasUniqueEmails (us : List User) : Type 0 where
  pub at_most_one : (email : Text) → length (with_email email us) ≤ 1

with_email-append :
    (email : Text) (us : List User) (u : User)
    → with_email email (us ++ u ∷ [])
      ≡ with_email email us ++ (if lower u.email == lower email then u ∷ [] else [])
unfolding with_email select
with_email-append email [] u = ground arith
with_email-append email (v ∷ us) u = ground (arith, with_email-append email us u)

-- Emails that agree up to case select the same rows.
pub with_email-cong :
    (a b : Text) (us : List User) → lower a ≡ lower b → with_email a us ≡ with_email b us
unfolding with_email
with_email-cong a b us h = rw h refl

module _ {Token : Type 0} (env : Env Token) where
  rehash-ok :
      (user : User) (password : Text) (w : World)
      → (u : User) × ((rehash env user password w).0 ≡ ok u) × (u.id ≡ user.id)
  unfolding rehash
  rehash-ok user password w =
      let new = record user { hashed_password = env.hash password w.drawn } in
      (if env.needs_update user.hashed_password then new else user, ground arith, ground arith)

  accept-ok :
      (email password : Text) (ip : Option Text) (user : User) (w : World)
      → user.is_active ≡ true
      → (u : User) × ((accept env email password ip user w).0 ≡ ok u) × (u.id ≡ user.id)
  unfolding accept
  accept-ok email password ip user w h =
      let x = (clear_failures email ip w).1 in
      let (u, e, same) = rehash-ok user password x in (u, ground (arith, h, e), same)

module _ {Token : Type 0} (env : Env Token) (email password full_name : Text) where
  pub record Registered (user : User) (w v : World) : Type 0 where
    pub appended : v.db.users ≡ w.db.users ++ user ∷ []
    pub free : with_email email w.db.users ≡ []
    pub lowered : user.email ≡ lower email
    pub ordinary : user.is_superuser ≡ false
    pub active : user.is_active ≡ true
    pub salt : ℕ
    pub hashed : user.hashed_password ≡ env.hash password salt
    pub same_redis : v.redis ≡ w.redis
    pub same_now : v.now ≡ w.now

  register-Registered :
      (user : User) (w v : World)
      → register env email password full_name w ≡ (ok user, v)
      → Registered user w v
  unfolding register
  register-Registered user w v h = record {
    appended = ground arith;
    free = ground arith;
    lowered = ground arith;
    ordinary = ground arith;
    active = ground arith;
    salt = w.drawn;
    hashed = ground arith;
    same_redis = ground arith;
    same_now = ground arith;
  }

  -- The new row is the only one with its email.
  only_row :
      (user : User) (w v : World) → Registered user w v → with_email email v.db.users ≡ user ∷ []
  only_row user w v r = rw r.appended (
      with_email-append email w.db.users user
      ∙ rw r.free (rw r.lowered (rw (lower-lower email) (rw (==_refl (lower email)) refl))))

  one_of :
      (e : Text) (user : User) (w v : World)
      → Registered user w v
      → HasUniqueEmails w.db.users
      → length (with_email e v.db.users) ≤ 1
  one_of e user w v r unique = elim (Bool-cases (lower user.email == lower e)) [
    | inl same ↦
        let k : lower email ≡ lower e =
          sym (lower-lower email)
          ∙ ap lower (sym r.lowered)
          ∙ (text_beq_iff (lower user.email) (lower e)).0 same in
        rw (with_email-cong e email v.db.users (sym k)) (rw (only_row user w v r) (omega arith))
    | inr other ↦ rw r.appended (
        rw (with_email-append e w.db.users user)
          (rw other (rw (append-nil (with_email e w.db.users)) (unique.at_most_one e))))
  ]

  -- Registration keeps the emails unique up to case, adds the new user after the others, under the
  -- lowered email and as no superuser, and only if nobody had the email.
  pub register-HasUniqueEmails :
      (user : User) (w v : World)
      → register env email password full_name w ≡ (ok user, v)
      → HasUniqueEmails w.db.users
      → HasUniqueEmails v.db.users × Registered user w v
  register-HasUniqueEmails user w v h unique =
      let r = register-Registered user w v h in
      (record { at_most_one = λ e. one_of e user w v r unique }, r)

  -- Given that a hash verifies its own password, a password that was registered is accepted for its
  -- email, also in other capitals, in every state, at any time, in which the table of users is as the
  -- registration left it, and in which the email is not locked and Redis answers (`ensure_not_locked`
  -- passes): `authenticate` then returns the registered user.
  pub authenticate-register :
      HashVerifies env
      → (spelling : Text) (ip : Option Text) (user : User) (w v x : World)
      → register env email password full_name w ≡ (ok user, v)
      → lower spelling ≡ lower email
      → x.db.users ≡ v.db.users
      → (ensure_not_locked spelling ip x).0 ≡ ok tt
      → (u : User) × ((authenticate env spelling password ip x).0 ≡ ok u) × (u.id ≡ user.id)
  unfolding authenticate
  authenticate-register hv spelling ip user w v x h same kept unlocked =
      let r = register-Registered user w v h in
      let row =
        ap (with_email spelling) kept
        ∙ with_email-cong spelling email v.db.users same
        ∙ only_row user w v r in
      let verified : env.verify password user.hashed_password ≡ true =
        rw r.hashed (hv password r.salt) in
      let first : ensure_not_locked spelling ip x ≡ (ok tt, x) =
        λ i. (unlocked i, (ensure_not_locked-Reads spelling ip).same x i) in
      rw first (rw row (rw verified (accept-ok env spelling password ip user x r.active)))
