-- ===== src/Accounts/Authentication.antt =====
-- Whom `authenticate` accepts, and how it answers everyone else.
use enterprise_auth_server.Common.{
  ◌+◌, ◌≡◌, refl, ap, ◌∙◌, ◌⊎◌, inl, inr, true, false, Bool, Option, none, some, [], ◌∷◌, Text,
  arith,
}
use enterprise_auth_server.Core.Errors.{auth_error}
use enterprise_auth_server.Core.Settings.{Settings}
use enterprise_auth_server.Core.External.{Env}
use enterprise_auth_server.Models.{User}
use enterprise_auth_server.State.World.{World}
use enterprise_auth_server.State.Exec.{ok, err, >>=-eq-ok}
use enterprise_auth_server.State.Reads.{Reads, after_Reads}
use enterprise_auth_server.RateLimit.{ensure_not_locked, record_failure}
use enterprise_auth_server.Users.{with_email}
use enterprise_auth_server.Users.Lookup.{get_by_email-Reads, email_row}
use enterprise_auth_server.Accounts.{authenticate, reject, decide, stored_hash}

pub ensure_not_locked-Reads : (id : Text) (ip : Option Text) → Reads (ensure_not_locked id ip)
unfolding ensure_not_locked
ensure_not_locked-Reads id ip = record { same = λ w. ground arith }

-- After a hash was computed, with its own salt.
abbrev hashed : World → World
hashed w = record w { drawn = w.drawn + 1 }

failure_after_hash :
    (s : Settings) (email : Text) (ip : Option Text) (w : World)
    → (record_failure s email ip (hashed w)).1.redis ≡ (record_failure s email ip w).1.redis
unfolding record_failure
failure_after_hash s email ip w = ground arith

module _ {Token : Type 0} (env : Env Token) where
  -- What is known of a user whom `authenticate` accepts: the only one with the email.
  pub record Authenticated (email password : Text) (ip : Option Text) (user : User) (w : World)
      : Type 0 where
    pub stored : User
    pub unlocked : (ensure_not_locked email ip w).0 ≡ ok tt
    pub only_row : with_email email w.db.users ≡ stored ∷ []
    pub verified : env.verify password stored.hashed_password ≡ true
    pub active : stored.is_active ≡ true
    pub same_id : user.id ≡ stored.id

  decided :
      (email password : Text) (ip : Option Text) (found : Option User) (good : Bool) (user : User)
      (w v : World)
      → decide env email password ip found good w ≡ (ok user, v)
      → (u : User) × (found ≡ some u) × (good ≡ true) × (u.is_active ≡ true) × (user.id ≡ u.id)
  unfolding decide
  decided email password ip none good user w v h = absurd (ground arith)
  decided email password ip (some u) false user w v h = absurd (ground arith)
  decided email password ip (some u) true user w v h = (u, refl, refl, ground arith, ground arith)

  checked :
      (password : Text) (found : Option User) (u : User) (stored : Text) (w : World)
      → found ≡ some u
      → (stored_hash env found w).0 ≡ ok stored
      → env.verify password stored ≡ true
      → env.verify password u.hashed_password ≡ true
  unfolding stored_hash
  checked password none u stored w e h g = absurd (cc)
  checked password (some x) u stored w e h g = ground (arith, e, h, g)

  -- Who is authenticated under an email is the only user with that email, is active, and has a hash
  -- that the password verifies against; the email was not locked for the address.
  pub authenticate-Authenticated :
      (email password : Text) (ip : Option Text) (user : User) (w v : World)
      → authenticate env email password ip w ≡ (ok user, v)
      → Authenticated email password ip user w
  unfolding authenticate
  authenticate-Authenticated email password ip user w v h =
      let (_, unlocked, h1) = after_Reads _ w user v (ensure_not_locked-Reads email ip) h in
      let (found, row, h2) = after_Reads _ w user v (get_by_email-Reads email) h1 in
      let (stored, known, h3) = >>=-eq-ok (stored_hash env found) _ w user v h2 in
      let (u, is, good, active, same) = decided email password ip found _ user _ v h3 in
      let e = row ∙ ap ok is in
      record {
        stored = u;
        unlocked = unlocked;
        only_row = email_row email u w e;
        verified = checked password found u stored w is known good;
        active = active;
        same_id = same;
      }

  reject-answer :
      (email : Text) (ip : Option Text) (w : World)
      → ((reject env email ip w).0 ≡ err (auth_error "Invalid email or password."))
        × ((reject env email ip w).1.redis ≡ (record_failure env.settings email ip w).1.redis)
        × ((reject env email ip w).1.db ≡ w.db)
  unfolding reject
  reject-answer email ip w = (ground arith, ground arith, ground arith)

  unknown_email :
      (email password : Text) (ip : Option Text) (w : World)
      → (ensure_not_locked email ip w).0 ≡ ok tt
      → with_email email w.db.users ≡ []
      → authenticate env email password ip w ≡ reject env email ip (hashed w)
  unfolding authenticate
  unknown_email email password ip w h e =
      let first : ensure_not_locked email ip w ≡ (ok tt, w) =
        λ i. (h i, (ensure_not_locked-Reads email ip).same w i) in
      rw first (rw e refl)

  wrong_password :
      (email password : Text) (ip : Option Text) (u : User) (w : World)
      → (ensure_not_locked email ip w).0 ≡ ok tt
      → with_email email w.db.users ≡ u ∷ []
      → env.verify password u.hashed_password ≡ false
      → authenticate env email password ip w ≡ reject env email ip w
  unfolding authenticate
  wrong_password email password ip u w h e f =
      let first : ensure_not_locked email ip w ≡ (ok tt, w) =
        λ i. (h i, (ensure_not_locked-Reads email ip).same w i) in
      rw first (rw e (rw f refl))

  -- Where the email is not locked and Redis answers (`ensure_not_locked` passes), an email that no user
  -- has, and a password that does not verify for the only user with the email, are answered alike,
  -- both count as one failure for the email, and neither changes a table.
  pub authenticate-rejects :
      (email password : Text) (ip : Option Text) (w : World)
      → (ensure_not_locked email ip w).0 ≡ ok tt
      → (with_email email w.db.users ≡ [])
        ⊎ ((u : User) × (with_email email w.db.users ≡ u ∷ [])
            × (env.verify password u.hashed_password ≡ false))
      → ((authenticate env email password ip w).0 ≡ err (auth_error "Invalid email or password."))
        × ((authenticate env email password ip w).1.redis
            ≡ (record_failure env.settings email ip w).1.redis)
        × ((authenticate env email password ip w).1.db ≡ w.db)
  unfolding authenticate
  authenticate-rejects email password ip w h (inl e) =
      let (refused, counted, kept) = reject-answer email ip (hashed w) in
      rw (unknown_email email password ip w h e)
        (refused, counted ∙ failure_after_hash env.settings email ip w, kept)
  authenticate-rejects email password ip w h (inr (u, e, f)) =
      rw (wrong_password email password ip u w h e f) (reject-answer email ip w)
