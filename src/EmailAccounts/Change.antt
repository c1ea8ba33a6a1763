-- ===== src/EmailAccounts/Change.antt =====
-- What a confirmed change of address changes.
use enterprise_auth_server.Users
use enterprise_auth_server.Common.{
  ℕ, ◌+◌, ◌≤◌, ◌≡◌, refl, ap, sym, ◌∙◌, true, Option, none, some, List, [], ◌∷◌, Text, arith,
  find_holds, nat_beq_iff, none_of_none, find, select, update, length, Bool-cases, inl, inr,
  if◌then◌else◌, ◌==◌, nat_eq, text_eq, text_beq_iff, ltb,
}
use enterprise_auth_server.Core.Errors.{conflict}
use enterprise_auth_server.Core.External.{Env}
use enterprise_auth_server.Core.Strings.{lower}
use enterprise_auth_server.Models
use enterprise_auth_server.Models.{User, EmailToken}
use enterprise_auth_server.State.World.{World}
use enterprise_auth_server.State.Exec.{Exec, ◌>>=◌, ◌>>◌, pure, raise_if, ok, >>=-eq-ok}
use enterprise_auth_server.State.Reads.{after_raise_if}
use enterprise_auth_server.Users.{with_email, email_exists}
use enterprise_auth_server.Accounts.Registration.{HasUniqueEmails, with_email-cong}
use enterprise_auth_server.EmailAccounts.Reset.{consume_keeps}
use enterprise_auth_server.EmailAccounts.{consume, require_change, confirm_email_change}

abbrev moved : Text → User → User
moved address u = record u { email = address; is_verified = true }

-- At most one row has an id.
pub record HasUniqueIds (us : List User) : Type 0 where
  pub at_most_one : (id : ℕ) → length (select (λ u. u.id == id) us) ≤ 1

-- Of the rows with an email afterwards, some had it before, and the others are those that moved.
length-moved :
    (e address : Text) (id : ℕ) (us : List User)
    → length (with_email e (update (λ u. u.id == id) (moved address) us))
      ≤ length (with_email e us)
        + (if lower address == lower e then length (select (λ u. u.id == id) us) else 0)
unfolding with_email select update
length-moved e address id [] = ground arith
length-moved e address id (u ∷ us) = ground (arith, length-moved e address id us)

same_ids :
    (i id : ℕ) (address : Text) (us : List User)
    → length (select (λ u. u.id == i) (update (λ u. u.id == id) (moved address) us))
      ≡ length (select (λ u. u.id == i) us)
unfolding select update
same_ids i id address [] = refl
same_ids i id address (u ∷ us) = ground (arith, same_ids i id address us)

moved_once :
    (e address : Text) (id : ℕ) (us : List User)
    → HasUniqueEmails us
    → HasUniqueIds us
    → with_email address us ≡ []
    → length (with_email e (update (λ u. u.id == id) (moved address) us)) ≤ 1
moved_once e address id us emails ids free =
    let bound = length-moved e address id us in
    elim (Bool-cases (lower address == lower e)) [
      | inl same ↦
          let k : lower address ≡ lower e = (text_beq_iff (lower address) (lower e)).0 same in
          let nobody_else : length (with_email e us) ≡ 0 =
            ap length (sym (with_email-cong address e us k) ∙ free) in
          ground (arith, bound, same, ids.at_most_one id, nobody_else)
      | inr other ↦ ground (arith, bound, other, emails.at_most_one e)
    ]

module _ {Token : Type 0} (env : Env Token) where
  -- What a confirmed change shows and leaves.
  pub record Changed (raw : Text) (user : User) (w v : World) : Type 0 where
    pub token : EmailToken
    pub consumed : (consume env raw Models.change_email w).0 ≡ ok token
    pub owner : user.id ≡ token.user_id
    pub address : Text
    pub asked_for : token.new_email ≡ some address
    pub renamed : user.email ≡ address
    pub free : with_email address w.db.users ≡ []
    pub saved : v.db.users ≡ update (λ u. u.id == user.id) (moved address) w.db.users

  -- The last steps, once the token was consumed and its user looked up.
  last_steps : Option User → Option Text → Exec User
  unfolding require_change email_exists Users.save
  last_steps found o = do
    (user, address) ← require_change env found o
    taken ← email_exists address
    raise_if taken (conflict "That email address is already in use.")
    Users.save user.id (moved address)
    pure (moved address user)

  -- A user and an address were there, and nobody had the address.
  record Finished (found : Option User) (o : Option Text) (user : User) (y v : World) : Type 0 where
    pub row : User
    pub address : Text
    pub known : found ≡ some row
    pub given : o ≡ some address
    pub returned : user ≡ moved address row
    pub free : with_email address y.db.users ≡ []
    pub saved : v.db.users ≡ update (λ u. u.id == row.id) (moved address) y.db.users

  last_steps-Finished :
      (found : Option User) (o : Option Text) (user : User) (y v : World)
      → last_steps found o y ≡ (ok user, v)
      → Finished found o user y v
  unfolding last_steps
  last_steps-Finished none none user y v h = absurd (ground (arith, h))
  last_steps-Finished none (some address) user y v h = absurd (ground (arith, h))
  last_steps-Finished (some row) none user y v h = absurd (ground (arith, h))
  last_steps-Finished (some row) (some address) user y v h =
      let taken = ltb 0 (length (with_email address y.db.users)) in
      let (free, h1) = after_raise_if taken _ _ y user v h in
      record {
        row = row;
        address = address;
        known = refl;
        given = refl;
        returned = ground (arith, h1);
        free = none_of_none (with_email address y.db.users) free;
        saved = ground (arith, h1);
      }

  -- A confirmed change needs an unused token for it that names a new address, which nobody has, up
  -- to case, at that moment. It moves the row of the token's user to that address and touches no
  -- other user; where no two users had emails that differ in case at most, and no two the same id,
  -- that stays so.
  pub confirm_email_change-HasUniqueEmails :
      (raw : Text) (user : User) (w v : World)
      → confirm_email_change env raw w ≡ (ok user, v)
      → HasUniqueEmails w.db.users
      → HasUniqueIds w.db.users
      → HasUniqueEmails v.db.users × HasUniqueIds v.db.users × Changed raw user w v
  unfolding confirm_email_change last_steps Users.get
  confirm_email_change-HasUniqueEmails raw user w v h emails ids =
      let m = consume env raw Models.change_email in
      let (token, consumed, h1) = >>=-eq-ok m _ w user v h in
      let y = (m w).1 in
      let at_id = λ (u : User). u.id == token.user_id in
      let f = last_steps-Finished (find at_id y.db.users) token.new_email user y v h1 in
      let same_users = (consume_keeps env raw Models.change_email w).0 in
      let same_id : user.id ≡ f.row.id = ap (λ (u : User). u.id) f.returned in
      let free = ap (with_email f.address) (sym same_users) ∙ f.free in
      let saved = f.saved ∙ ap (update (λ u. u.id == f.row.id) (moved f.address)) same_users in
      (
        record {
          at_most_one = λ e. rw saved (moved_once e f.address f.row.id w.db.users emails ids free);
        },
        record {
          at_most_one =
              λ i. rw saved (rw (same_ids i f.row.id f.address w.db.users) (ids.at_most_one i));
        },
        record {
          token = token;
          consumed = consumed;
          owner =
              same_id
              ∙ (nat_beq_iff f.row.id token.user_id).0 (find_holds at_id y.db.users f.row f.known);
          address = f.address;
          asked_for = f.given;
          renamed = ap (λ (u : User). u.email) f.returned;
          free = free;
          saved = rw same_id saved;
        },
      )
