-- ===== src/EmailAccounts/Issue.antt =====
-- A token that `_issue` makes replaces the earlier ones of its purpose, and can be used.
use enterprise_auth_server.Common.{
  ℕ, ◌+◌, ◌<◌, ◌≡◌, refl, true, false, not, Bool, Option, none, some, List, [], ◌∷◌, ◌++◌, Text,
  arith, select, any, ◌==◌, nat_eq, text_eq, find-append_last, ==_refl,
}
use enterprise_auth_server.Core.External.{Env}
use enterprise_auth_server.Models.{
  User, EmailToken, Purpose, verify_email, reset_password, change_email,
}
use enterprise_auth_server.State.World.{World, wait}
use enterprise_auth_server.State.Exec.{ok}
use enterprise_auth_server.EmailAccounts.Repository.{same_purpose, is_for}
use enterprise_auth_server.EmailAccounts.{issue, consume, used}
use enterprise_auth_server.EmailAccounts.SingleUse.{row_of}

same_purpose_refl : (p : Purpose) → same_purpose p p ≡ true
same_purpose_refl verify_email = refl
same_purpose_refl reset_password = refl
same_purpose_refl change_email = refl

-- What is left without the rows that pass a test, and one row that passes it.
select-append :
    {A : Type 0} (p : A → Bool) (xs : List A) (y : A)
    → p y ≡ true
    → select p (select (λ x. not (p x)) xs ++ y ∷ []) ≡ y ∷ []
unfolding select
select-append p [] y h = ground (arith, h)
select-append p (x ∷ xs) y h = ground (arith, select-append p xs y h)

module _ {Token : Type 0} (env : Env Token) (user : User) (p : Purpose)
    (new_email : Option Text) where
  record Issued (ttl : ℕ) (raw : Text) (w v : World) : Type 0 where
    pub row : EmailToken
    pub appended :
        v.db.email_tokens ≡ select (λ t. not (is_for user.id p t)) w.db.email_tokens ++ row ∷ []
    pub fresh :
        any
          (λ t. t.token_hash == env.sha256_hex raw)
          (select (λ t. not (is_for user.id p t)) w.db.email_tokens)
        ≡ false
    pub hash : row.token_hash ≡ env.sha256_hex raw
    pub owner : row.user_id ≡ user.id
    pub purpose : row.purpose ≡ p
    pub address : row.new_email ≡ new_email
    pub expires : row.expires_at ≡ w.now + ttl
    pub unused : row.used_at ≡ none
    pub same_now : v.now ≡ w.now

  issue-Issued :
      (ttl : ℕ) (raw : Text) (w v : World)
      → issue env user p ttl new_email w ≡ (ok raw, v)
      → Issued ttl raw w v
  unfolding issue
  issue-Issued ttl raw w v h = record {
    row = record {
      id = env.new_uuid (w.drawn + 1);
      user_id = user.id;
      token_hash = env.sha256_hex raw;
      purpose = p;
      new_email = new_email;
      expires_at = w.now + ttl;
      used_at = none;
    };
    appended = ground arith;
    fresh = ground arith;
    hash = refl;
    owner = refl;
    purpose = refl;
    address = refl;
    expires = refl;
    unused = refl;
    same_now = ground arith;
  }

  own_token :
      (row : EmailToken) → row.user_id ≡ user.id → row.purpose ≡ p → is_for user.id p row ≡ true
  own_token row o e = rw o (rw e (rw (==_refl user.id) (same_purpose_refl p)))

  accepted :
      (raw : Text) (row : EmailToken) (w : World)
      → row_of env raw w ≡ some row
      → row.purpose ≡ p
      → row.used_at ≡ none
      → w.now < row.expires_at
      → (consume env raw p w).0 ≡ ok (used w.now row)
  unfolding consume
  accepted raw row w f e n l = ground (arith, f, e, n, l, same_purpose_refl p)

  -- After `_issue` the user has one token of the purpose, and its text is accepted for that purpose
  -- at any time before the lifetime given has passed, while the table of tokens stays as it is: it
  -- then names the user and the new address given.
  pub consume-issue :
      (ttl d : ℕ) (raw : Text) (w v : World)
      → issue env user p ttl new_email w ≡ (ok raw, v)
      → d < ttl
      → (t : EmailToken) × (select (is_for user.id p) v.db.email_tokens ≡ t ∷ [])
        × ((consume env raw p (wait d v)).0 ≡ ok (used (v.now + d) t))
        × (t.user_id ≡ user.id)
        × (t.new_email ≡ new_email)
  consume-issue ttl d raw w v h l =
      let r = issue-Issued ttl raw w v h in
      let kept = select (λ t. not (is_for user.id p t)) w.db.email_tokens in
      let found : row_of env raw (wait d v) ≡ some r.row = rw r.appended (
        find-append_last (λ t. t.token_hash == env.sha256_hex raw) kept r.row r.fresh
          (rw r.hash (==_refl (env.sha256_hex raw)))) in
      let is_its : is_for user.id p r.row ≡ true = own_token r.row r.owner r.purpose in
      (
        r.row,
        rw r.appended (select-append (is_for user.id p) w.db.email_tokens r.row is_its),
        accepted raw r.row (wait d v) found r.purpose r.unused
            (omega (arith, r.expires, r.same_now)),
        r.owner,
        r.address,
      )
